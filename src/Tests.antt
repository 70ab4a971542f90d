-- ===== src/Tests.antt =====
-- Runs of the model on concrete data, and the theorems at such data.
mod Machine
mod Streams
mod Tables
mod Categories
mod Peers
mod Listeners
mod Transports
mod Prompts
mod Talks
mod Errors
mod Managers
mod QuicMachine
mod Quics
