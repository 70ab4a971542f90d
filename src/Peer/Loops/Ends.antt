-- ===== src/Peer/Loops/Ends.antt =====
-- What the loops of a peer do to the table.
use peer_net.Base.{
  ℕ, ◌≡◌, refl, ◌∙◌, ap, ◌⊎◌, inl, inr, none, some, false, List, [], ◌∷◌, Eq, ◌==◌, Bool-cases,
  test_refl,
}
use peer_net.Base.Dict.{lookup, remove, NodupKeys, remove-NodupKeys, lookup-remove}
use peer_net.Act.{Outcome, ok, err, panicked, unfinished}
use peer_net.Loop.{stop, again, Keeps, repeat_keeps}
use peer_net.Os.{Os, TryRecv, received, is_empty, is_disconnected, Ready, stopped, low, high}
use peer_net.World.{World}
use peer_net.Endpoint.Dispatch
use peer_net.Connections.{Shared}
use peer_net.Connections.Calls.{connections-remove_connection, remove_cases, removed}
use peer_net.Peer.{Handler, Running}
use peer_net.Peer.Loops.{
  reader, reader_round, after_receive, after_handle, drop_peer, after_removal, writer, writer_round,
  after_try, after_select, write_message, after_send, is_time_out, Round,
}

module _ {os : Os} {PeerId : Type 0} ⦃e : Eq PeerId⦄ (id : PeerId) (s : Shared os PeerId) where
  -- The table has lost at most the peer `id`.
  pub record Kept (t : Shared os PeerId) : Type 0 where
    pub distinct : NodupKeys t.active.connections
    pub others :
        (j : PeerId)
        → (j == id) ≡ false
        → lookup j t.active.connections ≡ lookup j s.active.connections

  abbrev pub Read : Outcome (Unit {0}) → Shared os PeerId → Type 0
  Read (ok _) t = Kept t × (lookup id t.active.connections ≡ none)
  Read (err _) t = ⊥
  Read _ t = Kept t

  abbrev Reads : Round os PeerId → Type 0
  Reads r = Keeps (λ _ t. Kept t) Read r.0 r.1

  removal-Kept :
      (t : Shared os PeerId)
      → Kept t
      → Kept (removed t id).1 × (lookup id (removed t id).1.active.connections ≡ none)
  removal-Kept t kept =
      let table = connections-remove_connection t id in
      let without = λ (j : PeerId). lookup-remove j id t.active.connections kept.distinct in
      (
        record {
          distinct = rw table (remove-NodupKeys id t.active.connections kept.distinct);
          others = λ j other. rw table (without j ∙ rw other (kept.others j other));
        },
        rw table (rw (test_refl id) at (without id)),
      )

  drop_again-Reads : (t : Shared os PeerId) → Kept t → Reads (drop_peer id (again tt) t)
  unfolding drop_peer after_removal
  drop_again-Reads t kept = elim (remove_cases t id) [
    | inl fine ↦ rw fine (removal-Kept t kept).0
    | inr panic ↦ rw panic (removal-Kept t kept).0
  ]

  drop_stop-Reads : (t : Shared os PeerId) → Kept t → Reads (drop_peer id (stop (ok tt)) t)
  unfolding drop_peer after_removal
  drop_stop-Reads t kept = elim (remove_cases t id) [
    | inl fine ↦ rw fine (removal-Kept t kept)
    | inr panic ↦ rw panic (removal-Kept t kept).0
  ]

  after_handle-Reads :
      (o : Outcome (Unit {0})) (t : Shared os PeerId) → Kept t → Reads (after_handle id o t)
  unfolding after_handle
  after_handle-Reads (ok _) t kept = kept
  after_handle-Reads (err _) t kept = drop_again-Reads t kept
  after_handle-Reads panicked t kept = kept
  after_handle-Reads unfinished t kept = kept

  with_world : (t : Shared os PeerId) (w : World os) → Kept t → Kept (record t { world = w })
  with_world t w kept = record { distinct = kept.distinct; others = kept.others }

  after_receive-Reads :
      (handler : Handler os PeerId) (o : Outcome (List ℕ)) (t : Shared os PeerId)
      → Kept t
      → Reads (after_receive handler id o t)
  unfolding after_receive
  after_receive-Reads handler (ok []) t kept = drop_stop-Reads t kept
  after_receive-Reads handler (ok (b ∷ bs)) t kept =
      after_handle-Reads _ _ (with_world t (handler.handle (b ∷ bs) id t.world).1 kept)
  after_receive-Reads handler (err x) t kept = elim (Bool-cases (is_time_out x.error_type)) [
    | inl late ↦ rw late kept
    | inr other ↦ rw other (drop_stop-Reads t kept)
  ]
  after_receive-Reads handler panicked t kept = kept
  after_receive-Reads handler unfinished t kept = kept

  -- What the writing thread leaves: the table as it was, or the table without the peer.
  abbrev pub Left : Shared os PeerId → Type 0
  Left t =
      (t.active.connections ≡ s.active.connections)
      ⊎ (t.active.connections ≡ remove id s.active.connections)

  abbrev pub Writes : Outcome (Unit {0}) → Shared os PeerId → Type 0
  Writes (err _) t = ⊥
  Writes _ t = Left t

  abbrev Same : Shared os PeerId → Type 0
  Same t = t.active.connections ≡ s.active.connections

  abbrev Rounds : Round os PeerId → Type 0
  Rounds r = Keeps (λ _ t. Same t) Writes r.0 r.1

  after_send-Rounds :
      (o : Outcome (Unit {0})) (t : Shared os PeerId) → Same t → Rounds (after_send id o t)
  unfolding after_send drop_peer after_removal
  after_send-Rounds (ok _) t same = same
  after_send-Rounds (err _) t same =
      let table = connections-remove_connection t id ∙ ap (remove id) same in
      elim (remove_cases t id) [ inl fine ↦ rw fine (inr table) | inr panic ↦ rw panic (inr table) ]
  after_send-Rounds panicked t same = inl same
  after_send-Rounds unfinished t same = inl same

module _ {os : Os} {PeerId : Type 0} ⦃e : Eq PeerId⦄ (peer : Running PeerId) (s : Shared os PeerId)
    (rounds fuel : ℕ) where
  -- However long the reader runs, no other peer loses its connection. If it returns, it returns
  -- without an error, and its own peer is out of the table.
  pub reader-Read :
      (handler : Handler os PeerId)
      → NodupKeys s.active.connections
      → Read peer.peer_id s
          (reader rounds fuel handler peer s).0
          (reader rounds fuel handler peer s).1
  unfolding reader
  reader-Read handler distinct =
      repeat_keeps (λ _ t. Kept peer.peer_id s t) (Read peer.peer_id s)
        (reader_round fuel handler peer) (λ _ t kept. round t kept) (λ _ t kept. kept) rounds tt s
        (record { distinct = distinct; others = λ j _. refl })
    where
      round :
          (t : Shared os PeerId)
          → Kept peer.peer_id s t
          → Reads peer.peer_id s (reader_round fuel handler peer tt t)
      round t kept =
          let r = Dispatch.receive fuel peer.endpoint t.world in
          after_receive-Reads peer.peer_id s handler r.0 _ (with_world peer.peer_id s t r.1 kept)

  write_message-Rounds :
      (bytes : List ℕ) (t : Shared os PeerId)
      → t.active.connections ≡ s.active.connections
      → Rounds peer.peer_id s (write_message fuel peer bytes t)
  unfolding write_message
  write_message-Rounds bytes t same = after_send-Rounds peer.peer_id s _ _ same

  after_select-Rounds :
      (r : Ready) (t : Shared os PeerId)
      → t.active.connections ≡ s.active.connections
      → Rounds peer.peer_id s (after_select fuel peer r t)
  unfolding after_select
  after_select-Rounds stopped t same = inl same
  after_select-Rounds (low none) t same = inl same
  after_select-Rounds (low (some bytes)) t same = write_message-Rounds bytes t same
  after_select-Rounds (high none) t same = inl same
  after_select-Rounds (high (some bytes)) t same = write_message-Rounds bytes t same

  after_try-Rounds :
      (peer_stop : ℕ) (r : TryRecv) (t : Shared os PeerId)
      → t.active.connections ≡ s.active.connections
      → Rounds peer.peer_id s (after_try fuel peer_stop peer r t)
  unfolding after_try
  after_try-Rounds peer_stop (received bytes) t same = write_message-Rounds bytes t same
  after_try-Rounds peer_stop is_empty t same = after_select-Rounds _ _ same
  after_try-Rounds peer_stop is_disconnected t same = inl same

  -- However long the writer runs, it leaves the connections as they were, or has taken out its own
  -- peer and nothing else; it returns without an error.
  pub writer-Writes :
      (peer_stop : ℕ)
      → Writes peer.peer_id s
          (writer rounds fuel peer_stop peer s).0
          (writer rounds fuel peer_stop peer s).1
  unfolding writer
  writer-Writes peer_stop =
      repeat_keeps (λ _ t. t.active.connections ≡ s.active.connections) (Writes peer.peer_id s)
        (writer_round fuel peer_stop peer) (λ _ t same. after_try-Rounds peer_stop _ _ same)
        (λ _ t same. inl same) rounds tt s refl
