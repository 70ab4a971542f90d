-- ===== src/Tcp/Listener/System/Pending.antt =====
-- The threads that a TCP listener has made and that have not left the queue yet, by their addresses.
use mathlib.Core.Bool.{false≢true}
use peer_net.Base.{
  sym, ◌∙◌, test_eq, test_refl, ◌||◌, ◌≡◌, refl, ap, inl, inr, true, false, List, [], ◌∷◌, ◌==◌,
  contains, set_remove, Bool-cases, arith, contains-set_remove, if◌then◌else◌,
}
use peer_net.Address.{SocketAddr, addr_eq}
use peer_net.PeerConnection.{connection_type_eq}
use peer_net.Tcp.Listener.System.{Phase, idle, checked, starting, turned_away, ended, remove_one}

-- No thread is pending at the address that the listener deals with, which is on the queue while the
-- thread is to be made.
abbrev pub IsApart : Phase → List SocketAddr → List SocketAddr → Type 0
IsApart idle pending queue = Unit
IsApart (checked address) pending queue = contains pending address ≡ false
IsApart (starting address) pending queue =
    (contains pending address ≡ false) × (contains queue address ≡ true)
IsApart (turned_away address) pending queue = contains pending address ≡ false
IsApart ended pending queue = Unit

-- No address stands twice.
abbrev pub Distinct : List SocketAddr → Type 0
Distinct [] = Unit
Distinct (a ∷ xs) = (contains xs a ≡ false) × Distinct xs

pub contains-remove_one :
    (a b : SocketAddr) (xs : List SocketAddr)
    → Distinct xs
    → contains (remove_one a xs) b ≡ (if b == a then false else contains xs b)
unfolding remove_one
contains-remove_one a b [] distinct = ground arith
contains-remove_one a b (x ∷ xs) (apart, distinct) =
    let rest = contains-remove_one a b xs distinct in
    elim (Bool-cases (x == a)) [
      | inl here ↦
          let same = test_eq x a here in
          let gone = ap (contains xs) (sym same) ∙ apart in
          rw here (elim (Bool-cases (b == a)) [
            | inl hit ↦ rw hit (ap (contains xs) (test_eq b a hit) ∙ gone)
            | inr miss ↦ rw (miss, ap (λ z. b == z) same ∙ miss) refl
          ])
      | inr other ↦ rw other (elim (Bool-cases (b == a)) [
        | inl hit ↦ elim (Bool-cases (b == x)) [
          | inl twice ↦
              let same = sym (test_eq b x twice) ∙ test_eq b a hit in
              absurd (false≢true (sym other ∙ ap (λ z. z == a) same ∙ test_refl a))
          | inr apart' ↦ rw (hit, apart') (rw hit at rest)
        ]
        | inr miss ↦ rw miss (ap (λ t. b == x || t) (rw miss at rest))
      ])
    ]

pub Distinct-remove_one :
    (a : SocketAddr) (xs : List SocketAddr) → Distinct xs → Distinct (remove_one a xs)
unfolding remove_one
Distinct-remove_one a [] distinct = tt
Distinct-remove_one a (x ∷ xs) (apart, distinct) = elim (Bool-cases (x == a)) [
  | inl here ↦ rw here distinct
  | inr other ↦ rw other (
    contains-remove_one a x xs distinct ∙ rw (other, apart) refl,
    Distinct-remove_one a xs distinct,
  )
]

pub leave-IsApart :
    (a : SocketAddr) (phase : Phase) (pending queue : List SocketAddr)
    → Distinct pending
    → contains pending a ≡ true
    → IsApart phase pending queue
    → IsApart phase (remove_one a pending) (set_remove a queue)
leave-IsApart a idle pending queue distinct here apart = tt
leave-IsApart a (checked b) pending queue distinct here apart =
    ground (arith, contains-remove_one a b pending distinct, apart)
leave-IsApart a (starting b) pending queue distinct here (apart, there) =
    elim (Bool-cases (b == a)) [
      | inl same ↦ absurd (false≢true (sym apart ∙ ap (contains pending) (test_eq b a same) ∙ here))
      | inr other ↦ (
        contains-remove_one a b pending distinct ∙ rw (other, apart) refl,
        contains-set_remove a b queue ∙ rw (other, there) refl,
      )
    ]
leave-IsApart a (turned_away b) pending queue distinct here apart =
    ground (arith, contains-remove_one a b pending distinct, apart)
leave-IsApart a ended pending queue distinct here apart = tt
