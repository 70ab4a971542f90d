-- ===== src/Act.antt =====
-- How a call ends, and actions on a state. A Rust call returns `Ok`, returns an error or panics; what
-- it changed before stays changed. `unfinished` says that the fuel of a loop of the model ran out.
use peer_net.Error.{PeerNetErrorData}

pub data Outcome {ℓ} (A : Type ℓ) : Type ℓ where
  ok : A → Outcome A
  err : PeerNetErrorData → Outcome A
  panicked : Outcome A
  unfinished : Outcome A

abbrev pub Act : Type 0 → Type 0 → Type 0
Act S A = S → Outcome A × S

module _ {S : Type 0} where
  abbrev pub pure : {A : Type 0} → A → Act S A
  pure a s = (ok a, s)

  abbrev pub fail : {A : Type 0} → PeerNetErrorData → Act S A
  fail e s = (err e, s)

  abbrev and_then : {A B : Type 0} → (A → Act S B) → Outcome A → S → Outcome B × S
  and_then f (ok a) s = f a s
  and_then f (err e) s = (err e, s)
  and_then f panicked s = (panicked, s)
  and_then f unfinished s = (unfinished, s)

  infixl 5 ◌>>=◌ ◌>>◌
  abbrev pub ◌>>=◌ : {A B : Type 0} → Act S A → (A → Act S B) → Act S B
  ◌>>=◌ m f s = and_then f (m s).0 (m s).1

  abbrev pub ◌>>◌ : {B : Type 0} → Act S (Unit {0}) → Act S B → Act S B
  ◌>>◌ m k s = and_then (λ _. k) (m s).0 (m s).1

  abbrev pub modify : (S → S) → Act S (Unit {0})
  modify f s = (ok tt, f s)

module _ {S A B : Type 0} (P : Outcome A → S → Type 0) (Q : Outcome B → S → Type 0) where
  -- What is to be shown of the rest of a call, after a first part that ended with `P`.
  abbrev pub Continues : (A → Act S B) → Outcome A → S → Type 0
  Continues f (ok a) s = P (ok a) s → Q (f a s).0 (f a s).1
  Continues f (err e) s = P (err e) s → Q (err e) s
  Continues f panicked s = P panicked s → Q panicked s
  Continues f unfinished s = P unfinished s → Q unfinished s

  bind_at :
      (f : A → Act S B) (o : Outcome A) (s : S)
      → P o s
      → Continues f o s
      → Q (and_then f o s).0 (and_then f o s).1
  bind_at f (ok a) s p k = k p
  bind_at f (err e) s p k = k p
  bind_at f panicked s p k = k p
  bind_at f unfinished s p k = k p

  -- The rule for a sequence of two actions.
  pub bind_rule :
      (m : Act S A) (f : A → Act S B) (s : S)
      → P (m s).0 (m s).1
      → ((o : Outcome A) (t : S) → Continues f o t)
      → Q ((m >>= f) s).0 ((m >>= f) s).1
  bind_rule m f s p k = bind_at f (m s).0 (m s).1 p (k (m s).0 (m s).1)

-- `match` on the result of a call: an error becomes a value, and a panic stays one.
abbrev pub taken : {A : Type 0} → Outcome A → Outcome (Outcome A)
taken (ok a) = ok (ok a)
taken (err e) = ok (err e)
taken panicked = panicked
taken unfinished = unfinished

abbrev pub attempt : {S A : Type 0} → Act S A → Act S (Outcome A)
attempt m s = (taken (m s).0, (m s).1)
