-- ===== src/Loop.antt =====
-- A loop whose body goes on or stops, on fuel, and its invariant rules.
use peer_net.Base.{ℕ, zero, suc, ◌<◌, arith}
use peer_net.Act.{Outcome, Act, unfinished}

-- What one round of a loop decides.
pub data Step {ℓ κ} (A : Type ℓ) (B : Type κ) : Type (ℓ ⊔ κ) where
  stop : Outcome A → Step A B
  again : B → Step A B

module _ {S A B : Type 0} where
  abbrev pub follow : (B → S → Outcome A × S) → Step A B → S → Outcome A × S
  follow next (stop o) s = (o, s)
  follow next (again b) s = next b s

  unfoldable pub repeat : ℕ → (B → S → Step A B × S) → B → Act S A
  repeat zero body b s = (unfinished, s)
  repeat (suc fuel) body b s = follow (repeat fuel body) (body b s).0 (body b s).1

  -- What one round must establish, of an invariant `P` and a postcondition `Q`.
  abbrev pub Keeps : (B → S → Type 0) → (Outcome A → S → Type 0) → Step A B → S → Type 0
  Keeps P Q (stop o) s = Q o s
  Keeps P Q (again b) s = P b s

module _ {S A B : Type 0} (P : B → S → Type 0) (Q : Outcome A → S → Type 0) where
  follow-Keeps :
      (next : B → S → Outcome A × S)
      → ((b : B) (s : S) → P b s → Q (next b s).0 (next b s).1)
      → (r : Step A B) (s : S) → Keeps P Q r s
      → Q (follow next r s).0 (follow next r s).1
  follow-Keeps next rest (stop o) s h = h
  follow-Keeps next rest (again b) s h = rest b s h

module _ {S A B : Type 0} (P : B → S → Type 0) (Q : Outcome A → S → Type 0)
    (body : B → S → Step A B × S) where
  -- The rule for partial correctness: the fuel may run out.
  pub repeat_keeps :
      ((b : B) (s : S) → P b s → Keeps P Q (body b s).0 (body b s).1)
      → ((b : B) (s : S) → P b s → Q unfinished s)
      → (fuel : ℕ) (b : B) (s : S) → P b s
      → Q (repeat fuel body b s).0 (repeat fuel body b s).1
  unfolding repeat
  repeat_keeps keep out zero b s h = out b s h
  repeat_keeps keep out (suc fuel) b s h =
      follow-Keeps P Q (repeat fuel body) (repeat_keeps keep out fuel) (body b s).0 (body b s).1
        (keep b s h)

  -- The rule for total correctness: a measure that falls in each round, and more fuel than that.
  pub repeat_ends :
      (measure : B → S → ℕ)
      → ((b : B) (s : S)
          → P b s
          → Keeps (λ b' s'. P b' s' × (measure b' s' < measure b s)) Q (body b s).0 (body b s).1)
      → (fuel : ℕ) (b : B) (s : S) → measure b s < fuel
      → P b s
      → Q (repeat fuel body b s).0 (repeat fuel body b s).1
  unfolding repeat
  repeat_ends measure keep zero b s m h = absurd (omega arith)
  repeat_ends measure keep (suc fuel) b s m h =
      follow-Keeps (λ b' s'. P b' s' × (measure b' s' < measure b s)) Q (repeat fuel body)
        (λ b' s' k. repeat_ends measure keep fuel b' s' (omega (arith, k.1, m)) k.0) (body b s).0
        (body b s).1 (keep b s h)
