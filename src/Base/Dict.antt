-- ===== src/Base/Dict.antt =====
-- A `HashMap` as a list of entries. The order of the entries is the order of iteration, which the
-- program cannot rely on.
use mathlib.Core.Path.{◌≡◌, refl}
use mathlib.Core.Logic.{◌⊎◌, inl, inr}
use mathlib.Core.Bool.{Bool, true, false}
use mathlib.Core.Option.{Option, none, some}
use mathlib.Core.List.{List, [], ◌∷◌}
use Prim.Native.Nat.{◌+◌, ◌≤◌}
use native.Mathlib.Omega.{arith}
use peer_net.Base.Tests.{Eq, ◌==◌, Bool-cases, test_refl, if◌then◌else◌}
use peer_net.Base.Lists.{contains, count_if, length}

abbrev pub Dict {ℓ κ} : Type ℓ → Type κ → Type (ℓ ⊔ κ)
Dict K V = List (K × V)

abbrev pub is_some {ℓ} : {A : Type ℓ} → Option A → Bool
is_some none = false
is_some (some _) = true

abbrev pub keys {ℓ κ} : {K : Type ℓ} {V : Type κ} → Dict K V → List K
keys [] = []
keys ((k, _) ∷ d) = k ∷ keys d

abbrev pub values {ℓ κ} : {K : Type ℓ} {V : Type κ} → Dict K V → List V
values [] = []
values ((_, v) ∷ d) = v ∷ values d

module _ {ℓ κ} {K : Type ℓ} {V : Type κ} ⦃e : Eq K⦄ where
  unfoldable pub lookup : K → Dict K V → Option V
  lookup k [] = none
  lookup k ((j, v) ∷ d) = if k == j then some v else lookup k d

  unfoldable pub contains_key : K → Dict K V → Bool
  unfolding lookup
  contains_key k d = is_some (lookup k d)

  unfoldable pub insert : K → V → Dict K V → Dict K V
  insert k v [] = (k, v) ∷ []
  insert k v ((j, w) ∷ d) = if k == j then (k, v) ∷ d else (j, w) ∷ insert k v d

  unfoldable pub remove : K → Dict K V → Dict K V
  remove k [] = []
  remove k ((j, w) ∷ d) = if k == j then d else (j, w) ∷ remove k d

  -- Each key stands once.
  abbrev pub NodupKeys : Dict K V → Type κ
  NodupKeys [] = Unit
  NodupKeys ((k, _) ∷ d) = (lookup k d ≡ none) × NodupKeys d

  pub lookup-insert :
      (j k : K) (v : V) (d : Dict K V)
      → lookup j (insert k v d) ≡ (if j == k then some v else lookup j d)
  unfolding insert lookup
  lookup-insert j k v [] = ground arith
  lookup-insert j k v (_ ∷ d) = ground (arith, lookup-insert j k v d)

  pub lookup-remove :
      (j k : K) (d : Dict K V)
      → NodupKeys d
      → lookup j (remove k d) ≡ (if j == k then none else lookup j d)
  unfolding remove lookup
  lookup-remove j k [] u = ground arith
  lookup-remove j k (_ ∷ d) u = ground (arith, lookup-remove j k d u.1)

  pub insert-NodupKeys : (k : K) (v : V) (d : Dict K V) → NodupKeys d → NodupKeys (insert k v d)
  unfolding insert lookup
  insert-NodupKeys k v [] u = (refl, tt)
  insert-NodupKeys k v ((j, _) ∷ d) u =
      ground (arith, insert-NodupKeys k v d u.1, lookup-insert j k v d)

  pub remove-NodupKeys : (k : K) (d : Dict K V) → NodupKeys d → NodupKeys (remove k d)
  unfolding remove
  remove-NodupKeys k [] u = tt
  remove-NodupKeys k ((j, _) ∷ d) u =
      ground (arith, remove-NodupKeys k d u.1, lookup-remove j k d u.1)

  -- A test counted over the values, after a key that was absent is inserted.
  pub count_if-insert :
      (p : V → Bool) (k : K) (v : V) (d : Dict K V)
      → lookup k d ≡ none
      → count_if p (values (insert k v d)) ≡ (if p v then 1 else 0) + count_if p (values d)
  unfolding insert lookup
  count_if-insert p k v [] h = refl
  count_if-insert p k v ((j, w) ∷ d) h = ground (arith, count_if-insert p k v d)

  pub count_if-remove-le :
      (p : V → Bool) (k : K) (d : Dict K V)
      → count_if p (values (remove k d)) ≤ count_if p (values d)
  unfolding remove
  count_if-remove-le p k [] = omega arith
  count_if-remove-le p k ((j, w) ∷ d) = ground (arith, count_if-remove-le p k d)

  pub remove_absent : (k : K) (d : Dict K V) → lookup k d ≡ none → remove k d ≡ d
  unfolding lookup remove
  remove_absent k [] h = refl
  remove_absent k ((j, w) ∷ d) h = ground (arith, remove_absent k d)

  pub lookup-keys : (k : K) (d : Dict K V) → (lookup k d ≡ none) ⊎ (contains (keys d) k ≡ true)
  unfolding lookup
  lookup-keys k [] = inl refl
  lookup-keys k ((j, _) ∷ d) = elim (Bool-cases (k == j)) [
    | inl here ↦ rw here (inr refl)
    | inr other ↦ rw other (lookup-keys k d)
  ]

  pub length-insert :
      (k : K) (v : V) (d : Dict K V) → lookup k d ≡ none → length (insert k v d) ≡ length d + 1
  unfolding lookup insert
  length-insert k v [] h = omega arith
  length-insert k v ((j, w) ∷ d) h = ground (arith, length-insert k v d)

  pub lookup-insert_self : (k : K) (v : V) (d : Dict K V) → lookup k (insert k v d) ≡ some v
  lookup-insert_self k v d = rw (lookup-insert k k v d, test_refl k) refl
