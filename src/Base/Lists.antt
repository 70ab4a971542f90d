-- ===== src/Base/Lists.antt =====
-- Lists measured by native numbers, tests counted over them, and sets as lists.
use Prim.Native.Nat.{ℕ, zero, suc, ◌+◌, ◌-◌, ◌≤◌, ◌<◌, min}
use native.Mathlib.Nat.{zero-add, add-zero, suc-add}
use mathlib.Core.Path.{◌≡◌, refl, ap}
use mathlib.Core.Bool.{Bool, true, false, not, ◌||◌}
use mathlib.Core.List.{List, [], ◌∷◌, ◌++◌}
use native.Mathlib.Omega.{arith}
use peer_net.Base.Tests.{Eq, ◌==◌, if◌then◌else◌}

module _ {ℓ} {A : Type ℓ} where
  abbrev pub length : List A → ℕ
  length [] = 0
  length (x ∷ xs) = suc (length xs)

  abbrev pub take : ℕ → List A → List A
  take zero xs = []
  take (suc n) [] = []
  take (suc n) (x ∷ xs) = x ∷ take n xs

  abbrev pub drop : ℕ → List A → List A
  drop zero xs = xs
  drop (suc n) [] = []
  drop (suc n) (x ∷ xs) = drop n xs

  pub length-append : (xs ys : List A) → length (xs ++ ys) ≡ length xs + length ys
  length-append [] ys = omega arith
  length-append (x ∷ xs) ys = omega (arith, length-append xs ys)

  pub length-take : (n : ℕ) (xs : List A) → length (take n xs) ≡ min n (length xs)
  length-take zero xs = omega arith
  length-take (suc n) [] = omega arith
  length-take (suc n) (x ∷ xs) = omega (arith, length-take n xs)

  pub take-append-drop : (n : ℕ) (xs : List A) → take n xs ++ drop n xs ≡ xs
  take-append-drop zero xs = refl
  take-append-drop (suc n) [] = refl
  take-append-drop (suc n) (x ∷ xs) = rw (take-append-drop n xs)

  -- How many elements pass a test: `iter().filter(p).count()`.
  abbrev pub count_if : (A → Bool) → List A → ℕ
  count_if p [] = 0
  count_if p (x ∷ xs) = (if p x then 1 else 0) + count_if p xs

  -- `retain`: the elements that pass the test.
  abbrev pub retain : (A → Bool) → List A → List A
  retain p [] = []
  retain p (x ∷ xs) = let rest = retain p xs in if p x then x ∷ rest else rest

-- A `HashSet` as a list without repetitions.
module _ {ℓ} {A : Type ℓ} ⦃e : Eq A⦄ where
  abbrev pub contains : List A → A → Bool
  contains [] a = false
  contains (x ∷ xs) a = a == x || contains xs a

  unfoldable pub set_insert : A → List A → List A
  set_insert a xs = if contains xs a then xs else a ∷ xs

  -- `remove`, and `retain(|b| b != a)`.
  unfoldable pub set_remove : A → List A → List A
  set_remove a xs = retain (λ b. not (b == a)) xs

module _ {ℓ} {A : Type ℓ} where
  pub length-drop : (n : ℕ) (xs : List A) → length (drop n xs) ≡ length xs - n
  length-drop zero xs = omega arith
  length-drop (suc n) [] = omega arith
  length-drop (suc n) (x ∷ xs) = omega (arith, length-drop n xs)

  pub take-add : (m n : ℕ) (xs : List A) → take (m + n) xs ≡ take m xs ++ take n (drop m xs)
  take-add zero n xs = rw zero-add
  take-add (suc m) zero [] = rw add-zero
  take-add (suc m) (suc n) [] = rw suc-add
  take-add (suc m) n (x ∷ xs) = rw suc-add (ap (λ r. x ∷ r) (take-add m n xs))

  pub take-length : (n : ℕ) (xs : List A) → length xs ≤ n → take n xs ≡ xs
  take-length zero [] h = refl
  take-length zero (x ∷ xs) h = absurd (omega arith)
  take-length (suc n) [] h = refl
  take-length (suc n) (x ∷ xs) h = ap (λ r. x ∷ r) (take-length n xs (omega arith))

  pub take-append : (xs ys : List A) → take (length xs) (xs ++ ys) ≡ xs
  take-append [] ys = refl
  take-append (x ∷ xs) ys = ap (λ r. x ∷ r) (take-append xs ys)

  -- Two splits of a list at the same place agree.
  pub append-split :
      (xs ys us vs : List A) → length xs ≡ length ys → xs ++ us ≡ ys ++ vs → (xs ≡ ys) × (us ≡ vs)
  append-split [] [] us vs n e = (refl, e)
  append-split [] (y ∷ ys) us vs n e = absurd (omega arith)
  append-split (x ∷ xs) [] us vs n e = absurd (omega arith)
  append-split (x ∷ xs) (y ∷ ys) us vs n e =
      let (p, q) = append-split xs ys us vs (omega arith) (cc e) in (cc (cons_head e, p), q)
    where
      cons_head : x ∷ (xs ++ us) ≡ y ∷ (ys ++ vs) → x ≡ y
      cons_head h = cc h

module _ {ℓ} {A : Type ℓ} ⦃e : Eq A⦄ where
  pub contains-set_remove :
      (a b : A) (xs : List A)
      → contains (set_remove a xs) b ≡ (if b == a then false else contains xs b)
  unfolding set_remove
  contains-set_remove a b [] = ground arith
  contains-set_remove a b (x ∷ xs) = ground (arith, contains-set_remove a b xs)

  pub length-set_insert-le : (a : A) (xs : List A) → length (set_insert a xs) ≤ length xs + 1
  unfolding set_insert
  length-set_insert-le a xs = ground arith

  pub contains-set_insert :
      (a b : A) (xs : List A)
      → contains (set_insert a xs) b ≡ (if b == a then true else contains xs b)
  unfolding set_insert
  contains-set_insert a b xs = ground arith

  pub length-set_remove-le : (a : A) (xs : List A) → length (set_remove a xs) ≤ length xs
  unfolding set_remove
  length-set_remove-le a [] = omega arith
  length-set_remove-le a (x ∷ xs) = ground (arith, length-set_remove-le a xs)

  pub length-set_remove-lt :
      (a : A) (xs : List A) → contains xs a ≡ true → length (set_remove a xs) < length xs
  unfolding set_remove
  length-set_remove-lt a [] h = cc
  length-set_remove-lt a (x ∷ xs) h =
      ground (arith, length-set_remove-lt a xs, length-set_remove-le a xs)
