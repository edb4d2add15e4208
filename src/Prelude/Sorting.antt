-- ===== src/Prelude/Sorting.antt =====
-- `sort.SliceStable`: the stable sort of a list by a strict order, as insertion.
use mathlib.Core.Path.{◌≡◌, refl}
use mathlib.Core.Bool.{Bool}
use mathlib.Core.List.{List, [], ◌∷◌}
use mathlib.Core.Logic.{inl, inr}
use Prim.Native.Nat.{suc}
use native.Mathlib.Omega.{arith}
use ofcir.Prelude.Tests.{if◌then◌else◌, Bool-cases}
use ofcir.Prelude.Lists.{length, All, keep}
use ofcir.Prelude.Int.{ℤ, ltb_ℤ, ◌≤ℤ◌, lt_of_ltb_ℤ, le_of_ltb_ℤ}

module _ {ℓ} {A : Type ℓ} (lt : A → A → Bool) where
  -- in front of the first element that is not less than `x`
  unfoldable pub insert : A → List A → List A
  insert x [] = x ∷ []
  insert x (y ∷ ys) = if lt y x then y ∷ insert x ys else x ∷ y ∷ ys

  unfoldable pub sort_stable : List A → List A
  unfolding insert
  sort_stable [] = []
  sort_stable (x ∷ xs) = insert x (sort_stable xs)

  length-insert : (x : A) (ys : List A) → length (insert x ys) ≡ suc (length ys)
  unfolding insert
  length-insert x [] = refl
  length-insert x (y ∷ ys) = ground (arith, length-insert x ys)

  pub length-sort_stable : (xs : List A) → length (sort_stable xs) ≡ length xs
  unfolding sort_stable
  length-sort_stable [] = refl
  length-sort_stable (x ∷ xs) =
      omega (arith, length-insert x (sort_stable xs), length-sort_stable xs)

  module _ (p : A → Bool) where
    length-keep-insert :
        (x : A) (ys : List A) → length (keep p (insert x ys)) ≡ length (keep p (x ∷ ys))
    unfolding insert
    length-keep-insert x [] = refl
    length-keep-insert x (y ∷ ys) = ground (arith, length-keep-insert x ys)

    -- sorting keeps the number of the elements that pass a test
    pub length-keep-sort_stable :
        (xs : List A) → length (keep p (sort_stable xs)) ≡ length (keep p xs)
    unfolding sort_stable
    length-keep-sort_stable [] = refl
    length-keep-sort_stable (x ∷ xs) =
        ground (arith, length-keep-insert x (sort_stable xs), length-keep-sort_stable xs)

  module _ {κ} (P : A → Type κ) where
    All-insert : (x : A) (ys : List A) → P x → All P ys → All P (insert x ys)
    unfolding insert
    All-insert x [] p h = (p, tt)
    All-insert x (y ∷ ys) p h = elim (Bool-cases (lt y x)) [
      | inl e ↦ rw e (h.0, All-insert x ys p h.1)
      | inr e ↦ rw e (p, h)
    ]

    -- what holds of every element of a list holds of every element of the sorted list
    pub All-sort_stable : (xs : List A) → All P xs → All P (sort_stable xs)
    unfolding sort_stable
    All-sort_stable [] h = tt
    All-sort_stable (x ∷ xs) h = All-insert x (sort_stable xs) h.0 (All-sort_stable xs h.1)

    All-of_inserted : (x : A) (ys : List A) → All P (insert x ys) → P x × All P ys
    unfolding insert
    All-of_inserted x [] h = (h.0, tt)
    All-of_inserted x (y ∷ ys) h = elim (Bool-cases (lt y x)) [
      | inl e ↦
          let k : P y × All P (insert x ys) = rw e at h in
          let (p, a) = All-of_inserted x ys k.1 in (p, (k.0, a))
      | inr e ↦ rw e at h
    ]

    -- and the other way round
    pub All-of_sorted : (xs : List A) → All P (sort_stable xs) → All P xs
    unfolding sort_stable
    All-of_sorted [] h = tt
    All-of_sorted (x ∷ xs) h =
        let (p, a) = All-of_inserted x (sort_stable xs) h in (p, All-of_sorted xs a)

-- Sorted by a key: each element's key is at most the keys behind it.
module _ {ℓ} {A : Type ℓ} (key : A → ℤ) where
  abbrev pub by_key : A → A → Bool
  by_key a b = ltb_ℤ (key a) (key b)

  abbrev pub IsSorted : List A → Type 0
  IsSorted [] = Unit
  IsSorted (x ∷ xs) = All (λ y. key x ≤ℤ key y) xs × IsSorted xs

  AtLeast-weaken :
      (x y : A) (zs : List A)
      → key x ≤ℤ key y
      → All (λ z. key y ≤ℤ key z) zs
      → All (λ z. key x ≤ℤ key z) zs
  AtLeast-weaken x y [] h a = tt
  AtLeast-weaken x y (z ∷ zs) h a = (omega (arith, a.0), AtLeast-weaken x y zs h a.1)

  insert-IsSorted : (x : A) (ys : List A) → IsSorted ys → IsSorted (insert by_key x ys)
  unfolding insert
  insert-IsSorted x [] s = (tt, tt)
  insert-IsSorted x (y ∷ ys) s = elim (Bool-cases (ltb_ℤ (key y) (key x))) [
    | inl e ↦
        let h = lt_of_ltb_ℤ (key y) (key x) e in
        rw e (
          All-insert by_key (λ z. key y ≤ℤ key z) x ys (omega (arith, h)) s.0,
          insert-IsSorted x ys s.1,
        )
    | inr e ↦ let h = le_of_ltb_ℤ (key y) (key x) e in rw e ((h, AtLeast-weaken x y ys h s.0), s)
  ]

  -- the stable sort by a key is sorted
  pub sort_stable-IsSorted : (xs : List A) → IsSorted (sort_stable by_key xs)
  unfolding sort_stable
  sort_stable-IsSorted [] = tt
  sort_stable-IsSorted (x ∷ xs) =
      insert-IsSorted x (sort_stable by_key xs) (sort_stable-IsSorted xs)
