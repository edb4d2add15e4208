-- ===== src/Prelude/Growth.antt =====
-- A list that gets new elements, wherever they are put.
use mathlib.Core.Path.{◌≡◌, refl}
use mathlib.Core.Bool.{Bool, true}
use mathlib.Core.List.{List, ◌∷◌}
use Prim.Native.Nat.{ℕ, zero, suc, ◌+◌}
use native.Mathlib.Omega.{arith}
use ofcir.Prelude.Lists.{length, All, keep}

module _ {A : Type 0} (Q : A → Type 0) where
  -- one element more, with the property `Q`
  pub data Grown : List A → List A → Type 0 where
    here : {x : A} {xs : List A} → Q x → Grown xs (x ∷ xs)
    there : {x : A} {xs ys : List A} → Grown xs ys → Grown (x ∷ xs) (x ∷ ys)

  -- that many elements more
  pub data GrownBy : ℕ → List A → List A → Type 0 where
    same : {xs : List A} → GrownBy zero xs xs
    more : {n : ℕ} {xs ys zs : List A} → Grown xs ys → GrownBy n ys zs → GrownBy (suc n) xs zs

  pub All-Grown :
      (P : A → Type 0)
      → ((x : A) → Q x → P x)
      → {xs ys : List A} → All P xs
      → Grown xs ys
      → All P ys
  All-Grown P f a (here {x} q) = (f x q, a)
  All-Grown P f a (there g) = (a.0, All-Grown P f a.1 g)

  module _ (p : A → Bool) (passes : (x : A) → Q x → p x ≡ true) where
    length-keep-Grown :
        {xs ys : List A} → Grown xs ys → length (keep p ys) ≡ suc (length (keep p xs))
    length-keep-Grown (here {x} q) = rw (passes x q) refl
    length-keep-Grown (there {x} {xs} {ys} g) = ground (arith, length-keep-Grown g)

    pub length-keep-GrownBy :
        {n : ℕ} {xs ys : List A} → GrownBy n xs ys → length (keep p ys) ≡ n + length (keep p xs)
    length-keep-GrownBy same = omega arith
    length-keep-GrownBy (more g h) = omega (arith, length-keep-Grown g, length-keep-GrownBy h)

pub Grown-map :
    {A : Type 0} {Q R : A → Type 0}
    → ((x : A) → Q x → R x)
    → {xs ys : List A} → Grown Q xs ys
    → Grown R xs ys
Grown-map f (here {x} q) = here (f x q)
Grown-map f (there g) = there (Grown-map f g)
