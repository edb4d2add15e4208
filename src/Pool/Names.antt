-- ===== src/Pool/Names.antt =====
-- controllers/cipool_controller.go: the names of new resources.
use ofcir.Prelude.{
  ℕ, ◌+◌, ◌^◌, ◌<◌, ◌≤◌, ℤ, pos, negsuc, ltb, ltb_ℤ, ◌+ℤ◌, ◌<ℤ◌, ◌≤ℤ◌, lt_of_ltb_ℤ, le_of_ltb_ℤ,
  +ℤ-one, ◌≡◌, ◌≢◌, refl, sym, ap, ◌∙◌, inl, inr, Option, none, some, List, [], ◌∷◌, All,
  Bool-cases, arith,
}
use ofcir.Prelude.Texts.Numerals.{atoi-format_04d, after_last-format_04d}
use ofcir.Api.{CiResource}
use ofcir.Pool.{numeral, larger, highest_from, get_highest_resource_numeral, cir_name}

-- The number of a resource is read back from the name that `createCIResource` gives it, for every
-- number from 0 up to the largest int.
pub numeral-cir_name : (n : ℕ) → n < 2 ^ 63 → numeral (cir_name (pos n)) ≡ some (pos n)
unfolding numeral cir_name
numeral-cir_name n h = rw (after_last-format_04d n) (atoi-format_04d n h)

larger-ge : (o : Option ℤ) (h : ℤ) → h ≤ℤ larger o h
larger-ge none h = omega arith
larger-ge (some k) h = elim (Bool-cases (ltb_ℤ h k)) [
  | inl e ↦ rw e (omega (arith, lt_of_ltb_ℤ h k e))
  | inr e ↦ rw e (omega arith)
]

larger-ge_num : (k h : ℤ) → k ≤ℤ larger (some k) h
larger-ge_num k h = elim (Bool-cases (ltb_ℤ h k)) [
  | inl e ↦ rw e (omega arith)
  | inr e ↦ rw e (le_of_ltb_ℤ h k e)
]

highest_from-ge : (h : ℤ) (cs : List CiResource) → h ≤ℤ highest_from h cs
unfolding highest_from
highest_from-ge h [] = omega arith
highest_from-ge h (c ∷ cs) =
    let o = numeral c.meta.name in omega (arith, larger-ge o h, highest_from-ge (larger o h) cs)

-- the resource's number, if it has one, is at most `top`
abbrev pub AtMost : ℤ → CiResource → Type 0
AtMost top c = (k : ℤ) → numeral c.meta.name ≡ some k → k ≤ℤ top

highest_from-AtMost : (h : ℤ) (cs : List CiResource) → All (AtMost (highest_from h cs)) cs
unfolding highest_from
highest_from-AtMost h [] = tt
highest_from-AtMost h (c ∷ cs) = (
  λ k e. rw e (omega (arith, larger-ge_num k h, highest_from-ge (larger (some k) h) cs)),
  highest_from-AtMost (larger (numeral c.meta.name) h) cs,
)

All-AtMost-fresh :
    (n : ℕ) (top : ℤ) (cs : List CiResource)
    → top <ℤ pos n
    → n < 2 ^ 63
    → All (AtMost top) cs
    → All (λ c. c.meta.name ≢ cir_name (pos n)) cs
All-AtMost-fresh n top [] h b a = tt
All-AtMost-fresh n top (c ∷ cs) h b a = (
  λ e. let k = a.0 (pos n) (ap numeral e ∙ numeral-cir_name n b) in absurd (omega arith),
  All-AtMost-fresh n top cs h b a.1,
)

-- a number above the highest one gives a new name
pub above-fresh :
    (cirs : List CiResource) (h k : ℕ)
    → get_highest_resource_numeral cirs ≡ pos h
    → h < k
    → k < 2 ^ 63
    → All (λ c. c.meta.name ≢ cir_name (pos k)) cirs
unfolding get_highest_resource_numeral
above-fresh cirs h k e l b =
    All-AtMost-fresh k (highest_from (pos 0) cirs) cirs (rw e (omega arith)) b
      (highest_from-AtMost (pos 0) cirs)

-- Where the highest number among the names is `h`, the number that the loop starts from is
-- `h + 1`, and the name that is given to each number from there up, below 2^63, is the name of no
-- resource of the list, whether or not the names of the list are well formed.
pub new_names_fresh :
    (cirs : List CiResource) (h k : ℕ)
    → get_highest_resource_numeral cirs ≡ pos h
    → h + 1 + k < 2 ^ 63
    → (get_highest_resource_numeral cirs +ℤ pos 1 ≡ pos (h + 1))
      × All (λ c. c.meta.name ≢ cir_name (pos (h + 1 + k))) cirs
new_names_fresh cirs h k e b =
    (rw e (+ℤ-one h (omega arith)), above-fresh cirs h (h + 1 + k) e (omega arith) b)

-- the larger one is a natural number, at most a bound of both
larger-le :
    (o : Option ℤ) (n top : ℕ)
    → n ≤ top
    → ((k : ℤ) → o ≡ some k → k ≤ℤ pos top)
    → (m : ℕ) × (larger o (pos n) ≡ pos m) × (m ≤ top)
unfolding ltb_ℤ
larger-le none n top l f = (n, refl, l)
larger-le (some (pos m)) n top l f = elim (Bool-cases (ltb n m)) [
  | inl t ↦ (m, ground arith, omega (arith, f (pos m) refl))
  | inr t ↦ (n, ground arith, l)
]
larger-le (some (negsuc m)) n top l f = (n, ground arith, l)

-- the highest number is a natural one, at most a bound of all
pub highest_from-le :
    (n top : ℕ) (cs : List CiResource)
    → n ≤ top
    → All (AtMost (pos top)) cs
    → (h : ℕ) × (highest_from (pos n) cs ≡ pos h) × (h ≤ top)
unfolding highest_from
highest_from-le n top [] l a = (n, refl, l)
highest_from-le n top (c ∷ cs) l a =
    let (m, e, k) = larger-le (numeral c.meta.name) n top l a.0 in
    rw e (highest_from-le m top cs k a.1)

pub cir_name_differs : (i k : ℕ) → i < k → k < 2 ^ 63 → cir_name (pos i) ≢ cir_name (pos k)
cir_name_differs i k l b e =
    let same_number =
      sym (numeral-cir_name i (omega arith)) ∙ ap numeral e ∙ numeral-cir_name k b in
    absurd (ground arith)
