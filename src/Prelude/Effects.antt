-- ===== src/Prelude/Effects.antt =====
-- Go's errors, and code that changes a state and may return an error or panic.
use mathlib.Core.Path.{◌≡◌, refl, ap}
use mathlib.Core.List.{List}
use Prim.Native.String.{String}
use native.Mathlib.Omega.{arith}

-- An error, as far as the code tells errors apart. The texts are format strings with their
-- arguments, not yet printed.
pub data Error : Type 0 where
  -- `fmt.Errorf(format, args...)` or `errors.New(format)`
  errorf : String → List String → Error
  -- `fmt.Errorf(format + ": %w", args..., cause)`
  wrapf : String → List String → Error → Error
  -- `errors.Join(a, b)`
  joined : Error → Error → Error
  -- `providers.ResourceNotFoundError{id}`
  resource_not_found : String → Error
  -- an error of a library, known by the text that its `Error()` returns
  foreign : String → Error

-- What a call comes to: a value with a nil error, a non-nil error, or a panic.
pub data Outcome {ℓ} (A : Type ℓ) : Type ℓ where
  ok : A → Outcome A
  err : Error → Outcome A
  panic : Outcome A

-- What was changed before an error or a panic stays changed.
abbrev pub Exec {ℓ} : Type ℓ → Type ℓ → Type ℓ
Exec S A = S → Outcome A × S

module _ {ℓ} {S A : Type ℓ} where
  abbrev pub pure : A → Exec S A
  pure a s = (ok a, s)

  abbrev pub raise : Error → Exec S A
  raise e s = (err e, s)

  abbrev pub crash : Exec S A
  crash s = (panic, s)

  abbrev pub gets : (S → A) → Exec S A
  gets f s = (ok (f s), s)

abbrev pub modify : {S : Type 0} → (S → S) → Exec S (Unit {0})
modify f s = (ok tt, f s)

module _ {ℓ} {S A B : Type ℓ} where
  abbrev pub continue : Outcome A → (A → Exec S B) → Exec S B
  continue (ok a) f s = f a s
  continue (err e) f s = (err e, s)
  continue panic f s = (panic, s)

  infixl 10 ◌>>=◌ ◌>>◌
  abbrev pub ◌>>=◌ : Exec S A → (A → Exec S B) → Exec S B
  ◌>>=◌ m f s = let (r, s') = m s in continue r f s'

  abbrev pub ◌>>◌ : Exec S A → Exec S B → Exec S B
  m >> n = m >>= λ _. n

abbrev pub wrap_outcome {ℓ} : {A : Type ℓ} → String → List String → Outcome A → Outcome A
wrap_outcome f xs (ok a) = ok a
wrap_outcome f xs (err e) = err (wrapf f xs e)
wrap_outcome f xs panic = panic

module _ {ℓ} {S A : Type ℓ} where
  -- `if err != nil { return handle(err) }`
  abbrev pub handle : (Error → Exec S A) → Outcome A → Exec S A
  handle h (ok a) s = (ok a, s)
  handle h (err e) s = h e s
  handle h panic s = (panic, s)

  abbrev pub catch : Exec S A → (Error → Exec S A) → Exec S A
  catch m h s = let (r, s') = m s in handle h r s'

  -- `if err != nil { panic(err) }`
  abbrev pub or_panic : Exec S A → Exec S A
  or_panic m = catch m (λ e. crash)

  -- `return fmt.Errorf(f + ": %w", xs..., err)` on an error
  abbrev pub wrapping : String → List String → Exec S A → Exec S A
  wrapping f xs m s = let (r, s') = m s in (wrap_outcome f xs r, s')

-- to go on with a value changes no state
pub state-continue-pure {ℓ} :
    {S A B : Type ℓ} (r : Outcome A) (b : B) (s : S) → (continue r (λ _. pure b) s).1 ≡ s
state-continue-pure (ok a) b s = refl
state-continue-pure (err e) b s = refl
state-continue-pure panic b s = refl

-- a value of a bind comes of a value of its first part
pub >>=-eq-ok {ℓ} :
    {S A B : Type ℓ} (m : Exec S A) (f : A → Exec S B) (s : S) (b : B)
    → (continue (m s).0 f (m s).1).0 ≡ ok b
    → (a : A) × (t : S) × (m s ≡ (ok a, t)) × ((f a t).0 ≡ ok b)
>>=-eq-ok {S} {A} {B} m f s b h = go (m s) refl h
  where
    go :
        (r : Outcome A × S)
        → m s ≡ r
        → (continue r.0 f r.1).0 ≡ ok b
        → (a : A) × (t : S) × (m s ≡ (ok a, t)) × ((f a t).0 ≡ ok b)
    go (ok a, t) e h = (a, t, e, h)
    go (err d, t) e h = absurd (ground arith)
    go (panic, t) e h = absurd (ground arith)

-- a bind that ends in a value and a state comes of two parts that do
pub >>=-inv {ℓ} :
    {S A B : Type ℓ} (m : Exec S A) (f : A → Exec S B) (s t : S) (b : B)
    → (m >>= f) s ≡ (ok b, t)
    → (a : A) × (u : S) × (m s ≡ (ok a, u)) × (f a u ≡ (ok b, t))
>>=-inv {S} {A} {B} m f s t b h = go (m s) refl h
  where
    go :
        (r : Outcome A × S)
        → m s ≡ r
        → continue r.0 f r.1 ≡ (ok b, t)
        → (a : A) × (u : S) × (m s ≡ (ok a, u)) × (f a u ≡ (ok b, t))
    go (ok a, u) e h = (a, u, e, h)
    go (err d, u) e h = absurd (let k = ap (λ x. x.0) h in ground arith)
    go (panic, u) e h = absurd (let k = ap (λ x. x.0) h in ground arith)

-- a value of a call that panics on its errors
pub or_panic-eq-ok {ℓ} :
    {S A : Type ℓ} (m : Exec S A) (s t : S) (a : A) → or_panic m s ≡ (ok a, t) → m s ≡ (ok a, t)
or_panic-eq-ok {S} {A} m s t a h = go (m s) h
  where
    go : (r : Outcome A × S) → or_panic (λ _. r) s ≡ (ok a, t) → r ≡ (ok a, t)
    go (ok b, u) h = h
    go (err e, u) h = absurd (let k = ap (λ x. x.0) h in ground arith)
    go (panic, u) h = absurd (let k = ap (λ x. x.0) h in ground arith)

pub wrapping-eq-ok {ℓ} :
    {S A : Type ℓ} (f : String) (xs : List String) (m : Exec S A) (s : S) (a : A) (t : S)
    → wrapping f xs m s ≡ (ok a, t)
    → m s ≡ (ok a, t)
wrapping-eq-ok {S} {A} f xs m s a t h = go (m s) h
  where
    go :
        (r : Outcome A × S)
        → ◌≡◌ {A = Outcome A × S} (wrap_outcome f xs r.0, r.1) (ok a, t)
        → r ≡ (ok a, t)
    go (ok b, u) e = e
    go (err d, u) e = ground arith
    go (panic, u) e = ground arith
