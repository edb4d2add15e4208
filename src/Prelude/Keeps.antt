-- ===== src/Prelude/Keeps.antt =====
-- What an action keeps, whatever it comes to: one lemma for each way to build actions.
use ofcir.Prelude.Effects.{
  Error, Outcome, ok, err, panic, Exec, continue, ◌>>=◌ as ◌after◌, pure, raise, handle, catch,
}
use mathlib.Core.Path.{◌≡◌, refl}
use mathlib.Core.Bool.{Bool, true, false}
use ofcir.Prelude.Tests.{if◌then◌else◌}

module _ {W : Type 0} (Inv : W → Type 0) where
  abbrev pub Keeps : {A : Type 0} → Exec W A → Type 0
  Keeps m = (w : W) → Inv w → Inv (m w).1

  continue-Keeps :
      {A B : Type 0} (r : Outcome A) (f : A → Exec W B)
      → ((a : A) → Keeps (f a))
      → (w : W) → Inv w
      → Inv (continue r f w).1
  continue-Keeps (ok a) f k w h = k a w h
  continue-Keeps (err e) f k w h = h
  continue-Keeps panic f k w h = h

  pub bind-Keeps :
      {A B : Type 0} (m : Exec W A) (f : A → Exec W B)
      → Keeps m
      → ((a : A) → Keeps (f a))
      → Keeps (m after f)
  bind-Keeps m f h k w i = continue-Keeps (m w).0 f k (m w).1 (h w i)

  -- at one state, with what the first part comes to there
  pub bind-Keeps_at :
      {A B : Type 0} (m : Exec W A) (f : A → Exec W B) (w : W)
      → Inv (m w).1
      → ((a : A) → (m w).0 ≡ ok a → Inv (f a (m w).1).1)
      → Inv ((m after f) w).1
  bind-Keeps_at {A} {B} m f w h k = go (m w).0 k
    where
      go :
          (r : Outcome A)
          → ((a : A) → r ≡ ok a → Inv (f a (m w).1).1)
          → Inv (continue r f (m w).1).1
      go (ok a) k = k a refl
      go (err e) k = h
      go panic k = h

  handle-Keeps :
      {A : Type 0} (r : Outcome A) (f : Error → Exec W A)
      → ((e : Error) → Keeps (f e))
      → (w : W) → Inv w
      → Inv (handle f r w).1
  handle-Keeps (ok a) f k w h = h
  handle-Keeps (err e) f k w h = k e w h
  handle-Keeps panic f k w h = h

  pub catch-Keeps :
      {A : Type 0} (m : Exec W A) (f : Error → Exec W A)
      → Keeps m
      → ((e : Error) → Keeps (f e))
      → Keeps (catch m f)
  catch-Keeps m f h k w i = handle-Keeps (m w).0 f k (m w).1 (h w i)

-- An action with what it keeps. A proof that mirrors the code carries the code along, so that no
-- step has to be named twice.
pub record Kept {W : Type 0} (Inv : W → Type 0) (A : Type 0) : Type 0 where
  pub action : Exec W A
  pub keeps : Keeps Inv action

module _ {W : Type 0} {Inv : W → Type 0} where
  abbrev pub step : {A : Type 0} (m : Exec W A) → Keeps Inv m → Kept Inv A
  step m h = record { action = m; keeps = h }

  -- For `do` blocks, so that a proof reads like the code.
  infixl 10 ◌>>=◌ ◌>>◌
  abbrev pub ◌>>=◌ : {A B : Type 0} → Kept Inv A → (A → Kept Inv B) → Kept Inv B
  m >>= f = record {
    action = m.action after (λ a. (f a).action);
    keeps = bind-Keeps Inv m.action (λ a. (f a).action) m.keeps (λ a. (f a).keeps);
  }

  abbrev pub ◌>>◌ : {A B : Type 0} → Kept Inv A → Kept Inv B → Kept Inv B
  m >> n = m >>= (λ _. n)

  abbrev pub idle : {A : Type 0} → A → Kept Inv A
  idle a = step (pure a) (λ w h. h)

  abbrev pub failed : {A : Type 0} → Error → Kept Inv A
  failed e = step (raise e) (λ w h. h)

  abbrev pub attempt : {A : Type 0} → Kept Inv A → (Error → Kept Inv A) → Kept Inv A
  attempt m f = record {
    action = catch m.action (λ e. (f e).action);
    keeps = catch-Keeps Inv m.action (λ e. (f e).action) m.keeps (λ e. (f e).keeps);
  }

  pub if-Keeps :
      {A : Type 0} (b : Bool) (m n : Exec W A)
      → Keeps Inv m
      → Keeps Inv n
      → Keeps Inv (if b then m else n)
  if-Keeps true m n h k = h
  if-Keeps false m n h k = k

  abbrev pub branch : {A : Type 0} → Bool → Kept Inv A → Kept Inv A → Kept Inv A
  branch b m n = record {
    action = if b then m.action else n.action;
    keeps = if-Keeps b m.action n.action m.keeps n.keeps;
  }
