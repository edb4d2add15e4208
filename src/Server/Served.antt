-- ===== src/Server/Served.antt =====
-- pkg/server/commands/acquire.go: where the answer of the two searches comes from.
use ofcir.Prelude.{
  String, str_eq, eq_iff, ◌≡◌, refl, sym, ap, ◌∙◌, inl, inr, true, ◌&&◌, Option, none, some,
  Outcome, ok, err, panic, List, [], ◌∷◌, All, All-map, All-of_Memᴰ, Memᴰ-All, All-keep_test,
  if◌then◌else◌, continue, Bool-cases, not, ltb_ℤ, pos, arith,
}
use mathlib.Core.Path.{subst}
use mathlib.Core.List.{Memᴰ}
use ofcir.Prelude.Sorting.{sort_stable, All-sort_stable}
use ofcir.Api.{CiResource, CiPool}
use ofcir.Server.{Response, status_ok}
use ofcir.Server.Clientset.{Rest}
use ofcir.Server.Acquire.{
  PoolsByName, by_name, in_pools, defaults, fallbacks, by_priority, priority, give_up,
  search_fallbacks, search_pools, look_for_available_resource,
}
use ofcir.Server.Acquired.{Found, look_for-Found}

-- what the map holds under a name is a pool with that name, and with the property
abbrev pub Named : (CiPool → Type 0) → PoolsByName → Type 0
Named Q pools = (n : String) (p : CiPool) → pools n ≡ some p → (p.meta.name ≡ n) × Q p

pub by_name-Named :
    (Q : CiPool → Type 0) (ps : List CiPool) (m : PoolsByName)
    → Named Q m
    → All Q ps
    → Named Q (by_name m ps)
unfolding by_name
by_name-Named Q [] m h a = h
by_name-Named Q (q ∷ ps) m h a =
    by_name-Named Q ps (λ n. if str_eq q.meta.name n then some q else m n)
      (λ n p e. elim (Bool-cases (str_eq q.meta.name n)) [
        | inl t ↦
            let e' : some q ≡ some p = rw t at e in
            let j : q ≡ p = cc in
            (ap (λ (x : CiPool). x.meta.name) (sym j) ∙ (eq_iff q.meta.name n).0 t, subst Q j a.0)
        | inr t ↦ h n p (rw t at e)
      ])
      a.1

-- what the loop that divides the resources keeps
abbrev pub Owned : PoolsByName → List CiResource → CiResource → Type 0
Owned pools all r = Memᴰ r all × (in_pools pools r ≡ true)

module _ {C : Type 0} (rest : Rest C) (shuffle : List CiResource → List CiResource)
    (shuffle_mem : (xs : List CiResource) (x : CiResource) → Memᴰ x (shuffle xs) → Memᴰ x xs)
    (types : List String) (a : Response) (served : a.status ≡ status_ok) where
  give_up-refuses : (c : C) → (give_up rest types none c).0 ≡ ok a → ⊥
  unfolding give_up
  give_up-refuses c h = ground arith

  module _ (pools : PoolsByName) (P : CiResource → Type 0) where
    -- the loop's answer is the answer
    answered :
        (rs : List CiResource) (c : C) (b : Response) (c' : C)
        → look_for_available_resource rest pools rs c ≡ (ok (some b), c')
        → All P rs
        → b ≡ a
        → Found rest P pools a
    answered rs c b c' e all j = look_for-Found rest pools P a rs c all (
        ap (λ (x : Outcome (Option Response) × C). x.0) e
        ∙ ap {B = Outcome (Option Response)} (λ t. ok (some t)) j)

    give_up-Found :
        (spare : List CiResource) (c : C) (r : Outcome (Option Response)) (c' : C)
        → look_for_available_resource rest pools spare c ≡ (r, c')
        → All P spare
        → (continue r (give_up rest types) c').0 ≡ ok a
        → Found rest P pools a
    give_up-Found spare c (ok (some b)) c' e all h =
        answered spare c b c' e all (unfold give_up in ground arith)
    give_up-Found spare c (ok none) c' e all h = absurd (give_up-refuses c' h)
    give_up-Found spare c (err x) c' e all h = absurd (ground arith)
    give_up-Found spare c panic c' e all h = absurd (ground arith)

    fallbacks-Found :
        (cirs spare : List CiResource) (c : C) (r : Outcome (Option Response)) (c' : C)
        → look_for_available_resource rest pools cirs c ≡ (r, c')
        → All P cirs
        → All P spare
        → (continue r (search_fallbacks rest pools types spare) c').0 ≡ ok a
        → Found rest P pools a
    unfolding search_fallbacks
    fallbacks-Found cirs spare c (ok (some b)) c' e all more h =
        answered cirs c b c' e all (ground arith)
    fallbacks-Found cirs spare c (ok none) c' e all more h =
        give_up-Found spare c' (look_for_available_resource rest pools spare c').0
          (look_for_available_resource rest pools spare c').1 refl more h
    fallbacks-Found cirs spare c (err x) c' e all more h = absurd (ground arith)
    fallbacks-Found cirs spare c panic c' e all more h = absurd (ground arith)

    pub search_pools-Found :
        (cirs spare : List CiResource) (c : C)
        → All P cirs
        → All P spare
        → (search_pools rest pools types cirs spare c).0 ≡ ok a
        → Found rest P pools a
    unfolding search_pools
    search_pools-Found cirs spare c all more h =
        fallbacks-Found cirs spare c (look_for_available_resource rest pools cirs c).0
          (look_for_available_resource rest pools cirs c).1 refl all more h

  pub defaults-Owned :
      (pools : PoolsByName) (all : List CiResource)
      → All (Owned pools all) (sort_stable (by_priority pools) (shuffle (defaults pools all)))
  defaults-Owned pools all =
      let test = λ (r : CiResource). in_pools pools r && not (ltb_ℤ (priority pools r) (pos 0)) in
      let kept =
        All-map _ (Owned pools all) (defaults pools all) (λ r h. (h.0, ground arith))
          (All-keep_test test all) in
      All-sort_stable (by_priority pools) (Owned pools all) (shuffle (defaults pools all)) (
        All-of_Memᴰ (Owned pools all) (shuffle (defaults pools all)) (λ r m.
          Memᴰ-All (Owned pools all) (defaults pools all) kept
            (shuffle_mem (defaults pools all) r m)))

  pub fallbacks-Owned :
      (pools : PoolsByName) (all : List CiResource) → All (Owned pools all) (fallbacks pools all)
  fallbacks-Owned pools all =
      let test = λ (r : CiResource). in_pools pools r && ltb_ℤ (priority pools r) (pos 0) in
      All-map _ (Owned pools all) (fallbacks pools all) (λ r h. (h.0, ground arith))
        (All-keep_test test all)
