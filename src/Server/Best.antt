-- ===== src/Server/Best.antt =====
-- pkg/server/commands/acquire.go: what an acquisition answers where nothing fails.
use ofcir.Prelude.{
  String, ◌≡◌, refl, sym, inl, inr, true, Option, none, some, ok, List, [], ◌∷◌, All, All-of_Memᴰ,
  Memᴰ-All, All-keep_test, keep-Memᴰ, Bool-cases, Option-cases, keep, arith, pos, ◌<ℤ◌, ltb_ℤ,
  false, ◌≤ℤ◌,
}
use mathlib.Core.List.{Memᴰ}
use ofcir.Prelude.Sorting.{sort_stable, All-sort_stable, All-of_sorted}
use ofcir.Api.{CiResource, CiPool, state_eq, available, in_use, maintenance}
use ofcir.Server.{Response}
use ofcir.Server.Clientset.{Rest, list_cipools, list_cirs}
use ofcir.Server.Acquire.{
  PoolsByName, is_usable, by_name, priority, defaults, fallbacks, by_priority, is_free, acquired,
  no_pool, no_resource, acquire_from, acquire,
}
use ofcir.Server.Choice.{
  IsServing, first_free, answer_of, chosen, search_pools_first, first_free_least,
}

-- What the first free resource of a list is.
first_free_free :
    (rs : List CiResource) (r : CiResource) → first_free rs ≡ some r → is_free r ≡ true
first_free_free [] r h = absurd (ground arith)
first_free_free (x ∷ xs) r h = elim (Bool-cases (is_free x)) [
  | inl f ↦ let e = rw f at h in ground arith
  | inr f ↦ first_free_free xs r (rw f at h)
]

first_free-All :
    (P : CiResource → Type 0) (rs : List CiResource) (r : CiResource)
    → All P rs
    → first_free rs ≡ some r
    → P r
first_free-All P [] r a h = absurd (ground arith)
first_free-All P (x ∷ xs) r a h = elim (Bool-cases (is_free x)) [
  | inl f ↦ let e : some x ≡ some r = rw f at h in let j : x ≡ r = cc in rw (sym j) a.0
  | inr f ↦ first_free-All P xs r a.1 (rw f at h)
]

none_free : (rs : List CiResource) → first_free rs ≡ none → All (λ x. is_free x ≡ false) rs
none_free [] h = tt
none_free (x ∷ xs) h = elim (Bool-cases (is_free x)) [
  | inl f ↦ absurd (let e = rw f at h in ground arith)
  | inr f ↦ (f, none_free xs (rw f at h))
]

-- available, and asked for neither by a job nor for maintenance
abbrev pub Free : CiResource → Type 0
Free r =
    (state_eq r.status.state available ≡ true)
    × (state_eq r.spec.state in_use ≡ false)
    × (state_eq r.spec.state maintenance ≡ false)

is_free-Free : (r : CiResource) → is_free r ≡ true → Free r
unfolding is_free
is_free-Free r h = ground arith

Free-is_free : (r : CiResource) → Free r → is_free r ≡ true
unfolding is_free
Free-is_free r h = ground arith

-- a free resource of the list, and its pool, whose priority is not negative
abbrev pub Default : PoolsByName → List CiResource → CiResource → CiPool → Type 0
Default pools all r p =
    Memᴰ r all × (pools r.spec.pool_ref ≡ some p) × (pos 0 ≤ℤ p.spec.priority) × Free r

-- a free resource of the list, and its pool, whose priority is negative
abbrev pub Fallback : PoolsByName → List CiResource → CiResource → CiPool → Type 0
Fallback pools all r p =
    Memᴰ r all × (pools r.spec.pool_ref ≡ some p) × (p.spec.priority <ℤ pos 0) × Free r

-- The answer for the pools that may be used: the free resource with the least priority number of
-- those of pools without a negative one; where there is none, a free one of a pool with a negative
-- priority; where there is none, a refusal.
pub data Best {C : Type 0} (rest : Rest C) (types : List String) (usable : List CiPool)
    (all : List CiResource) : Response → Type 0 where
  without_pools : usable ≡ [] → Best rest types usable all (no_pool rest types)
  of_defaults :
      (r : CiResource) (p : CiPool)
      → Default (by_name (λ n. none) usable) all r p
      → ((x : CiResource) (q : CiPool)
          → Default (by_name (λ n. none) usable) all x q
          → p.spec.priority ≤ℤ q.spec.priority)
      → Best rest types usable all (acquired (by_name (λ n. none) usable) r)
  of_fallbacks :
      (r : CiResource) (p : CiPool)
      → ((x : CiResource) (q : CiPool) → ¬ Default (by_name (λ n. none) usable) all x q)
      → Fallback (by_name (λ n. none) usable) all r p
      → Best rest types usable all (acquired (by_name (λ n. none) usable) r)
  without_resources :
      ((x : CiResource) (q : CiPool) → ¬ Default (by_name (λ n. none) usable) all x q)
      → ((x : CiResource) (q : CiPool) → ¬ Fallback (by_name (λ n. none) usable) all x q)
      → Best rest types usable all (no_resource rest types)

-- what the loop that divides the resources puts where
module _ (pools : PoolsByName) (all : List CiResource) where
  defaults-kept :
      (r : CiResource)
      → Memᴰ r (defaults pools all)
      → is_free r ≡ true
      → (p : CiPool) × Default pools all r p
  unfolding ltb_ℤ
  defaults-kept r m f =
      let (inside, test) = Memᴰ-All _ (defaults pools all) (All-keep_test _ all) m in
      elim (Option-cases (pools r.spec.pool_ref)) [
        | inl e ↦ absurd (ground arith)
        | inr (p, e) ↦ (p, (inside, e, ground arith, is_free-Free r f))
      ]

  fallbacks-kept :
      (r : CiResource)
      → Memᴰ r (fallbacks pools all)
      → is_free r ≡ true
      → (p : CiPool) × Fallback pools all r p
  unfolding ltb_ℤ
  fallbacks-kept r m f =
      let (inside, test) = Memᴰ-All _ (fallbacks pools all) (All-keep_test _ all) m in
      elim (Option-cases (pools r.spec.pool_ref)) [
        | inl e ↦ absurd (ground arith)
        | inr (p, e) ↦ (p, (inside, e, ground arith, is_free-Free r f))
      ]

  -- the priority that the order goes by
  priority-eq :
      (r : CiResource) (p : CiPool)
      → pools r.spec.pool_ref ≡ some p
      → priority pools r ≡ p.spec.priority
  priority-eq r p e = rw (e, priority) refl

  Default-kept : (r : CiResource) (p : CiPool) → Default pools all r p → Memᴰ r (defaults pools all)
  unfolding ltb_ℤ
  Default-kept r p (m, e, k, f) = keep-Memᴰ _ all m (ground arith)

  Fallback-kept :
      (r : CiResource) (p : CiPool) → Fallback pools all r p → Memᴰ r (fallbacks pools all)
  unfolding ltb_ℤ
  Fallback-kept r p (m, e, k, f) = keep-Memᴰ _ all m (ground arith)

module _ {C : Type 0} (rest : Rest C) (serving : IsServing rest)
    (shuffle : List CiResource → List CiResource)
    (shuffle_mem : (xs : List CiResource) (x : CiResource) → Memᴰ x (shuffle xs) → Memᴰ x xs)
    (shuffle_all : (xs : List CiResource) (x : CiResource) → Memᴰ x xs → Memᴰ x (shuffle xs))
    (types : List String) where
  module _ (usable : List CiPool) (all : List CiResource) where
    abbrev pools : PoolsByName
    pools = by_name (λ n. none) usable

    abbrev order : List CiResource
    order = sort_stable (by_priority pools) (shuffle (defaults pools all))

    -- what holds of the resources in the order in which they are tried holds of all of them
    of_order : (P : CiResource → Type 0) → All P order → All P (defaults pools all)
    of_order P a = All-of_Memᴰ P (defaults pools all) (λ x m.
        Memᴰ-All P (shuffle (defaults pools all))
          (All-of_sorted (by_priority pools) P (shuffle (defaults pools all)) a)
          (shuffle_all (defaults pools all) x m))

    order_mem : All (λ x. Memᴰ x (defaults pools all)) order
    order_mem =
        All-sort_stable (by_priority pools) (λ x. Memᴰ x (defaults pools all))
          (shuffle (defaults pools all))
          (All-of_Memᴰ (λ x. Memᴰ x (defaults pools all)) (shuffle (defaults pools all))
            (shuffle_mem (defaults pools all)))

    least :
        (r : CiResource) (p : CiPool)
        → first_free order ≡ some r
        → pools r.spec.pool_ref ≡ some p
        → (x : CiResource) (q : CiPool) → Default pools all x q
        → p.spec.priority ≤ℤ q.spec.priority
    least r p e at_pool x q d =
        let (m, of_q, k, f) = d in
        let a = of_order _ (first_free_least pools (shuffle (defaults pools all)) r e) in
        let ordered =
          Memᴰ-All _ (defaults pools all) a (Default-kept pools all x q d) (Free-is_free x f) in
        rw (priority-eq pools all r p at_pool, priority-eq pools all x q of_q) at ordered

    first_exhausted :
        first_free order ≡ none → (x : CiResource) (q : CiPool) → ¬ Default pools all x q
    first_exhausted e x q d =
        let refused =
          Memᴰ-All _ (defaults pools all) (of_order _ (none_free order e))
            (Default-kept pools all x q d) in
        let free = Free-is_free x d.3 in absurd (ground arith)

    second_exhausted :
        first_free (fallbacks pools all) ≡ none
        → (x : CiResource) (q : CiPool) → ¬ Fallback pools all x q
    second_exhausted e x q d =
        let refused =
          Memᴰ-All _ (fallbacks pools all) (none_free (fallbacks pools all) e)
            (Fallback-kept pools all x q d) in
        let free = Free-is_free x d.3 in absurd (ground arith)

    picked :
        (first second : Option CiResource)
        → first_free order ≡ first
        → first_free (fallbacks pools all) ≡ second
        → Best rest types usable all
            (chosen rest serving pools types (answer_of pools first) (answer_of pools second))
    picked (some r) second e f =
        let (p, d) =
          defaults-kept pools all r (first_free-All _ order r order_mem e)
            (first_free_free order r e) in
        of_defaults r p d (least r p e d.1)
    picked none (some r) e f =
        let m =
          first_free-All _ (fallbacks pools all) r
            (All-of_Memᴰ (λ x. Memᴰ x (fallbacks pools all)) (fallbacks pools all) (λ x m. m)) f in
        let (p, d) = fallbacks-kept pools all r m (first_free_free (fallbacks pools all) r f) in
        of_fallbacks r p (first_exhausted e) d
    picked none none e f = without_resources (first_exhausted e) (second_exhausted f)

  -- Where the server takes every update, the pools and the resources are listed, the request's time
  -- does not run out, and the shuffle drops and adds no elements: an acquisition answers, and the
  -- answer is the one of the search by priorities. Of the pools that have a requested type and that
  -- the token opens, whatever their state, also those that are offline, it is the free resource
  -- with the least priority number that is not negative; where there is none, a free one of a pool
  -- with a negative priority; and a refusal exactly where there is none either.
  pub acquire-Best :
      (ns : String) (validpools : Option String) (listed : List CiPool) (all : List CiResource)
      (c c' c'' : C)
      → list_cipools rest ns c ≡ (ok listed, c')
      → list_cirs rest ns c' ≡ (ok all, c'')
      → (a : Response) × ((acquire rest shuffle ns validpools types c).0 ≡ ok a)
        × Best rest types (keep (is_usable types validpools) listed) all a
  unfolding acquire
  acquire-Best ns validpools listed all c c' c'' e f =
      let (a, h, b) = from_pools (keep (is_usable types validpools) listed) in (a, rw e h, b)
    where
      from_pools :
          (usable : List CiPool)
          → (a : Response) × ((acquire_from rest shuffle ns types usable c').0 ≡ ok a)
            × Best rest types usable all a
      from_pools [] = (no_pool rest types, unfold acquire_from in refl, without_pools refl)
      from_pools (p ∷ ps) =
          let tried = order (p ∷ ps) all in
          let spare = fallbacks (pools (p ∷ ps) all) all in
          (
            chosen rest serving (pools (p ∷ ps) all) types
                (answer_of (pools (p ∷ ps) all) (first_free tried))
                (answer_of (pools (p ∷ ps) all) (first_free spare)),
            unfold acquire_from in
                rw f (search_pools_first rest serving (pools (p ∷ ps) all) types tried spare c''),
            picked (p ∷ ps) all (first_free tried) (first_free spare) refl refl,
          )
