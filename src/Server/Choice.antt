-- ===== src/Server/Choice.antt =====
-- pkg/server/commands/acquire.go: which of the free resources is chosen.
use ofcir.Prelude.{
  String, ◌≡◌, refl, inl, inr, ◌≤ℤ◌, true, false, Option, none, some, ok, List, [], ◌∷◌, All,
  All-map, Bool-cases, arith, if◌then◌else◌,
}
use ofcir.Prelude.Sorting.{sort_stable, IsSorted, sort_stable-IsSorted}
use ofcir.Api.{CiResource, in_use, set_spec_state}
use ofcir.Fsm.Release.{is_ok}
use ofcir.Server.{Response}
use ofcir.Server.Clientset.{Rest, update_cir}
use ofcir.Server.Acquire.{
  PoolsByName, priority, by_priority, is_free, acquired, try_resource, look_for_available_resource,
  give_up, search_fallbacks, search_pools, no_resource,
}

-- the first resource that is free
abbrev pub first_free : List CiResource → Option CiResource
first_free [] = none
first_free (r ∷ rs) = let later = first_free rs in if is_free r then some r else later

abbrev pub answer_of : PoolsByName → Option CiResource → Option Response
answer_of pools none = none
answer_of pools (some r) = some (acquired pools r)

-- The server takes every update, and the request's time does not run out.
pub record IsServing {C : Type 0} (rest : Rest C) : Type 0 where
  pub in_time : (c : C) → (rest.expired c).0 ≡ ok false
  pub takes : (ns : String) (r : CiResource) (c : C) → is_ok (update_cir rest ns r c).0 ≡ true

module _ {C : Type 0} (rest : Rest C) (serving : IsServing rest) (pools : PoolsByName) where
  -- the loop answers with the first free resource of its list
  look_for_first :
      (rs : List CiResource) (c : C)
      → (look_for_available_resource rest pools rs c).0 ≡ ok (answer_of pools (first_free rs))
  unfolding look_for_available_resource try_resource
  look_for_first [] c = refl
  look_for_first (r ∷ rs) c =
      let c' = (rest.expired c).1 in
      ground (
        arith,
        serving.in_time c,
        look_for_first rs c',
        serving.takes r.meta.namespace (set_spec_state in_use r) c',
      )

  -- what a request answers: the default pools come first, then the fallback ones
  abbrev pub chosen : List String → Option Response → Option Response → Response
  chosen types (some a) b = a
  chosen types none (some b) = b
  chosen types none none = no_resource rest types

  -- Where the server takes every update and time does not run out, the answer shows the first free
  -- resource of the default pools in their order, if there is one, else the first free one of the
  -- fallback pools, and is a refusal only where neither has a free resource.
  pub search_pools_first :
      (types : List String) (cirs spare : List CiResource) (c : C)
      → (search_pools rest pools types cirs spare c).0
        ≡ ok (chosen types (answer_of pools (first_free cirs)) (answer_of pools (first_free spare)))
  unfolding search_pools search_fallbacks give_up
  search_pools_first types cirs spare c =
      let c' = (look_for_available_resource rest pools cirs c).1 in
      let c'' = (look_for_available_resource rest pools spare c').1 in
      ground (arith, look_for_first cirs c, look_for_first spare c', serving.in_time c'')

module _ (pools : PoolsByName) where
  first_free-le :
      (rs : List CiResource) (r : CiResource)
      → IsSorted (priority pools) rs
      → first_free rs ≡ some r
      → All (λ x. is_free x ≡ true → priority pools r ≤ℤ priority pools x) rs
  first_free-le [] r s h = tt
  first_free-le (x ∷ xs) r s h = elim (Bool-cases (is_free x)) [
    | inl f ↦
        let e' : some x ≡ some r = rw f at h in
        let j : x ≡ r = cc in
        (
          λ g. rw j (omega arith),
          All-map (λ y. priority pools x ≤ℤ priority pools y) _ xs (λ y le g. rw (← j) le) s.0,
        )
    | inr f ↦ (λ g. cc, first_free-le xs r s.1 (rw f at h))
  ]

  -- The resource that is chosen from the default pools has the least priority number among the
  -- free ones, whatever order the shuffle left.
  pub first_free_least :
      (cirs : List CiResource) (r : CiResource)
      → first_free (sort_stable (by_priority pools) cirs) ≡ some r
      → All
          (λ x. is_free x ≡ true → priority pools r ≤ℤ priority pools x)
          (sort_stable (by_priority pools) cirs)
  first_free_least cirs r h =
      first_free-le (sort_stable (by_priority pools) cirs) r
        (sort_stable-IsSorted (priority pools) cirs) h
