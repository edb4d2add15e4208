-- ===== src/Server/Acquire.antt =====
-- pkg/server/commands/acquire.go: the choice of an available resource.
use ofcir.Prelude.{
  ℤ, pos, ltb_ℤ, String, str_eq, Bool, true, false, not, ◌&&◌, List, [], ◌∷◌, Option, none, some,
  keep, Exec, Outcome, ok, err, panic, pure, ◌>>=◌, if◌then◌else◌,
}
use ofcir.Prelude.Sorting.{sort_stable}
use ofcir.Prelude.Texts.{split}
use ofcir.Api.{CiResource, CiPool, available, in_use, maintenance, state_eq, set_spec_state}
use ofcir.Server.{text, fields, Response, status_ok, status_not_found, status_service_unavailable}
use ofcir.Server.Clientset.{Rest, list_cipools, list_cirs, update_cir}
use ofcir.Server.Access.{contains, can_use_pool}

-- A Go map from pool names.
abbrev pub PoolsByName : Type 0
PoolsByName = String → Option CiPool

-- the pools of a requested type that the token opens
unfoldable pub is_usable : List String → Option String → CiPool → Bool
is_usable types validpools p = contains types p.spec.type_ && can_use_pool validpools p.meta.name

-- the map that the loop over these pools fills
unfoldable pub by_name : PoolsByName → List CiPool → PoolsByName
by_name m [] = m
by_name m (p ∷ ps) = by_name (λ n. if str_eq p.meta.name n then some p else m n) ps

-- the priority of a resource's pool; a missing pool reads as the zero value
abbrev pub priority : PoolsByName → CiResource → ℤ
priority pools r = elim (pools r.spec.pool_ref) [ none ↦ pos 0 | some p ↦ p.spec.priority ]

abbrev pub in_pools : PoolsByName → CiResource → Bool
in_pools pools r = elim (pools r.spec.pool_ref) [ none ↦ false | some p ↦ true ]

-- The loop that divides the resources of these pools: a resource of a pool with a negative
-- priority is a fallback.
abbrev pub defaults : PoolsByName → List CiResource → List CiResource
defaults pools = keep (λ r. in_pools pools r && not (ltb_ℤ (priority pools r) (pos 0)))

abbrev pub fallbacks : PoolsByName → List CiResource → List CiResource
fallbacks pools = keep (λ r. in_pools pools r && ltb_ℤ (priority pools r) (pos 0))

abbrev pub by_priority : PoolsByName → CiResource → CiResource → Bool
by_priority pools a b = ltb_ℤ (priority pools a) (priority pools b)

-- a resource that is available, and that nobody has asked for
unfoldable pub is_free : CiResource → Bool
is_free r =
    state_eq r.status.state available
    && not (state_eq r.spec.state in_use)
    && not (state_eq r.spec.state maintenance)

abbrev pool_fields : Option CiPool → List (String × String) → List (String × String)
pool_fields none rest = ("pool", "") ∷ ("provider", "") ∷ rest
pool_fields (some p) rest = ("pool", p.meta.name) ∷ ("provider", p.spec.provider) ∷ rest

-- the answer with the acquired resource
unfoldable pub acquired : PoolsByName → CiResource → Response
acquired pools r = record {
  status = status_ok;
  body = fields (
      ("name", r.meta.name)
      ∷ pool_fields (pools r.spec.pool_ref)
          (("providerInfo", r.status.provider_info) ∷ ("type", r.spec.type_) ∷ []));
}

module _ {C : Type 0} (rest : Rest C) where
  -- after the `Update` of a free resource
  unfoldable pub on_update :
      PoolsByName
      → CiResource
      → Exec C (Option Response)
      → Outcome CiResource
      → Exec C (Option Response)
  on_update pools r next (ok _) s = (ok (some (acquired pools r)), s)
  on_update pools r next (err e) s = next s
  on_update pools r next panic s = (panic, s)

  -- one round of the loop, where the context is not done
  unfoldable pub try_resource :
      PoolsByName → CiResource → Exec C (Option Response) → Exec C (Option Response)
  unfolding on_update
  try_resource pools r next s =
      let (u, s') = update_cir rest r.meta.namespace (set_spec_state in_use r) s in
      let tried = on_update pools r next u s' in
      let skipped = next s in if is_free r then tried else skipped

  -- `lookForAvailableResource`: the answer that it writes, if it does
  unfoldable pub look_for_available_resource :
      PoolsByName → List CiResource → Exec C (Option Response)
  look_for_available_resource pools [] = pure none
  look_for_available_resource pools (r ∷ rs) = do
    is_done ← rest.expired
    if is_done then pure none else try_resource pools r (look_for_available_resource pools rs)

  unfoldable pub no_pool : List String → Response
  no_pool types = record {
    status = status_not_found;
    body = text "No available pool found of type %v" types;
  }

  unfoldable pub timed_out : Response
  timed_out = record {
    status = status_service_unavailable;
    body = text "Timed out while searching for available resource" [];
  }

  unfoldable pub no_resource : List String → Response
  no_resource types = record {
    status = status_not_found;
    body = text "No available resource found of type %v" types;
  }

  -- where both searches found nothing
  unfoldable pub give_up : List String → Option Response → Exec C Response
  unfolding no_resource timed_out
  give_up types (some answer) s = (ok answer, s)
  give_up types none s =
      (do is_done ← rest.expired; pure (if is_done then timed_out else no_resource types)) s

  -- the search in the fallback pools, where that in the default ones found nothing
  unfoldable pub search_fallbacks :
      PoolsByName → List String → List CiResource → Option Response → Exec C Response
  search_fallbacks pools types spare (some answer) s = (ok answer, s)
  search_fallbacks pools types spare none s =
      (do second ← look_for_available_resource pools spare; give_up types second) s

  unfoldable pub search_pools :
      PoolsByName → List String → List CiResource → List CiResource → Exec C Response
  search_pools pools types cirs spare = do
    first ← look_for_available_resource pools cirs
    search_fallbacks pools types spare first

  -- `acquireCmd.Run` behind the selection of the pools, with the order that `rand.Shuffle` gives
  unfoldable pub acquire_from :
      (List CiResource → List CiResource) → String → List String → List CiPool → Exec C Response
  unfolding no_pool
  acquire_from shuffle ns types [] s = (ok (no_pool types), s)
  acquire_from shuffle ns types (p ∷ ps) s =
      let pools = by_name (λ n. none) (p ∷ ps) in
      (do
        all_cirs ← list_cirs rest ns
        search_pools pools types
            (sort_stable (by_priority pools) (shuffle (defaults pools all_cirs)))
            (fallbacks pools all_cirs))
        s

  -- `acquireCmd.Run`
  unfoldable pub acquire :
      (List CiResource → List CiResource) → String → Option String → List String → Exec C Response
  acquire shuffle ns validpools types = do
    listed ← list_cipools rest ns
    acquire_from shuffle ns types (keep (is_usable types validpools) listed)

-- the types that `NewAcquireCmd` reads from the query
unfoldable pub resource_types : String → List String
resource_types query = split b',' query
