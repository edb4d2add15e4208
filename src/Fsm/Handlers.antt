-- ===== src/Fsm/Handlers.antt =====
-- controllers/ciresource_fsm.go: the handlers of the nine states, and `NewCIResourceFSM`.
use ofcir.Prelude.{
  pos, negsuc, ◌+◌, ◌^◌, ◌-◌, pos_part, neg_part, sub_ℕ, ltb_ℤ, String, str_eq, Bool, not, ◌&&◌, [],
  ◌∷◌, Option, none, some, is_nil, Exec, Error, pure, raise, crash, gets, catch, ◌>>=◌, ◌>>◌,
  if◌then◌else◌,
}
use ofcir.Api.{
  Time, CiResource, state_none, provisioning, provisioning_wait, available, in_use, maintenance,
  cleaning, cleaning_wait, delete, is_fallback_pool, state_eq, set_spec_state, ofcir_finalizer,
}
use ofcir.Provider.{as_resource_not_found}
use ofcir.Fsm.Machine.{
  ControllerUtil, Context, Machine, Handler, Fsm, default_cir_retry_delay,
  default_cir_provisioning_wait_delay, default_cipool_retry_delay, fallback_resource_id, on_world,
  change, transition, add_state, trigger_event, update_resource_only,
}

-- `time.Time.Sub`, which saturates at the ends of an int64
unfoldable pub time_sub : Time → Time → Time
time_sub a b =
    let d = sub_ℕ (pos_part a + neg_part b) (neg_part a + pos_part b) in
    if ltb_ℤ (pos (2 ^ 63 - 1)) d
    then pos (2 ^ 63 - 1)
    else if ltb_ℤ d (negsuc (2 ^ 63 - 1))
    then negsuc (2 ^ 63 - 1)
    else d

-- `DeletionTimestamp.IsZero()`
abbrev pub is_deleted : CiResource → Bool
is_deleted c = not (is_nil c.meta.deletion_timestamp)

abbrev pub set_finalizers : (ControllerUtil → CiResource → CiResource)
set_finalizers u c = record c { meta = u.add_finalizer c.meta ofcir_finalizer }

abbrev pub drop_finalizer : (ControllerUtil → CiResource → CiResource)
drop_finalizer u c = record c { meta = u.remove_finalizer c.meta ofcir_finalizer }

abbrev pub set_resource_id : String → CiResource → CiResource
set_resource_id id c = record c { status = record c.status { resource_id = id } }

abbrev pub reset_fallback : CiResource → CiResource
reset_fallback c = record c {
  status = record c.status {
    address = "";
    extra = "";
    provider_info = "";
    resource_id = fallback_resource_id;
  };
}

module _ {W : Type 0} where
  abbrev pub get_cir : Exec (Machine W) CiResource
  get_cir = gets (λ s. s.cir)

  unfoldable pub handle_state_none : Handler W
  unfolding update_resource_only trigger_event
  handle_state_none ctx = do
    cir ← get_cir
    if not (is_deleted cir) && not (ctx.util.contains_finalizer cir.meta ofcir_finalizer)
        then change (set_finalizers ctx.util) >> update_resource_only
        else trigger_event "init" ctx

  unfoldable pub handle_state_provisioning : Handler W
  unfolding trigger_event
  handle_state_provisioning ctx = do
    cir ← get_cir
    if is_fallback_pool ctx.pool && not (state_eq cir.spec.state in_use)
        then change (set_resource_id fallback_resource_id) >> trigger_event "fallback-available" ctx
        else do
          resource ←
              on_world
                (ctx.provider.acquire ctx.pool.spec.size ctx.pool.meta.name ctx.pool.spec.type_)
          change (λ c. record c {
            status = record c.status {
              resource_id = resource.id;
              provider_info = ctx.pool.spec.provider_info;
            };
          })
          trigger_event "on-provisioning-requested" ctx

  -- the result of `TriggerEvent` is dropped where the resource is ready
  unfoldable pub handle_state_provisioning_wait : Handler W
  unfolding trigger_event
  handle_state_provisioning_wait ctx = do
    cir ← get_cir
    (is_ready, resource) ← on_world (ctx.provider.acquire_completed cir.status.resource_id)
    if is_ready
        then (do
          change (λ c. record c {
            status = record c.status { address = resource.address; extra = resource.metadata };
          })
          catch (trigger_event "on-provisioning-complete" ctx) (λ e. pure 0)
          pure 0)
        else pure default_cir_provisioning_wait_delay

  unfoldable pub handle_state_available : Handler W
  unfolding trigger_event
  handle_state_available ctx = do
    cir ← get_cir
    if is_deleted cir
        then trigger_event "on-delete" ctx
        else if state_eq cir.spec.state cir.status.state
        then pure default_cir_retry_delay
        else if state_eq cir.spec.state maintenance
        then trigger_event "on-maintenance" ctx
        else if state_eq cir.spec.state in_use
        then trigger_event "acquired" ctx
        else pure default_cir_retry_delay

  unfoldable pub handle_state_maintenance : Handler W
  unfolding trigger_event
  handle_state_maintenance ctx = do
    cir ← get_cir
    if is_deleted cir
        then trigger_event "on-delete" ctx
        else if state_eq cir.spec.state cir.status.state
        then pure default_cir_retry_delay
        else if state_eq cir.spec.state available
        then trigger_event "on-maintenance-complete" ctx
        else pure default_cir_retry_delay

  -- `time.Since(LastUpdated.Time) > Timeout`; a nil `LastUpdated` is dereferenced
  unfoldable pub check_timeout : Option Time → Handler W
  unfolding update_resource_only
  check_timeout none ctx = crash
  check_timeout (some t) ctx =
      if ltb_ℤ ctx.pool.spec.timeout (time_sub ctx.now t)
      then change (set_spec_state available) >> update_resource_only
      else pure default_cir_retry_delay

  unfoldable pub handle_state_in_use : Handler W
  unfolding trigger_event check_timeout
  handle_state_in_use ctx = do
    cir ← get_cir
    if state_eq cir.spec.state available
        then trigger_event "released" ctx
        else if not (state_eq cir.spec.state in_use)
        then pure default_cir_retry_delay
        else if is_fallback_pool ctx.pool
            && str_eq cir.status.address ""
            && str_eq cir.status.resource_id fallback_resource_id
        then trigger_event "fallback-provisioning" ctx
        else check_timeout cir.status.last_updated ctx

  abbrev unless_gone : Error → Exec (Machine W) (Unit {0})
  unfolding as_resource_not_found
  unless_gone e = if as_resource_not_found e then pure tt else raise e

  -- `Release`, where a resource that is not found counts as released
  unfoldable pub release_unless_gone : String → Context W → Exec (Machine W) (Unit {0})
  unfolding unless_gone
  release_unless_gone id ctx = catch (on_world (ctx.provider.release id)) unless_gone

  unfoldable pub handle_state_cleaning : Handler W
  unfolding trigger_event release_unless_gone
  handle_state_cleaning ctx = do
    cir ← get_cir
    if is_fallback_pool ctx.pool
        then (do
          if str_eq cir.status.resource_id fallback_resource_id
              then pure tt
              else release_unless_gone cir.status.resource_id ctx
          change reset_fallback
          trigger_event "on-cleaning-requested" ctx)
        else do
          on_world (ctx.provider.clean cir.status.resource_id)
          trigger_event "on-cleaning-requested" ctx

  unfoldable pub handle_state_cleaning_wait : Handler W
  unfolding trigger_event
  handle_state_cleaning_wait ctx = do
    cir ← get_cir
    if is_fallback_pool ctx.pool then trigger_event "on-cleaning-complete" ctx else do
      is_cleaned ← on_world (ctx.provider.clean_completed cir.status.resource_id)
      if is_cleaned
          then trigger_event "on-cleaning-complete" ctx
          else pure default_cir_provisioning_wait_delay

  unfoldable pub handle_state_delete : Handler W
  unfolding update_resource_only release_unless_gone
  handle_state_delete ctx = do
    cir ← get_cir
    if ctx.util.contains_finalizer cir.meta ofcir_finalizer
        then (do
          if is_fallback_pool ctx.pool && str_eq cir.status.resource_id fallback_resource_id
              then pure tt
              else release_unless_gone cir.status.resource_id ctx
          change (drop_finalizer ctx.util)
          update_resource_only)
        else pure default_cipool_retry_delay

  abbrev empty_fsm : Fsm W
  empty_fsm = record { states = λ s. none; before_any_state = none }

  -- `NewCIResourceFSM`
  unfoldable pub new_ciresource_fsm : Fsm W
  unfolding add_state transition
  new_ciresource_fsm = add_state delete handle_state_delete [] (
      add_state cleaning_wait handle_state_cleaning_wait
        (transition "on-cleaning-complete" available ∷ [])
        (add_state cleaning handle_state_cleaning
          (transition "on-cleaning-requested" cleaning_wait ∷ [])
          (add_state in_use handle_state_in_use
            (transition "released" cleaning ∷ transition "fallback-provisioning" provisioning ∷ [])
            (add_state maintenance handle_state_maintenance
              (transition "on-maintenance-complete" available ∷ transition "on-delete" delete ∷ [])
              (add_state available handle_state_available
                (transition "on-maintenance" maintenance
                  ∷ transition "acquired" in_use
                  ∷ transition "on-delete" delete
                  ∷ [])
                (add_state provisioning_wait handle_state_provisioning_wait
                  (transition "on-provisioning-complete" available ∷ [])
                  (add_state provisioning handle_state_provisioning
                    (transition "on-provisioning-requested" provisioning_wait
                      ∷ transition "fallback-available" available
                      ∷ [])
                    (add_state state_none handle_state_none (transition "init" provisioning ∷ [])
                      empty_fsm))))))))
