-- ===== src/Fsm/Timeout.antt =====
-- controllers/ciresource_fsm.go: what a run does to the state that is asked for.
use ofcir.Prelude.{◌≡◌, ◌⊎◌, Bool, true, false, Option, none, some, ltb_ℤ, ok, arith}
use ofcir.Api.{
  Time, CiResource, CiPool, CiResourceState, state_none, available, in_use, state_eq,
  set_spec_state,
}
use ofcir.Api.States.{state_eq_self}
use ofcir.Provider.{SecretData, Factories}
use ofcir.Fsm.Machine.{ControllerUtil, Context}
use ofcir.Fsm.Handlers.{
  new_ciresource_fsm, handle_state_none, handle_state_provisioning, handle_state_provisioning_wait,
  handle_state_available, handle_state_maintenance, handle_state_in_use, handle_state_cleaning,
  handle_state_cleaning_wait, handle_state_delete, check_timeout, time_sub,
}
use ofcir.Fsm.Process.{Processed, start, select}
use ofcir.Fsm.Table.{visit, run, run-visit}

-- the last update is further back than the pool's timeout
abbrev pub is_over : CiPool → Time → Option Time → Bool
is_over pool now none = false
is_over pool now (some t) = ltb_ℤ pool.spec.timeout (time_sub now t)

-- The resource, in use by its observed state `st`, is asked for, has been so for longer than the
-- timeout, and is now asked to be available, with no other change.
abbrev pub TimedOut : CiResourceState → CiPool → Time → CiResource → CiResource → Type 0
TimedOut st pool now before after =
    (state_eq st in_use ≡ true)
    × (state_eq before.spec.state in_use ≡ true)
    × (is_over pool now before.status.last_updated ≡ true)
    × (after ≡ set_spec_state available before)

abbrev pub Asks : CiPool → Time → CiResource → CiResource → Type 0
Asks pool now before after =
    (after.spec ≡ before.spec) ⊎ TimedOut before.status.state pool now before after

visit-Asks :
    {W : Type 0} (st : CiResourceState) (ctx : Context W) (cir : CiResource) (w : W) (p : Processed)
    → (visit st ctx (start cir w)).0 ≡ ok p
    → ((visit st ctx (start cir w)).1.cir.spec ≡ cir.spec)
      ⊎ TimedOut st ctx.pool ctx.now cir (visit st ctx (start cir w)).1.cir
unfolding select new_ciresource_fsm handle_state_none handle_state_provisioning
    handle_state_provisioning_wait handle_state_available handle_state_maintenance
    handle_state_in_use handle_state_cleaning handle_state_cleaning_wait handle_state_delete
    check_timeout
visit-Asks state_none ctx cir w p = ground arith
visit-Asks in_use ctx cir w p = ground (arith, state_eq_self in_use)
visit-Asks _ ctx cir w p = ground arith

-- A run of `Process` that returns no error leaves the spec of the resource as it was, with the
-- state that is asked for. The one exception is a resource in use that is asked for and whose last
-- update is further back than the pool's timeout: it is asked to be available, and nothing else of
-- it changes.
pub process-Asks :
    {W : Type 0} (factories : Factories W) (util : ControllerUtil) (now : Time) (pool : CiPool)
    (secret : SecretData) (cir : CiResource) (w : W) (p : Processed)
    → (run factories util now pool secret cir w).0 ≡ ok p
    → Asks pool now cir (run factories util now pool secret cir w).1.cir
process-Asks f u now pool secret cir w p h =
    let (provider, w', e) = run-visit f u now pool secret cir w p h in
    rw e (visit-Asks cir.status.state _ cir w' p (rw e at h))
