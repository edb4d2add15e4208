-- ===== src/Fsm/Flags.antt =====
-- controllers/ciresource_fsm.go: the two dirty flags of `Process`.
use ofcir.Prelude.{◌≡◌, ◌⊎◌, true, false, ok, arith}
use ofcir.Api.{Time, CiResource, CiPool, CiResourceState, state_none}
use ofcir.Provider.{SecretData, Factories}
use ofcir.Fsm.Machine.{ControllerUtil, Context}
use ofcir.Fsm.Handlers.{
  new_ciresource_fsm, handle_state_none, handle_state_provisioning, handle_state_provisioning_wait,
  handle_state_available, handle_state_maintenance, handle_state_in_use, handle_state_cleaning,
  handle_state_cleaning_wait, handle_state_delete,
}
use ofcir.Fsm.Process.{Processed, start, select}
use ofcir.Fsm.Table.{visit, run, run-visit}

-- The changes from `before` to `after` are those that the flags stand for: none, of the status
-- alone, or of the rest alone.
abbrev pub Effect : CiResource → CiResource → Processed → Type 0
Effect before after p =
    ((p.resource_dirty ≡ false) × (p.status_dirty ≡ false) × (after ≡ before))
    ⊎ (((p.resource_dirty ≡ false)
          × (p.status_dirty ≡ true)
          × (after.spec ≡ before.spec)
          × (after.meta ≡ before.meta))
        ⊎ ((p.resource_dirty ≡ true) × (p.status_dirty ≡ false) × (after.status ≡ before.status)))

visit-Effect :
    {W : Type 0} (st : CiResourceState) (ctx : Context W) (cir : CiResource) (w : W) (p : Processed)
    → (visit st ctx (start cir w)).0 ≡ ok p
    → Effect cir (visit st ctx (start cir w)).1.cir p
unfolding select new_ciresource_fsm handle_state_none handle_state_provisioning
    handle_state_provisioning_wait handle_state_available handle_state_maintenance
    handle_state_in_use handle_state_cleaning handle_state_cleaning_wait handle_state_delete
visit-Effect state_none ctx cir w p = ground arith
visit-Effect _ ctx cir w p = ground arith

-- Whatever the state, the pool and the provider: a run of `Process` that returns no error either
-- changes nothing and raises no flag, or changes the status alone and raises the status flag
-- alone, or keeps the status and raises the resource flag alone.
pub process-Effect :
    {W : Type 0} (factories : Factories W) (util : ControllerUtil) (now : Time) (pool : CiPool)
    (secret : SecretData) (cir : CiResource) (w : W) (p : Processed)
    → (run factories util now pool secret cir w).0 ≡ ok p
    → Effect cir (run factories util now pool secret cir w).1.cir p
process-Effect f u now pool secret cir w p h =
    let (provider, w', e) = run-visit f u now pool secret cir w p h in
    rw e (visit-Effect cir.status.state _ cir w' p (rw e at h))
