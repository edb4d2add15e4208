-- ===== src/Fsm/Diagram.antt =====
-- controllers/ciresource_fsm.go: the transitions of `NewCIResourceFSM` as a diagram.
use ofcir.Prelude.{◌≡◌, ◌⊎◌, Bool, true, false, ok, arith}
use ofcir.Api.{
  Time, CiResource, CiPool, CiResourceState, state_none, provisioning, provisioning_wait, available,
  in_use, maintenance, cleaning, cleaning_wait, delete,
}
use ofcir.Provider.{SecretData, Factories}
use ofcir.Fsm.Machine.{ControllerUtil, Context}
use ofcir.Fsm.Handlers.{
  new_ciresource_fsm, handle_state_none, handle_state_provisioning, handle_state_provisioning_wait,
  handle_state_available, handle_state_maintenance, handle_state_in_use, handle_state_cleaning,
  handle_state_cleaning_wait, handle_state_delete,
}
use ofcir.Fsm.Process.{Processed, start, select}
use ofcir.Fsm.Table.{visit, run, run-visit}

abbrev pub edge : CiResourceState → CiResourceState → Bool
edge state_none provisioning = true
edge provisioning provisioning_wait = true
edge provisioning available = true
edge provisioning_wait available = true
edge available maintenance = true
edge available in_use = true
edge available delete = true
edge maintenance available = true
edge maintenance delete = true
edge in_use cleaning = true
edge in_use provisioning = true
edge cleaning cleaning_wait = true
edge cleaning_wait available = true
edge _ _ = false

abbrev pub Follows : CiResource → CiResource → Processed → Type 0
Follows before after p =
    ((p.status_dirty ≡ true) × (edge before.status.state after.status.state ≡ true))
    ⊎ ((p.status_dirty ≡ false) × (after.status.state ≡ before.status.state))

abbrev FollowsFrom : CiResourceState → CiResource → CiResource → Processed → Type 0
FollowsFrom st before after p =
    ((p.status_dirty ≡ true) × (edge st after.status.state ≡ true))
    ⊎ ((p.status_dirty ≡ false) × (after.status.state ≡ before.status.state))

visit-FollowsFrom :
    {W : Type 0} (st : CiResourceState) (ctx : Context W) (cir : CiResource) (w : W) (p : Processed)
    → (visit st ctx (start cir w)).0 ≡ ok p
    → FollowsFrom st cir (visit st ctx (start cir w)).1.cir p
unfolding select new_ciresource_fsm handle_state_none handle_state_provisioning
    handle_state_provisioning_wait handle_state_available handle_state_maintenance
    handle_state_in_use handle_state_cleaning handle_state_cleaning_wait handle_state_delete
visit-FollowsFrom state_none ctx cir w p = ground arith
visit-FollowsFrom _ ctx cir w p = ground arith

-- A run of `Process` that returns no error moves the resource along an edge of the diagram if it
-- raises the status flag, and leaves the state as it was if it does not.
pub process-Follows :
    {W : Type 0} (factories : Factories W) (util : ControllerUtil) (now : Time) (pool : CiPool)
    (secret : SecretData) (cir : CiResource) (w : W) (p : Processed)
    → (run factories util now pool secret cir w).0 ≡ ok p
    → Follows cir (run factories util now pool secret cir w).1.cir p
process-Follows f u now pool secret cir w p h =
    let (provider, w', e) = run-visit f u now pool secret cir w p h in
    rw e (visit-FollowsFrom cir.status.state _ cir w' p (rw e at h))
