-- ===== src/Fsm/Table.antt =====
-- The states that `NewCIResourceFSM` declares, one by one, and the handler that `Process` enters.
use ofcir.Prelude.{◌≡◌, refl, Exec, Outcome, ok, err, panic, Option, none, some, [], ◌∷◌, Error}
use ofcir.Api.{
  Time, CiResource, CiPool, CiResourceState, state_none, provisioning, provisioning_wait, available,
  in_use, maintenance, cleaning, cleaning_wait, delete, error, other, state_eq,
}
use ofcir.Provider.{Provider, SecretData, Factories, new_provider}
use ofcir.Fsm.Machine.{ControllerUtil, Context, Machine, FsmState, entry, transition}
use ofcir.Fsm.Handlers.{
  new_ciresource_fsm, handle_state_none, handle_state_provisioning, handle_state_provisioning_wait,
  handle_state_available, handle_state_maintenance, handle_state_in_use, handle_state_cleaning,
  handle_state_cleaning_wait, handle_state_delete,
}
use ofcir.Fsm.Process.{Processed, start, select, process}

module _ {W : Type 0} where
  -- what `NewCIResourceFSM` enters for each state
  abbrev pub table : CiResourceState → Option (FsmState W)
  table state_none = some (entry state_none handle_state_none (transition "init" provisioning ∷ []))
  table provisioning = some (
      entry provisioning handle_state_provisioning (
        transition "on-provisioning-requested" provisioning_wait
        ∷ transition "fallback-available" available
        ∷ []))
  table provisioning_wait = some (
      entry provisioning_wait handle_state_provisioning_wait
        (transition "on-provisioning-complete" available ∷ []))
  table available = some (
      entry available handle_state_available (
        transition "on-maintenance" maintenance
        ∷ transition "acquired" in_use
        ∷ transition "on-delete" delete
        ∷ []))
  table maintenance = some (
      entry maintenance handle_state_maintenance
        (transition "on-maintenance-complete" available ∷ transition "on-delete" delete ∷ []))
  table in_use = some (
      entry in_use handle_state_in_use
        (transition "released" cleaning ∷ transition "fallback-provisioning" provisioning ∷ []))
  table cleaning =
      some (
        entry cleaning handle_state_cleaning
          (transition "on-cleaning-requested" cleaning_wait ∷ []))
  table cleaning_wait = some (
      entry cleaning_wait handle_state_cleaning_wait
        (transition "on-cleaning-complete" available ∷ []))
  table delete = some (entry delete handle_state_delete [])
  table error = none
  table (other s) = none

  states-eq-table : (st : CiResourceState) → new_ciresource_fsm.states st ≡ table st
  unfolding new_ciresource_fsm state_eq
  states-eq-table state_none = refl
  states-eq-table _ = refl

  abbrev pub visit : CiResourceState → Context W → Exec (Machine W) Processed
  visit st ctx = select new_ciresource_fsm (table st) st ctx

module _ {W : Type 0} (factories : Factories W) (util : ControllerUtil) (now : Time) (pool : CiPool)
    (secret : SecretData) (cir : CiResource) (w : W) where
  -- `Process` of a new state machine, on one resource
  abbrev pub run : Outcome Processed × Machine W
  run = process factories util now new_ciresource_fsm pool secret (start cir w)

  abbrev pub context : Provider W → Context W
  context provider = record { pool = pool; provider = provider; util = util; now = now }

  pub run_provided :
      (provider : Provider W) (w' : W)
      → new_provider factories pool secret w ≡ (ok provider, w')
      → run ≡ visit cir.status.state (context provider) (start cir w')
  unfolding process
  run_provided provider w' h = rw h (rw states-eq-table refl)

  pub run_refused :
      (e : Error) (w' : W)
      → new_provider factories pool secret w ≡ (err e, w')
      → (p : Processed) → ¬ (run.0 ≡ ok p)
  unfolding process
  run_refused e w' h p = rw h (λ q. cc)

  pub run_crashed :
      (w' : W)
      → new_provider factories pool secret w ≡ (panic, w')
      → (p : Processed) → ¬ (run.0 ≡ ok p)
  unfolding process
  run_crashed w' h p = rw h (λ q. cc)

  -- a run that returns has visited the handler of the resource's state, with some provider
  pub run-visit :
      (p : Processed)
      → run.0 ≡ ok p
      → (provider : Provider W) × (w' : W) × (run
          ≡ visit cir.status.state (context provider) (start cir w'))
  run-visit p h =
      go (new_provider factories pool secret w).0 (new_provider factories pool secret w).1 refl
    where
      go :
          (r : Outcome (Provider W)) (w' : W)
          → new_provider factories pool secret w ≡ (r, w')
          → (provider : Provider W) × (w' : W) × (run
              ≡ visit cir.status.state (context provider) (start cir w'))
      go (ok provider) w' e = (provider, w', run_provided provider w' e)
      go (err x) w' e = absurd (run_refused x w' e p h)
      go panic w' e = absurd (run_crashed w' e p h)
