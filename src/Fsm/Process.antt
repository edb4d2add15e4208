-- ===== src/Fsm/Process.antt =====
-- controllers/ciresource_fsm.go: `Process`.
use ofcir.Prelude.{
  ℕ, ◌==◌, Bool, false, [], ◌∷◌, Option, none, some, Exec, pure, raise, errorf, wrapping, gets,
  modify, ◌>>=◌, ◌>>◌, if◌then◌else◌,
}
use ofcir.Api.{Time, CiResource, CiPool, CiResourceState, state_string}
use ofcir.Provider.{SecretData, Factories, new_provider}
use ofcir.Fsm.Machine.{ControllerUtil, Context, Machine, Handler, Fsm, FsmState, on_world}

-- What `Process` returns: the two dirty flags and the delay.
pub record Processed : Type 0 where
  pub resource_dirty : Bool
  pub status_dirty : Bool
  pub retry_after : ℕ

module _ {W : Type 0} where
  -- the machine that a new `CIResourceFSM` has before `Process`
  abbrev pub start : CiResource → W → Machine W
  start cir w = record {
    cir = cir;
    transitions = none;
    status_dirty = false;
    resource_dirty = false;
    world = w;
  }

  -- a delay other than 0 from the main handler stops the run with an error around nil
  abbrev main_handler : Option (Handler W) → Context W → Exec (Machine W) (Unit {0})
  main_handler none ctx = pure tt
  main_handler (some h) ctx = do
    retry_after ← wrapping "error in main handler" [] (h ctx)
    if retry_after == 0 then pure tt else raise (errorf "error in main handler: %!w(<nil>)" [])

  unfoldable pub enter : Option (Handler W) → FsmState W → Context W → Exec (Machine W) Processed
  enter before st ctx = do
    modify (λ s. record s { transitions = some st.transitions })
    main_handler before ctx
    retry_after ← st.on_entry ctx
    gets (λ s. record {
      resource_dirty = s.resource_dirty;
      status_dirty = s.status_dirty;
      retry_after = retry_after;
    })

  unfoldable pub select :
      Fsm W → Option (FsmState W) → CiResourceState → Context W → Exec (Machine W) Processed
  unfolding enter state_string
  select fsm none state ctx = raise (errorf "state not found: %s" (state_string state ∷ []))
  select fsm (some st) state ctx = enter fsm.before_any_state st ctx

  -- `CIResourceFSM.Process`, on the machine's CIResource
  unfoldable pub process :
      Factories W → ControllerUtil → Time → Fsm W → CiPool → SecretData → Exec (Machine W) Processed
  unfolding select new_provider
  process factories util now fsm pool secret = do
    provider ←
        wrapping "error in provider factory" [] (on_world (new_provider factories pool secret))
    cir ← gets (λ s. s.cir)
    select fsm (fsm.states cir.status.state) cir.status.state
        (record { pool = pool; provider = provider; util = util; now = now })
