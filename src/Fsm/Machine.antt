-- ===== src/Fsm/Machine.antt =====
-- controllers/ciresource_fsm.go, from `CIResourceFSMHandler` on: states, transitions and events.
-- The `*CIResource` that the handlers share and change is a field of the machine.
use ofcir.Prelude.{
  ℕ, ◌*◌, ◌^◌, String, str_eq, Bool, true, false, not, List, [], ◌∷◌, Option, none, some, Exec,
  raise, modify, ok, err, errorf, if◌then◌else◌,
}
use ofcir.Api.{Time, CiResource, CiPool, CiResourceState, ObjectMeta, state_eq, set_state}
use ofcir.Provider.{Provider}

-- The three functions of controller-runtime's `controllerutil` that the program calls.
pub record ControllerUtil : Type 0 where
  pub contains_finalizer : ObjectMeta → String → Bool
  pub add_finalizer : ObjectMeta → String → ObjectMeta
  pub remove_finalizer : ObjectMeta → String → ObjectMeta

abbrev pub second : ℕ
second = 10 ^ 9

abbrev pub default_cir_retry_delay : ℕ
default_cir_retry_delay = 60 * second

abbrev pub default_cir_provisioning_wait_delay : ℕ
default_cir_provisioning_wait_delay = 30 * second

abbrev pub default_cipool_retry_delay : ℕ
default_cipool_retry_delay = 60 * second

abbrev pub fallback_resource_id : String
fallback_resource_id = "000-fallback-dummy-000"

-- `CIResourceFSMContext` without its `CIResource`; `now` is the clock while the handler runs.
pub record Context (W : Type 0) : Type 0 where
  pub pool : CiPool
  pub provider : Provider W
  pub util : ControllerUtil
  pub now : Time

abbrev pub Guard : Type 0 → Type 0
Guard W = CiResource → Context W → Bool

pub record FsmTransition (W : Type 0) : Type 0 where
  pub event_id : String
  pub dst : CiResourceState
  pub guard : Option (Guard W)

-- A Go map from event ids.
abbrev pub Transitions : Type 0 → Type 0
Transitions W = String → Option (FsmTransition W)

-- What an invocation changes. `transitions` is `currentState`'s, `none` for the nil pointer.
pub record Machine (W : Type 0) : Type 0 where
  pub cir : CiResource
  pub transitions : Option (Transitions W)
  pub status_dirty : Bool
  pub resource_dirty : Bool
  pub world : W

-- `CIResourceFSMHandler`: the delay before a retry, or an error
abbrev pub Handler : Type 0 → Type 0
Handler W = Context W → Exec (Machine W) ℕ

pub record FsmState (W : Type 0) : Type 0 where
  pub id : CiResourceState
  pub transitions : Transitions W
  pub on_entry : Handler W

-- The part of `CIResourceFSM` that is fixed before `Process` runs.
pub record Fsm (W : Type 0) : Type 0 where
  pub states : CiResourceState → Option (FsmState W)
  pub before_any_state : Option (Handler W)

module _ {W : Type 0} where
  -- a provider's call, within a handler
  abbrev pub on_world : {A : Type 0} → Exec W A → Exec (Machine W) A
  on_world m s = let (r, w) = m s.world in (r, record s { world = w })

  abbrev pub change : (CiResource → CiResource) → Exec (Machine W) (Unit {0})
  change f = modify (λ s. record s { cir = f s.cir })

  -- `Transition` with no guard
  unfoldable pub transition : String → CiResourceState → FsmTransition W
  transition event_id dst = record { event_id = event_id; dst = dst; guard = none }

  -- the loop of `State`: the last transition of an event counts
  unfoldable pub collect : Transitions W → List (FsmTransition W) → Transitions W
  collect m [] = m
  collect m (t ∷ ts) = collect (λ name. if str_eq t.event_id name then some t else m name) ts

  abbrev pub entry : CiResourceState → Handler W → List (FsmTransition W) → FsmState W
  entry id on_entry ts = record {
    id = id;
    transitions = collect (λ name. none) ts;
    on_entry = on_entry;
  }

  -- `CIResourceFSM.State`
  unfoldable pub add_state : CiResourceState → Handler W → List (FsmTransition W) → Fsm W → Fsm W
  unfolding collect
  add_state id on_entry ts f = record f {
    states = λ s. if state_eq id s then some (entry id on_entry ts) else f.states s;
  }

  -- `CIResourceFSM.BeforeAnyState`
  unfoldable pub before_any_state : Handler W → Fsm W → Fsm W
  before_any_state h f = record f { before_any_state = some h }

  abbrev pub denies : Option (Guard W) → CiResource → Context W → Bool
  denies none c ctx = false
  denies (some g) c ctx = not (g c ctx)

  -- the end of `TriggerEvent`, where the event is known
  unfoldable pub follow : Option (FsmTransition W) → String → Handler W
  follow none name ctx s = (err (errorf "event not found: %s" (name ∷ [])), s)
  follow (some t) name ctx s =
      if denies t.guard s.cir ctx then (ok default_cir_retry_delay, s) else (
        ok default_cir_retry_delay,
        record s { cir = set_state t.dst s.cir; status_dirty = true },
      )

  abbrev event_of : Option (Transitions W) → String → Handler W
  unfolding follow
  event_of none name ctx = raise (errorf "no state selected" [])
  event_of (some ts) name ctx = follow (ts name) name ctx

  -- `CIResourceFSM.TriggerEvent`
  unfoldable pub trigger_event : String → Handler W
  unfolding event_of
  trigger_event name ctx s = event_of s.transitions name ctx s

  -- `CIResourceFSM.UpdateResourceOnly`
  unfoldable pub update_resource_only : Exec (Machine W) ℕ
  update_resource_only s = (ok default_cir_retry_delay, record s { resource_dirty = true })
