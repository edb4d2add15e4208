-- ===== src/Fsm/Safety.antt =====
-- controllers/ciresource_fsm.go: when a run of a handler panics or returns an error.
use ofcir.Prelude.{
  ◌≡◌, ℤ, String, Bool, true, false, not, ◌&&◌, ◌||◌, if◌then◌else◌, is_nil, Outcome, ok, err,
  panic, arith,
}
use ofcir.Api.{
  CiResource, CiResourceState, state_none, provisioning, provisioning_wait, in_use, cleaning,
  cleaning_wait, delete, error, other, state_eq, is_fallback_pool, ofcir_finalizer,
}
use ofcir.Provider.{Provider}
use ofcir.Fsm.Machine.{Context}
use ofcir.Fsm.Handlers.{
  new_ciresource_fsm, handle_state_none, handle_state_provisioning, handle_state_provisioning_wait,
  handle_state_available, handle_state_maintenance, handle_state_in_use, handle_state_cleaning,
  handle_state_cleaning_wait, handle_state_delete,
}
use ofcir.Fsm.Process.{start, select}
use ofcir.Fsm.Table.{visit}
use ofcir.Fsm.Release.{is_ok, is_placeholder, is_released}

abbrev pub panics {ℓ} : {A : Type ℓ} → Outcome A → Bool
panics (ok _) = false
panics (err _) = false
panics panic = true

-- no call of the provider panics
pub record IsCalm {W : Type 0} (q : Provider W) : Type 0 where
  pub acquire : (n : ℤ) (a b : String) (w : W) → panics (q.acquire n a b w).0 ≡ false
  pub acquire_completed : (id : String) (w : W) → panics (q.acquire_completed id w).0 ≡ false
  pub clean : (id : String) (w : W) → panics (q.clean id w).0 ≡ false
  pub clean_completed : (id : String) (w : W) → panics (q.clean_completed id w).0 ≡ false
  pub release : (id : String) (w : W) → panics (q.release id w).0 ≡ false

-- A resource in use has been written with a time.
abbrev pub is_dated : CiResourceState → CiResource → Bool
is_dated in_use cir = not (is_nil cir.status.last_updated)
is_dated _ cir = true

module _ {W : Type 0} (ctx : Context W) (cir : CiResource) (w : W) where
  -- A run over a resource whose last update is known while it is in use does not panic, unless
  -- the provider does.
  pub visit_calm :
      (st : CiResourceState)
      → IsCalm ctx.provider
      → is_dated st cir ≡ true
      → panics (visit st ctx (start cir w)).0 ≡ false
  unfolding select new_ciresource_fsm handle_state_none handle_state_provisioning
      handle_state_provisioning_wait handle_state_available handle_state_maintenance
      handle_state_in_use handle_state_cleaning handle_state_cleaning_wait handle_state_delete
  visit_calm state_none c h = ground arith
  visit_calm provisioning c h =
      ground (arith, c.acquire ctx.pool.spec.size ctx.pool.meta.name ctx.pool.spec.type_ w)
  visit_calm provisioning_wait c h = ground (arith, c.acquire_completed cir.status.resource_id w)
  visit_calm cleaning c h =
      ground (arith, c.clean cir.status.resource_id w, c.release cir.status.resource_id w)
  visit_calm cleaning_wait c h = ground (arith, c.clean_completed cir.status.resource_id w)
  visit_calm delete c h = ground (arith, c.release cir.status.resource_id w)
  visit_calm _ c h = ground arith

  -- the one call of the provider that the state's handler makes, if it makes one, succeeds; and
  -- there is a handler
  abbrev pub is_answered : CiResourceState → Bool
  is_answered provisioning =
      (is_fallback_pool ctx.pool && not (state_eq cir.spec.state in_use))
      || is_ok (ctx.provider.acquire ctx.pool.spec.size ctx.pool.meta.name ctx.pool.spec.type_ w).0
  is_answered provisioning_wait = is_ok (ctx.provider.acquire_completed cir.status.resource_id w).0
  is_answered cleaning =
      if is_fallback_pool ctx.pool
      then is_placeholder ctx cir w || is_released ctx cir w
      else is_ok (ctx.provider.clean cir.status.resource_id w).0
  is_answered cleaning_wait =
      is_fallback_pool ctx.pool || is_ok (ctx.provider.clean_completed cir.status.resource_id w).0
  is_answered delete =
      not (ctx.util.contains_finalizer cir.meta ofcir_finalizer)
      || (is_placeholder ctx cir w || is_released ctx cir w)
  is_answered error = false
  is_answered (other s) = false
  is_answered _ = true
