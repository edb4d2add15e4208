-- ===== src/Fsm/Release.antt =====
-- controllers/ciresource_fsm.go: when a provider's resource is given back, and when it is not.
use ofcir.Prelude.{
  ◌≡◌, Bool, true, false, ◌&&◌, ◌||◌, Outcome, ok, err, panic, arith, str_eq, if◌then◌else◌,
}
use ofcir.Api.{CiResource, delete, cleaning, is_fallback_pool, ofcir_finalizer}
use ofcir.Provider.{as_resource_not_found}
use ofcir.Fsm.Machine.{Context, fallback_resource_id}
use ofcir.Fsm.Handlers.{
  new_ciresource_fsm, handle_state_delete, handle_state_cleaning, drop_finalizer,
}
use ofcir.Fsm.Process.{start, select}
use ofcir.Fsm.Table.{visit}

-- No error, or one that says that there is no such resource.
abbrev pub is_gone : Outcome (Unit {0}) → Bool
is_gone (ok _) = true
is_gone (err e) = as_resource_not_found e
is_gone panic = false

abbrev pub is_ok {ℓ} : {A : Type ℓ} → Outcome A → Bool
is_ok (ok _) = true
is_ok (err _) = false
is_ok panic = false

module _ {W : Type 0} (ctx : Context W) (cir : CiResource) (w : W) where
  -- the resource is the placeholder of a fallback pool
  abbrev pub is_placeholder : Bool
  is_placeholder = is_fallback_pool ctx.pool && str_eq cir.status.resource_id fallback_resource_id

  -- the provider gives the resource back, or does not know it
  abbrev pub is_released : Bool
  is_released = is_gone (ctx.provider.release cir.status.resource_id w).0

  -- A resource in the state `delete` that holds the finalizer: the run returns no error exactly
  -- when the resource is a placeholder, or the provider released it or does not know it. The
  -- finalizer is dropped, with the resource flag raised, exactly then; otherwise the resource is
  -- left as it was.
  pub delete_exact :
      ctx.util.contains_finalizer cir.meta ofcir_finalizer ≡ true
      → (is_ok (visit delete ctx (start cir w)).0 ≡ (is_placeholder || is_released))
        × ((is_placeholder || is_released) ≡ true
            → ((visit delete ctx (start cir w)).1.cir ≡ drop_finalizer ctx.util cir)
              × ((visit delete ctx (start cir w)).1.resource_dirty ≡ true))
        × ((is_placeholder || is_released) ≡ false
            → ((visit delete ctx (start cir w)).1.cir ≡ cir)
              × ((visit delete ctx (start cir w)).1.resource_dirty ≡ false))
  unfolding select new_ciresource_fsm handle_state_delete
  delete_exact h = ground arith

  -- In a fallback pool, cleaning gives the resource back unless it is the placeholder, and makes
  -- it the placeholder again, with no address, exactly when that succeeds or the provider does not
  -- know it. Otherwise the resource is left as it was. Either way the only call of the provider is
  -- this one `Release`, and there is none for the placeholder: the provider's state is the one that
  -- the release leaves.
  pub cleaning_fallback :
      is_fallback_pool ctx.pool ≡ true
      → (is_ok (visit cleaning ctx (start cir w)).0 ≡ (is_placeholder || is_released))
        × ((is_placeholder || is_released) ≡ true
            → ((visit cleaning ctx (start cir w)).1.cir.status.resource_id ≡ fallback_resource_id)
              × ((visit cleaning ctx (start cir w)).1.cir.status.address ≡ ""))
        × ((is_placeholder || is_released) ≡ false → (visit cleaning ctx (start cir w)).1.cir ≡ cir)
        × ((visit cleaning ctx (start cir w)).1.world
            ≡ (if is_placeholder then w else (ctx.provider.release cir.status.resource_id w).1))
  unfolding select new_ciresource_fsm handle_state_cleaning
  cleaning_fallback h = ground arith
