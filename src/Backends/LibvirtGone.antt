-- ===== src/Backends/LibvirtGone.antt =====
-- pkg/providers/libvirt.go with controllers/ciresource_fsm.go: a machine that libvirt no longer has.
use ofcir.Prelude.{
  String, ◌≡◌, refl, true, false, ◌||◌, ◌∙◌, some, Error, ok, err, arith, resource_not_found, wrapf,
  [],
}
use ofcir.Api.{CiResource, cleaning, delete, ofcir_finalizer, is_fallback_pool}
use ofcir.Provider.{as_resource_not_found}
use ofcir.Fsm.Machine.{Context}
use ofcir.Fsm.Handlers.{drop_finalizer, new_ciresource_fsm, handle_state_cleaning}
use ofcir.Fsm.Process.{start, select}
use ofcir.Fsm.Table.{visit}
use ofcir.Fsm.Release.{is_gone, is_ok, is_placeholder, is_released, delete_exact}
use ofcir.Backends.Libvirt.{LibvirtProviderConfig, Libvirt}
use ofcir.Backends.LibvirtProvider.{missing_domain, destroy_vm, clean, release, libvirt_provider}

module _ {W : Type 0} (lv : Libvirt W) (config : LibvirtProviderConfig) (id : String) (e : Error)
    (w w' w'' : W) (connected : lv.connect w ≡ (ok tt, w'))
    (missing : lv.lookup_domain_by_name id w' ≡ (err e, w'')) where
  missing_domain_eq :
      lv.code e ≡ some lv.err_no_domain
      → missing_domain lv config id e w'' ≡ (err (resource_not_found id), w'')
  missing_domain_eq h = ground arith

  release-is_gone : lv.code e ≡ some lv.err_no_domain → is_gone (release lv config id w).0 ≡ true
  unfolding release destroy_vm as_resource_not_found
  release-is_gone h = rw (connected, missing, missing_domain_eq h) refl

  clean-eq-err : clean lv config id w ≡ (err (wrapf "error in domain lookup" [] e), lv.close w'')
  unfolding clean
  clean-eq-err = rw (connected, missing) refl

module _ {W : Type 0} (lv : Libvirt W) (config : LibvirtProviderConfig) (ctx : Context W)
    (cir : CiResource) (e : Error) (w w' w'' : W)
    (provided : ctx.provider ≡ libvirt_provider lv config) (connected : lv.connect w ≡ (ok tt, w'))
    (missing : lv.lookup_domain_by_name cir.status.resource_id w' ≡ (err e, w'')) where
  deletion_completes :
      lv.code e ≡ some lv.err_no_domain
      → ctx.util.contains_finalizer cir.meta ofcir_finalizer ≡ true
      → (is_ok (visit delete ctx (start cir w)).0 ≡ true)
        × ((visit delete ctx (start cir w)).1.cir ≡ drop_finalizer ctx.util cir)
        × ((visit delete ctx (start cir w)).1.resource_dirty ≡ true)
  deletion_completes h k =
      let gone : is_gone (ctx.provider.release cir.status.resource_id w).0 ≡ true =
        rw provided
          (release-is_gone lv config cir.status.resource_id e w w' w'' connected missing h) in
      let done : (is_placeholder ctx cir w || is_released ctx cir w) ≡ true =
        rw gone (ground arith) in
      let exact = delete_exact ctx cir w k in (exact.0 ∙ done, (exact.1 done).0, (exact.1 done).1)

  -- Where libvirt answers that it has no domain with the id of a resource, in a pool that is no
  -- fallback pool. The deletion of the resource, if it holds the finalizer, returns no error and
  -- drops the finalizer. Its cleaning returns an error, no panic, and leaves the resource as it
  -- was, so in the state `cleaning`; and it makes no machine: nothing is done to libvirt but to
  -- connect, look up the domain, and close the connection.
  pub missing_machine :
      lv.code e ≡ some lv.err_no_domain
      → is_fallback_pool ctx.pool ≡ false
      → ((ctx.util.contains_finalizer cir.meta ofcir_finalizer ≡ true)
          → (is_ok (visit delete ctx (start cir w)).0 ≡ true)
            × ((visit delete ctx (start cir w)).1.cir ≡ drop_finalizer ctx.util cir)
            × ((visit delete ctx (start cir w)).1.resource_dirty ≡ true))
        × ((visit cleaning ctx (start cir w)).0 ≡ err (wrapf "error in domain lookup" [] e))
        × ((visit cleaning ctx (start cir w)).1.cir ≡ cir)
        × ((visit cleaning ctx (start cir w)).1.world ≡ lv.close w'')
  unfolding select new_ciresource_fsm handle_state_cleaning
  missing_machine h f =
      let id = cir.status.resource_id in
      let failed : ctx.provider.clean id w
          ≡ (err (wrapf "error in domain lookup" [] e), lv.close w'') =
        rw provided (clean-eq-err lv config id e w w' w'' connected missing) in
      (λ k. deletion_completes h k, rw (f, failed) refl, rw (f, failed) refl, rw (f, failed) refl)
