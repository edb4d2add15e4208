-- ===== src/Pool/Removal.antt =====
-- controllers/cipool_controller.go: the deletion of a pool.
use ofcir.Prelude.{
  ◌*◌, ◌<◌, ltb, pos, String, ◌≡◌, true, false, Error, ok, err, List, length, state-continue-pure,
  arith,
}
use ofcir.Api.{CiResource, CiPool, eviction_label, ofcir_finalizer}
use ofcir.Fsm.Machine.{ControllerUtil, second}
use ofcir.Kube.{Client}
use ofcir.Pool.{of_pool, is_evictable, is_labelled, add_label, delete_ciresources}
use ofcir.Pool.Eviction.{delete_ciresources-keeps}
use ofcir.Pool.Control.{reconcile_deleted}

module _ {C : Type 0} (client : Client C) (util : ControllerUtil) (pool : CiPool) (c : C) where
  -- While the list of resources shows one of the pool, a reconciliation of a pool that is to be
  -- deleted keeps every property that neither the labelling of an evictable resource nor the batch
  -- deletion can break: it does not update the pool, so the finalizer stays.
  pub deletion_waits :
      (Inv : C → Type 0)
      → ((cir : CiResource) (c : C)
          → is_evictable cir.status.state ≡ true
          → is_labelled cir ≡ false
          → Inv c
          → Inv (client.update_cir (add_label cir) c).1)
      → ((ns : String) (c : C) → Inv c → Inv (client.delete_all_cirs ns eviction_label c).1)
      → (listed : List CiResource) (c' : C)
      → client.list_cirs pool.meta.namespace c ≡ (ok listed, c')
      → 0 < length (of_pool pool.meta.name listed)
      → Inv c'
      → Inv (reconcile_deleted client util pool c).1
  unfolding reconcile_deleted
  deletion_waits Inv label remove listed c' e more h =
      let pool_cirs = of_pool pool.meta.name listed in
      let ns = pool.meta.namespace in
      let t : ltb 0 (length pool_cirs) ≡ true = ground arith in
      let (r, c'') = delete_ciresources client (pos 0) pool_cirs ns c' in
      rw (e, t)
        (rw (state-continue-pure r (10 * second) c'')
          (delete_ciresources-keeps client Inv label remove (pos 0) pool_cirs ns c' h))

  -- If `List` fails, a pool that is to be deleted is treated as one without resources: the
  -- reconciliation goes on to drop the pool's finalizer.
  pub deletion_after_list_error :
      (e : Error) (c' c'' : C) (written : CiPool)
      → client.list_cirs pool.meta.namespace c ≡ (err e, c')
      → util.contains_finalizer pool.meta ofcir_finalizer ≡ true
      → client.update_pool
          (record pool { meta = util.remove_finalizer pool.meta ofcir_finalizer })
          c'
        ≡ (ok written, c'')
      → reconcile_deleted client util pool c ≡ (ok 0, c'')
  unfolding reconcile_deleted
  deletion_after_list_error e c' c'' written l f u = rw l (ground arith)
