-- ===== src/Pool/Control.antt =====
-- controllers/cipool_controller.go: `manageCIResourcesFor` and `Reconcile`.
use ofcir.Prelude.{
  ℕ, ◌*◌, ℤ, pos, pos_part, ltb, ltb_ℤ, eq_ℤ, ◌+ℤ◌, ◌-ℤ◌, String, Bool, false, not, List, [], ◌∷◌,
  length, Exec, Error, Outcome, ok, err, panic, pure, raise, errorf, ◌>>=◌, ◌>>◌, catch,
  if◌then◌else◌, is_nil,
}
use ofcir.Prelude.Sorting.{sort_stable}
use ofcir.Api.{
  CiResource, CiPool, CiPoolState, pool_offline, pool_other, pool_state_eq, ofcir_finalizer,
}
use ofcir.Provider.{SecretData}
use ofcir.Fsm.Machine.{ControllerUtil, second, default_cipool_retry_delay}
use ofcir.Kube.{Client}
use ofcir.Resource.{no_secret, secret_name}
use ofcir.Pool.{
  of_pool, by_name, get_highest_resource_numeral, delete_ciresources, create_loop, save_pool_status,
}

module _ {C : Type 0} (client : Client C) where
  -- `len(poolCirs)`
  abbrev pub count : List CiResource → ℤ
  count cirs = pos (length cirs)

  -- the end of `manageCIResourcesFor`, where the pool's status has the number of resources
  unfoldable pub resize : List CiResource → List CiResource → CiPool → Exec C Bool
  resize all_cirs pool_cirs pool =
      if eq_ℤ pool.spec.size (count pool_cirs)
      then pure false
      else if ltb_ℤ (count pool_cirs) pool.spec.size
      then (let missing = pool.spec.size -ℤ count pool_cirs in
          let base = get_highest_resource_numeral all_cirs +ℤ pos 1 in
          do
            n ← create_loop client (pos_part missing) pool base (base +ℤ missing) 0
            pure (ltb 0 n))
      else (do
        n ← delete_ciresources client pool.spec.size pool_cirs pool.meta.namespace
        pure (ltb 0 n))

  unfoldable pub update_size : List CiResource → CiPool → Exec C CiPool
  update_size pool_cirs pool =
      if eq_ℤ pool.status.size (count pool_cirs)
      then pure pool
      else save_pool_status client
          (record pool { status = record pool.status { size = count pool_cirs } })

  -- `manageCIResourcesFor`
  unfoldable pub manage_ciresources_for : CiPool → Exec C Bool
  manage_ciresources_for pool = do
    listed ← client.list_cirs pool.meta.namespace
    let all_cirs = sort_stable by_name listed
    let pool_cirs = of_pool pool.meta.name all_cirs
    pool' ← update_size pool_cirs pool
    resize all_cirs pool_cirs pool'

  -- where the requested state is not the observed one
  unfoldable pub change_state : CiPoolState → CiPool → Exec C ℕ
  change_state (pool_other s) pool = raise (errorf "invalid state: %s" (s ∷ []))
  change_state st pool = do
    save_pool_status client (record pool { status = record pool.status { state = st } })
    pure 0

  -- the secret's `Get`, whose result the pool's reconciliation does not use
  abbrev ignore_missing : Error → Exec C SecretData
  ignore_missing e = if client.is_not_found e then pure no_secret else raise e

  unfoldable pub reconcile_active : CiPool → Exec C ℕ
  reconcile_active pool =
      if not (pool_state_eq pool.status.state pool.spec.state)
      then change_state pool.spec.state pool
      else if pool_state_eq pool.status.state pool_offline
      then pure default_cipool_retry_delay
      else (do
        catch (client.get_secret pool.meta.namespace (secret_name pool.meta.name)) ignore_missing
        is_dirty ← manage_ciresources_for pool
        pure (if is_dirty then second else default_cipool_retry_delay))

module _ {C : Type 0} (client : Client C) (util : ControllerUtil) where
  -- The branch for a pool that is to be deleted. The error of `List` is dropped, and leaves the
  -- list of resources empty.
  unfoldable pub reconcile_deleted : CiPool → Exec C ℕ
  reconcile_deleted pool = do
    listed ← catch (client.list_cirs pool.meta.namespace) (λ e. pure [])
    let pool_cirs = of_pool pool.meta.name listed
    if ltb 0 (length pool_cirs)
        then delete_ciresources client (pos 0) pool_cirs pool.meta.namespace >> pure (10 * second)
        else if util.contains_finalizer pool.meta ofcir_finalizer
        then client.update_pool
            (record pool { meta = util.remove_finalizer pool.meta ofcir_finalizer })
          >> pure 0
        else pure 0

  unfoldable pub reconcile_pool : CiPool → Exec C ℕ
  reconcile_pool pool =
      if not (is_nil pool.meta.deletion_timestamp)
      then reconcile_deleted pool
      else if not (util.contains_finalizer pool.meta ofcir_finalizer)
      then client.update_pool (record pool { meta = util.add_finalizer pool.meta ofcir_finalizer })
        >> pure 0
      else reconcile_active client pool

  abbrev fetched : Outcome CiPool → Exec C ℕ
  fetched (ok pool) s = reconcile_pool pool s
  fetched (err e) s =
      if client.is_not_found e then (ok 0, s) else (ok default_cipool_retry_delay, s)
  fetched panic s = (panic, s)

  -- `CIPoolReconciler.Reconcile`: the delay before the next one, 0 for an empty result
  unfoldable pub reconcile : String → String → Exec C ℕ
  reconcile namespace name s = let (r, s') = client.get_pool namespace name s in fetched r s'
