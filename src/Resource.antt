-- ===== src/Resource.antt =====
-- controllers/ciresource_controller.go: the reconciliation of a CIResource.
pub mod Stored
pub mod Asked
pub mod Answering
pub mod Returned
use ofcir.Prelude.{
  ℕ, String, Bool, true, false, Option, none, some, Exec, Error, Outcome, ok, err, panic, pure,
  raise, crash, gets, ◌>>=◌, ◌>>◌, catch, if◌then◌else◌,
}
use ofcir.Prelude.Texts.{concat}
use ofcir.Api.{Time, CiResource, CiPool}
use ofcir.Provider.{SecretData}
use ofcir.Fsm.Machine.{Machine}
use ofcir.Fsm.Handlers.{new_ciresource_fsm}
use ofcir.Fsm.Process.{Processed, start, process}
use ofcir.Kube.{Client, World, Env, on_cluster}

-- a nil `Secret.Data`
abbrev pub no_secret : SecretData
no_secret key = none

abbrev pub secret_name : String → String
secret_name pool = concat pool "-secret"

module _ {C P : Type 0} (env : Env C P) where
  -- the secret's `Get`, where a missing secret is an empty one
  abbrev or_no_secret : Error → Exec (World C P) SecretData
  or_no_secret e = if env.client.is_not_found e then pure no_secret else raise e

  -- `getPool` after the pool was read
  abbrev pub secret_of : CiPool → Exec (World C P) (CiPool × SecretData)
  secret_of pool = do
    secret ←
        catch (on_cluster (env.client.get_secret pool.meta.namespace (secret_name pool.meta.name)))
          or_no_secret
    pure (pool, secret)

  -- `getPool`
  unfoldable pub get_pool : CiResource → Exec (World C P) (CiPool × SecretData)
  get_pool cir = do
    pool ← on_cluster (env.client.get_pool cir.meta.namespace cir.spec.pool_ref)
    secret_of pool

  -- `updateResource`
  unfoldable pub update_resource : CiResource → Exec (World C P) CiResource
  update_resource cir = on_cluster (env.client.update_cir cir)

  -- `updateStatus`
  unfoldable pub update_status : CiResource → Exec (World C P) CiResource
  update_status cir = do
    t ← gets (λ s. env.client.clock s.cluster)
    on_cluster (
        env.client.update_cir_status
          (record cir { status = record cir.status { last_updated = some t } }))

  abbrev result_of : Outcome Processed → CiResource → Outcome (Processed × CiResource)
  result_of (ok p) cir = ok (p, cir)
  result_of (err e) cir = err e
  result_of panic cir = panic

  -- `fsm.Process`, which changes the resource in place
  unfoldable pub run_fsm :
      CiPool → SecretData → CiResource → Exec (World C P) (Processed × CiResource)
  run_fsm pool secret cir s =
      let now = env.client.clock s.cluster in
      let (r, m) =
        process env.factories env.util now new_ciresource_fsm pool secret (start cir s.outside) in
      (result_of r m.cir, record s { outside = m.world })

  -- the write that the flags ask for
  unfoldable pub save : Processed → CiResource → Exec (World C P) CiResource
  unfolding update_resource update_status
  save p cir =
      if p.resource_dirty
      then update_resource cir
      else if p.status_dirty
      then update_status cir
      else pure cir

  -- `Reconcile` after the resource was read
  unfoldable pub reconcile_cir : CiResource → Exec (World C P) ℕ
  reconcile_cir cir = do
    (pool, secret) ← get_pool cir
    (p, cir') ← run_fsm pool secret cir
    save p cir'
    pure p.retry_after

  -- an error of `Get`, not found or not, ends the reconciliation with an empty result
  abbrev fetched : Outcome CiResource → Exec (World C P) ℕ
  unfolding reconcile_cir
  fetched (ok cir) s = reconcile_cir cir s
  fetched (err e) s = if env.client.is_not_found e then (ok 0, s) else (ok 0, s)
  fetched panic s = (panic, s)

  -- `CIResourceReconciler.Reconcile`: the delay before the next one, 0 for an empty result
  unfoldable pub reconcile : String → String → Exec (World C P) ℕ
  unfolding fetched
  reconcile namespace name s =
      let (r, s') = on_cluster (env.client.get_cir namespace name) s in fetched r s'
