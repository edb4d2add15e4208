-- ===== src/Resource/Answering.antt =====
-- controllers/ciresource_controller.go: a reconciliation where every call succeeds.
use ofcir.Prelude.{String, ◌≡◌, refl, ap, ◌∙◌, true, false, Option, none, some, ok}
use ofcir.Api.{CiResource, CiResourceState, CiPool, set_state}
use ofcir.Provider.{Provider, SecretData, new_provider}
use ofcir.Fsm.Machine.{Context, Machine}
use ofcir.Fsm.Process.{Processed, start}
use ofcir.Fsm.Table.{visit, run, run_provided}
use ofcir.Kube.{World, Env}
use ofcir.Resource.{secret_name, get_pool, run_fsm, save, update_status, reconcile_cir, reconcile}

-- the metadata that an update leaves
abbrev pub SameMeta : CiResource → CiResource → Type 0
SameMeta old new =
    (new.meta.namespace ≡ old.meta.namespace)
    × (new.meta.name ≡ old.meta.name)
    × (new.meta.deletion_timestamp ≡ old.meta.deletion_timestamp)

-- A cluster in which the reads of one resource, its pool and the pool's secret succeed and change
-- nothing, and an update of the status of its current version writes the status and nothing else
-- of what the code reads; and a provider that is made without an error. `stored` is the resource.
pub record Answers {C P : Type 0} (env : Env C P) (stored : C → Option CiResource) (ns n : String)
    (pool : CiPool) (provider : Provider P) : Type 0 where
  pub secret : SecretData
  pub cir_read :
      (c : C) (cir : CiResource) → stored c ≡ some cir → env.client.get_cir ns n c ≡ (ok cir, c)
  pub pool_read : (c : C) → env.client.get_pool ns pool.meta.name c ≡ (ok pool, c)
  pub secret_read :
      (c : C)
      → env.client.get_secret pool.meta.namespace (secret_name pool.meta.name) c ≡ (ok secret, c)
  pub status_write :
      (cir old : CiResource) (c : C)
      → stored c ≡ some old
      → cir.meta.resource_version ≡ old.meta.resource_version
      → (written : CiResource) × (c' : C) × (env.client.update_cir_status cir c ≡ (ok written, c'))
        × (stored c' ≡ some written)
        × (written.status ≡ cir.status)
        × (written.spec ≡ old.spec)
        × SameMeta old written
  pub provider_made : (w : P) → new_provider env.factories pool secret w ≡ (ok provider, w)

-- the host that a resource stands for, and what is asked for it
abbrev pub SameHost : CiResource → CiResource → Type 0
SameHost old new =
    (new.status.resource_id ≡ old.status.resource_id)
    × (new.status.address ≡ old.status.address)
    × (new.spec ≡ old.spec)

module _ {P : Type 0} where
  -- what a run gives that raises the status flag alone
  abbrev pub Moves : CiResourceState → CiResource → Context P → P → Machine P → Type 0
  Moves st cir ctx w m =
      (p : Processed) × (visit st ctx (start cir w) ≡ (ok p, m))
      × (p.resource_dirty ≡ false)
      × (p.status_dirty ≡ true)

  -- a run that returns, changes the state alone, and raises the status flag
  abbrev pub MovesTo : CiResourceState → CiResource → Context P → P → CiResourceState → P → Type 0
  MovesTo st cir ctx w st' w' =
      (m : Machine P) × Moves st cir ctx w m × (m.cir ≡ set_state st' cir) × (m.world ≡ w')

module _ {C P : Type 0} {env : Env C P} {stored : C → Option CiResource} {ns n : String}
    {pool : CiPool} {provider : Provider P} (answers : Answers env stored ns n pool provider) where
  -- the store holds this resource, of the pool, and nobody has deleted it
  abbrev pub Holds : CiResource → World C P → Type 0
  Holds cir s =
      (stored s.cluster ≡ some cir)
      × (cir.meta.namespace ≡ ns)
      × (cir.meta.name ≡ n)
      × (cir.meta.deletion_timestamp ≡ none)
      × (cir.spec.pool_ref ≡ pool.meta.name)

  -- what the handlers are told
  abbrev pub context_at : World C P → Context P
  context_at s = record {
    pool = pool;
    provider = provider;
    util = env.util;
    now = env.client.clock s.cluster;
  }

  -- a reconciliation with a run that changes the status writes what the run has left
  reconcile-Moves :
      (st : CiResourceState) (cir : CiResource) (s : World C P) (m : Machine P)
      → cir.status.state ≡ st
      → Holds cir s
      → Moves st cir (context_at s) s.outside m
      → m.cir.meta.resource_version ≡ cir.meta.resource_version
      → (new : CiResource) × (s' : World C P) × ((reconcile env ns n s).1 ≡ s')
        × Holds new s'
        × (new.status ≡ record m.cir.status { last_updated = some (env.client.clock s.cluster) })
        × (new.spec ≡ cir.spec)
        × (s'.outside ≡ m.world)
  unfolding reconcile reconcile_cir get_pool run_fsm save update_status
  reconcile-Moves st cir s m at_state (held, namespace, name, not_deleted, of_pool)
        (p, visited, not_resource, dirty) same_version =
      let now = env.client.clock s.cluster in
      let secret = answers.secret in
      let ran : run env.factories env.util now pool secret cir s.outside ≡ (ok p, m) =
        run_provided env.factories env.util now pool secret cir s.outside provider s.outside
          (answers.provider_made s.outside)
        ∙ ap (λ x. visit x (context_at s) (start cir s.outside)) at_state
        ∙ visited in
      let m' : CiResource = record m.cir {
        status = record m.cir.status { last_updated = some now };
      } in
      let (written, c', update, stored', status, spec, (same_namespace, same_name, same_deletion)) =
        answers.status_write m' cir s.cluster held same_version in
      let pool_at : env.client.get_pool cir.meta.namespace cir.spec.pool_ref s.cluster
          ≡ (ok pool, s.cluster) =
        rw (namespace, of_pool) (answers.pool_read s.cluster) in
      (
        written,
        record { cluster = c'; outside = m.world },
        rw
            (
              answers.cir_read s.cluster cir held,
              pool_at,
              answers.secret_read s.cluster,
              ran,
              not_resource,
              dirty,
              update,
            )
            refl,
        (
          stored',
          same_namespace ∙ namespace,
          same_name ∙ name,
          same_deletion ∙ not_deleted,
          ap (λ x. x.pool_ref) spec ∙ of_pool,
        ),
        status,
        spec,
        refl,
      )

  -- a reconciliation that moves the stored resource to a state
  abbrev pub Reached : CiResource → CiResourceState → P → World C P → Type 0
  Reached cir st w' s' =
      (new : CiResource) × Holds new s'
      × (new.status.state ≡ st)
      × SameHost cir new
      × (s'.outside ≡ w')

  pub reconcile-MovesTo :
      (st st' : CiResourceState) (cir : CiResource) (s : World C P) (w' : P)
      → cir.status.state ≡ st
      → Holds cir s
      → MovesTo st cir (context_at s) s.outside st' w'
      → Reached cir st' w' (reconcile env ns n s).1
  reconcile-MovesTo st st' cir s w' e held (m, moves, changed, world) =
      let (new, s', ends, held', status, spec, outside) =
        reconcile-Moves st cir s m e held moves (ap (λ x. x.meta.resource_version) changed) in
      let written =
        status
        ∙ ap
            (λ (c : CiResource). record c.status {
              last_updated = some (env.client.clock s.cluster);
            })
            changed in
      rw ends (
        new,
        held',
        ap (λ x. x.state) written,
        (ap (λ x. x.resource_id) written, ap (λ x. x.address) written, spec),
        outside ∙ world,
      )
