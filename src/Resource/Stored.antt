-- ===== src/Resource/Stored.antt =====
-- controllers/ciresource_controller.go: what a reconciliation does to the resource in the store.
use ofcir.Prelude.{
  ℕ, String, ◌≡◌, refl, ap, ◌⊎◌, true, false, Option, some, is_nil, Exec, Outcome, ok, err, panic,
  pure, ◌>>=◌, ◌>>◌, arith, continue, ◌∙◌,
}
use ofcir.Api.{CiResource, CiPool}
use ofcir.Provider.{SecretData}
use ofcir.Fsm.Machine.{Machine}
use ofcir.Fsm.Process.{Processed}
use ofcir.Fsm.Table.{run}
use ofcir.Fsm.Flags.{Effect, process-Effect}
use ofcir.Fsm.Diagram.{edge, Follows, process-Follows}
use ofcir.Kube.{Client, World, Env}
use ofcir.Resource.{get_pool, run_fsm, save, reconcile_cir, secret_of, secret_name}

-- What the API server documents, for the resource that is being reconciled (`none` where it is
-- deleted): reads change nothing; `Update` does not write the status; an update of the status
-- writes nothing else, and may not take place.
pub record StoreLaws {C : Type 0} (client : Client C) (stored : C → Option CiResource)
    : Type 0 where
  pub pool_read : (ns n : String) (c : C) → stored (client.get_pool ns n c).1 ≡ stored c
  pub secret_read : (ns n : String) (c : C) → stored (client.get_secret ns n c).1 ≡ stored c
  pub spec_write :
      (cir : CiResource) (c : C) (old new : CiResource)
      → stored c ≡ some old
      → stored (client.update_cir cir c).1 ≡ some new
      → new.status ≡ old.status
  pub status_write :
      (cir : CiResource) (c : C) (old new : CiResource)
      → stored c ≡ some old
      → stored (client.update_cir_status cir c).1 ≡ some new
      → (new.status ≡ old.status) ⊎ (new.status ≡ cir.status)

-- The status is as it was, or has moved along an edge of the diagram and carries a time.
abbrev pub Lawful : CiResource → CiResource → Type 0
Lawful old new =
    (new.status ≡ old.status)
    ⊎ ((edge old.status.state new.status.state ≡ true) × (is_nil new.status.last_updated ≡ false))

module _ {C P : Type 0} (env : Env C P) (stored : C → Option CiResource)
    (laws : StoreLaws env.client stored) (cir new : CiResource) where
  save-Lawful :
      (p : Processed) (c' : CiResource) (s : World C P)
      → Effect cir c' p
      → Follows cir c' p
      → stored s.cluster ≡ some cir
      → stored (save env p c' s).1.cluster ≡ some new
      → Lawful cir new
  unfolding save
  save-Lawful p c' s e f h k =
      let t = env.client.clock s.cluster in
      let c'' = record c' { status = record c'.status { last_updated = some t } } in
      ground (arith, laws.spec_write c' s.cluster cir new, laws.status_write c'' s.cluster cir new)

  abbrev finish : CiPool → SecretData → Exec (World C P) ℕ
  finish pool secret = do (p, c') ← run_fsm env pool secret cir; save env p c'; pure p.retry_after

  finish_at :
      (pool : CiPool) (secret : SecretData) (s : World C P) (r : Outcome Processed) (m : Machine P)
      → run env.factories env.util (env.client.clock s.cluster) pool secret cir s.outside ≡ (r, m)
      → stored s.cluster ≡ some cir
      → stored (finish pool secret s).1.cluster ≡ some new
      → Lawful cir new
  unfolding run_fsm
  finish_at pool secret s (ok p) m e h k =
      let now = env.client.clock s.cluster in
      let returned : (run env.factories env.util now pool secret cir s.outside).0 ≡ ok p =
        ap (λ x. x.0) e in
      let ef : Effect cir m.cir p =
        rw e at (process-Effect env.factories env.util now pool secret cir s.outside p returned) in
      let fo : Follows cir m.cir p =
        rw e at (process-Follows env.factories env.util now pool secret cir s.outside p returned) in
      let s' : World C P = record s { outside = m.world } in
      ground (arith, save-Lawful p m.cir s' ef fo h)
  finish_at pool secret s (err x) m e h k = ground arith
  finish_at pool secret s panic m e h k = ground arith

  pub get_pool_keeps : (s : World C P) → stored (get_pool env cir s).1.cluster ≡ stored s.cluster
  unfolding get_pool
  get_pool_keeps s =
      let ns = cir.meta.namespace in
      let (r, c) = env.client.get_pool ns cir.spec.pool_ref s.cluster in
      pool_then r c (laws.pool_read ns cir.spec.pool_ref s.cluster)
    where
      pool_then :
          (r : Outcome CiPool) (c : C)
          → stored c ≡ stored s.cluster
          → stored (continue r (secret_of env) (record s { cluster = c })).1.cluster
            ≡ stored s.cluster
      pool_then (ok pool) c h =
          ground (arith, laws.secret_read pool.meta.namespace (secret_name pool.meta.name) c)
      pool_then (err e) c h = h
      pool_then panic c h = h

  reconcile_at :
      (s : World C P) (r : Outcome (CiPool × SecretData)) (s' : World C P)
      → get_pool env cir s ≡ (r, s')
      → stored s'.cluster ≡ some cir
      → stored (reconcile_cir env cir s).1.cluster ≡ some new
      → Lawful cir new
  unfolding reconcile_cir
  reconcile_at s (ok (pool, secret)) s' e h k =
      let now = env.client.clock s'.cluster in
      let (r, m) = run env.factories env.util now pool secret cir s'.outside in
      finish_at pool secret s' r m refl h (rw e at k)
  reconcile_at s (err x) s' e h k = ground arith
  reconcile_at s panic s' e h k = ground arith

  -- One reconciliation, however it ends: the resource that the store then holds, if it still holds
  -- it, has the status that was read, or one that an edge of the diagram leads to, with a time.
  pub reconcile-Lawful :
      (s : World C P)
      → stored s.cluster ≡ some cir
      → stored (reconcile_cir env cir s).1.cluster ≡ some new
      → Lawful cir new
  reconcile-Lawful s h k =
      let (r, s') = get_pool env cir s in reconcile_at s r s' refl (get_pool_keeps s ∙ h) k
