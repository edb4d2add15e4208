-- ===== src/Resource/Asked.antt =====
-- controllers/ciresource_controller.go: what a reconciliation does to the state that is asked for.
use ofcir.Prelude.{
  ◌+◌, ◌^◌, ◌<◌, ◌≤◌, pos_part, neg_part, ltb_ℤ, Option-cases, ℕ, ◌≡◌, refl, ap, ◌⊎◌, inl, inr,
  true, Option, some, Exec, Outcome, ok, err, panic, pure, ◌>>=◌, ◌>>◌, arith, ◌∙◌,
}
use ofcir.Fsm.Handlers.{time_sub}
use ofcir.Api.{Time, CiResource, CiPool, available, in_use, state_eq, set_spec_state}
use ofcir.Provider.{SecretData}
use ofcir.Fsm.Machine.{Machine}
use ofcir.Fsm.Process.{Processed}
use ofcir.Fsm.Table.{run}
use ofcir.Fsm.Timeout.{Asks, is_over, process-Asks}
use ofcir.Kube.{Client, World, Env}
use ofcir.Resource.{get_pool, run_fsm, save, reconcile_cir}
use ofcir.Resource.Stored.{StoreLaws, get_pool_keeps}

-- What the API server documents of the spec: an update writes it, or does not take place; an
-- update of the status keeps it.
pub record SpecLaws {C : Type 0} (client : Client C) (stored : C → Option CiResource) : Type 0 where
  pub spec_written :
      (cir : CiResource) (c : C) (old new : CiResource)
      → stored c ≡ some old
      → stored (client.update_cir cir c).1 ≡ some new
      → (new.spec ≡ old.spec) ⊎ (new.spec ≡ cir.spec)
  pub spec_kept :
      (cir : CiResource) (c : C) (old new : CiResource)
      → stored c ≡ some old
      → stored (client.update_cir_status cir c).1 ≡ some new
      → new.spec ≡ old.spec

-- The last update of the resource is known, and `now` is later than it by more than the timeout of
-- the pool.
abbrev pub Overdue : CiPool → Time → CiResource → Type 0
Overdue pool now cir =
    (t : Time) × (cir.status.last_updated ≡ some t)
    × (pos_part t + pos_part pool.spec.timeout + neg_part now
        < pos_part now + neg_part t + neg_part pool.spec.timeout)

is_over-Overdue :
    (pool : CiPool) (now : Time) (cir : CiResource)
    → neg_part pool.spec.timeout ≤ 2 ^ 63
    → is_over pool now cir.status.last_updated ≡ true
    → Overdue pool now cir
unfolding ltb_ℤ time_sub
is_over-Overdue pool now cir b h = elim (Option-cases cir.status.last_updated) [
  | inl e ↦ absurd (let k = rw e at h in ground arith)
  | inr (t, e) ↦ (t, e, later pool.spec.timeout now t b (rw e at h))
]
  where
    later :
        (timeout now t : Time)
        → neg_part timeout ≤ 2 ^ 63
        → ltb_ℤ timeout (time_sub now t) ≡ true
        → pos_part t + pos_part timeout + neg_part now
          < pos_part now + neg_part t + neg_part timeout
    later timeout now t b h = ground arith

module _ {C P : Type 0} (env : Env C P) (stored : C → Option CiResource)
    (laws : StoreLaws env.client stored) (specs : SpecLaws env.client stored)
    (cir new : CiResource) where
  -- The end of a use by the timeout: the pool that the reconciliation reads gives less time than
  -- has passed since the last update of the resource, which is in use and asked for.
  pub record Released (s : World C P) : Type 0 where
    pub pool : CiPool
    pub secret : SecretData
    pub behind : World C P
    pub pool_read : get_pool env cir s ≡ (ok (pool, secret), behind)
    pub is_used : state_eq cir.status.state in_use ≡ true
    pub is_asked : state_eq cir.spec.state in_use ≡ true
    pub timed_out : Overdue pool (env.client.clock behind.cluster) cir
    pub ended : new.spec ≡ (set_spec_state available cir).spec

  save_spec :
      (p : Processed) (c' : CiResource) (s : World C P)
      → stored s.cluster ≡ some cir
      → stored (save env p c' s).1.cluster ≡ some new
      → (new.spec ≡ cir.spec) ⊎ (new.spec ≡ c'.spec)
  unfolding save
  save_spec p c' s h k =
      let t = env.client.clock s.cluster in
      let c'' = record c' { status = record c'.status { last_updated = some t } } in
      ground (arith, specs.spec_written c' s.cluster cir new, specs.spec_kept c'' s.cluster cir new)

  abbrev finish : CiPool → SecretData → Exec (World C P) ℕ
  finish pool secret = do (p, c') ← run_fsm env pool secret cir; save env p c'; pure p.retry_after

  -- the timeout of the pool that the reconciliation reads is a duration of Go
  abbrev pub IsInt64 : World C P → Type 0
  IsInt64 s =
      (pool : CiPool) (secret : SecretData) (behind : World C P)
      → get_pool env cir s ≡ (ok (pool, secret), behind)
      → neg_part pool.spec.timeout ≤ 2 ^ 63

  finish_spec :
      (pool : CiPool) (secret : SecretData) (s s' : World C P) (r : Outcome Processed)
      (m : Machine P)
      → IsInt64 s
      → get_pool env cir s ≡ (ok (pool, secret), s')
      → run env.factories env.util (env.client.clock s'.cluster) pool secret cir s'.outside ≡ (r, m)
      → stored s'.cluster ≡ some cir
      → stored (finish pool secret s').1.cluster ≡ some new
      → (new.spec ≡ cir.spec) ⊎ Released s
  unfolding run_fsm
  finish_spec pool secret s s' (ok p) m z g e h k =
      let now = env.client.clock s'.cluster in
      let a : Asks pool now cir m.cir =
        rw e at (
          process-Asks env.factories env.util now pool secret cir s'.outside p (ap (λ x. x.0) e)) in
      let w : World C P = record s' { outside = m.world } in
      let saved : stored (save env p m.cir w).1.cluster ≡ some new =
        let k' = rw e at k in ground arith in
      elim (save_spec p m.cir w h saved) [
        | inl kept ↦ inl kept
        | inr written ↦ elim a [
          | inl same ↦ inl (written ∙ same)
          | inr (u, v, o, after) ↦ inr (record {
            pool = pool;
            secret = secret;
            behind = s';
            pool_read = g;
            is_used = u;
            is_asked = v;
            timed_out = is_over-Overdue pool now cir (z pool secret s' g) o;
            ended = written ∙ ap (λ x. x.spec) after;
          })
        ]
      ]
  finish_spec pool secret s s' (err x) m z g e h k = inl (ground arith)
  finish_spec pool secret s s' panic m z g e h k = inl (ground arith)

  reconcile_spec :
      (s : World C P) (r : Outcome (CiPool × SecretData)) (s' : World C P)
      → IsInt64 s
      → get_pool env cir s ≡ (r, s')
      → stored s'.cluster ≡ some cir
      → stored (reconcile_cir env cir s).1.cluster ≡ some new
      → (new.spec ≡ cir.spec) ⊎ Released s
  unfolding reconcile_cir
  reconcile_spec s (ok (pool, secret)) s' z e h k =
      let now = env.client.clock s'.cluster in
      let (r, m) = run env.factories env.util now pool secret cir s'.outside in
      finish_spec pool secret s s' r m z e refl h (rw e at k)
  reconcile_spec s (err x) s' z e h k = inl (ground arith)
  reconcile_spec s panic s' z e h k = inl (ground arith)

  -- One reconciliation, however it ends, where the resource that was read is the stored one, nobody
  -- else writes it until the end, not even the server, and the timeout of its pool is an int64. The
  -- resource that the store then holds, if it still holds it, has the spec that was read, with the
  -- state that is asked for; unless it was in use and asked for, more time has passed since its
  -- last update than the timeout of the pool that was read, and the spec is the one that was read,
  -- but asks for `available`.
  pub reconcile-Released :
      (s : World C P)
      → IsInt64 s
      → stored s.cluster ≡ some cir
      → stored (reconcile_cir env cir s).1.cluster ≡ some new
      → (new.spec ≡ cir.spec) ⊎ Released s
  reconcile-Released s z h k =
      let (r, s') = get_pool env cir s in
      reconcile_spec s r s' z refl (get_pool_keeps env stored laws cir new s ∙ h) k
