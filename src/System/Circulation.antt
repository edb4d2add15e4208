-- ===== src/System/Circulation.antt =====
-- pkg/server/commands and controllers/ciresource_controller.go: the way of a host from one job to
-- the next.
use ofcir.Prelude.{String, ◌≡◌, refl, ap, ◌∙◌, true, false, not, ◌&&◌, Option, some, none, ok, pure}
use ofcir.Api.{
  CiResource, CiResourceSpec, CiPool, available, in_use, maintenance, is_fallback_pool, state_eq,
  set_spec_state,
}
use ofcir.Api.States.{state_eq_of_eq}
use ofcir.Provider.{Provider}
use ofcir.Kube.{World, Env}
use ofcir.Resource.{reconcile}
use ofcir.Resource.Answering.{Answers, SameMeta, Holds, Reached}
use ofcir.Resource.Returned.{released-Reached, acquired-Reached}
use ofcir.Server.Access.{can_use_pool}
use ofcir.Server.Acquire.{PoolsByName, is_free, acquired, on_update, try_resource}
use ofcir.Server.Clientset.{Rest, get_cir, update_cir}
use ofcir.Server.Lookup.{released, release_found, release}

-- The API server as the HTTP server sees it: a resource is read as it is stored, and an update
-- of its current version writes its spec, and leaves its status, its name and its namespace; it
-- deletes nothing.
pub record Serves {C : Type 0} (rest : Rest C) (stored : C → Option CiResource) (ns n : String)
    : Type 0 where
  pub cir_read :
      (c : C) (cir : CiResource)
      → stored c ≡ some cir
      → rest.get_cir ns "ciresources" n c ≡ (ok cir, c)
  pub spec_write :
      (cir old : CiResource) (c : C)
      → stored c ≡ some old
      → cir.meta.resource_version ≡ old.meta.resource_version
      → (written : CiResource) × (c' : C) × (rest.put_cir ns "ciresources" n cir c
          ≡ (ok written, c'))
        × (stored c' ≡ some written)
        × (written.status ≡ old.status)
        × (written.spec ≡ cir.spec)
        × SameMeta old written

module _ {C P : Type 0} {env : Env C P} {rest : Rest C} {stored : C → Option CiResource}
    {ns n : String} {pool : CiPool} {provider : Provider P}
    (answers : Answers env stored ns n pool provider) (serves : Serves rest stored ns n) where
  -- a release of a resource in use
  release-Holds :
      (validpools : Option String) (cir : CiResource) (s : World C P)
      → Holds answers cir s
      → cir.status.state ≡ in_use
      → can_use_pool validpools pool.meta.name ≡ true
      → (written : CiResource) × (c : C) × (release rest ns validpools n s.cluster
          ≡ (ok (released cir), c))
        × Holds answers written (record s { cluster = c })
        × (written.status ≡ cir.status)
        × (written.spec ≡ (set_spec_state available cir).spec)
  unfolding release release_found get_cir update_cir
  release-Holds validpools cir s (held, namespace, name, not_deleted, of_pool) used opens =
      let (written, c, put, held', status, spec, (same_namespace, same_name, same_deletion)) =
        serves.spec_write (set_spec_state available cir) cir s.cluster held refl in
      let is_used = state_eq_of_eq cir.status.state in_use used in
      let is_open = ap (can_use_pool validpools) of_pool ∙ opens in
      let updated =
        (λ i.
          rest.put_cir (namespace i) "ciresources" (name i) (set_spec_state available cir)
            s.cluster)
        ∙ put in
      (
        written,
        c,
        rw (serves.cir_read s.cluster cir held, is_open, is_used, updated) refl,
        (
          held',
          same_namespace ∙ namespace,
          same_name ∙ name,
          same_deletion ∙ not_deleted,
          ap (λ x. x.pool_ref) spec ∙ of_pool,
        ),
        status,
        spec,
      )

  is_free_of :
      (cir : CiResource)
      → cir.status.state ≡ available
      → cir.spec.state ≡ available
      → is_free cir ≡ true
  unfolding is_free state_eq
  is_free_of cir e f =
      let is_available = state_eq_of_eq cir.status.state available e in
      rw is_available (ap (λ st. not (state_eq st in_use) && not (state_eq st maintenance)) f)

  -- an acquisition that comes to a free resource
  try_resource-Holds :
      (pools : PoolsByName) (cir : CiResource) (s : World C P)
      → Holds answers cir s
      → is_free cir ≡ true
      → (written : CiResource) × (c : C) × (try_resource rest pools cir (pure none) s.cluster
          ≡ (ok (some (acquired pools cir)), c))
        × Holds answers written (record s { cluster = c })
        × (written.status ≡ cir.status)
        × (written.spec ≡ (set_spec_state in_use cir).spec)
  unfolding try_resource on_update update_cir
  try_resource-Holds pools cir s (held, namespace, name, not_deleted, of_pool) free =
      let (written, c, put, held', status, spec, (same_namespace, same_name, same_deletion)) =
        serves.spec_write (set_spec_state in_use cir) cir s.cluster held refl in
      let updated =
        (λ i.
          rest.put_cir (namespace i) "ciresources" (name i) (set_spec_state in_use cir) s.cluster)
        ∙ put in
      (
        written,
        c,
        rw (free, updated) refl,
        (
          held',
          same_namespace ∙ namespace,
          same_name ∙ name,
          same_deletion ∙ not_deleted,
          ap (λ x. x.pool_ref) spec ∙ of_pool,
        ),
        status,
        spec,
      )

  -- the acquisition of a free resource, and the reconciliation after it
  acquired_next :
      (pools : PoolsByName) (cir : CiResource) (s : World C P)
      → Holds answers cir s
      → is_free cir ≡ true
      → cir.status.state ≡ available
      → let (r, c) = try_resource rest pools cir (pure none) s.cluster in
        (r ≡ ok (some (acquired pools cir)))
        × Reached answers
            (set_spec_state in_use cir)
            in_use
            s.outside
            (reconcile env ns n (record s { cluster = c })).1
  acquired_next pools cir s holds free e =
      let (written, c, handed, holds', status, spec) = try_resource-Holds pools cir s holds free in
      let (last, holds'', st, (id, address, same_spec), outside) =
        acquired-Reached answers written (record s { cluster = c }) holds'
          (ap (λ x. x.state) status ∙ e) (ap (λ x. x.state) spec) in
      rw handed (
        refl,
        (
          last,
          holds'',
          st,
          (
            id ∙ ap (λ x. x.resource_id) status,
            address ∙ ap (λ x. x.address) status,
            same_spec ∙ spec,
          ),
          outside,
        ),
      )

  -- A resource in use, that nobody has deleted, is released by a token that opens its pool, no
  -- fallback pool, whatever was asked of it, in a cluster where the calls succeed and nobody else
  -- writes to it: the release answers 200. Where the provider cleans the host, and reports it as
  -- clean then, the resource is free three reconciliations later. The next acquisition that comes
  -- to it hands it out, and one more reconciliation marks it as in use, with the same id and
  -- address as at first.
  pub circulates :
      (validpools : Option String) (pools : PoolsByName) (cir : CiResource) (s : World C P)
      (w' w'' : P)
      → Holds answers cir s
      → cir.status.state ≡ in_use
      → can_use_pool validpools pool.meta.name ≡ true
      → is_fallback_pool pool ≡ false
      → provider.clean cir.status.resource_id s.outside ≡ (ok tt, w')
      → provider.clean_completed cir.status.resource_id w' ≡ (ok true, w'')
      → let s1 : World C P = record s { cluster = (release rest ns validpools n s.cluster).1 } in
        let s2 = (reconcile env ns n (reconcile env ns n (reconcile env ns n s1).1).1).1 in
        ((release rest ns validpools n s.cluster).0 ≡ ok (released cir))
        × ((free : CiResource) × (stored s2.cluster ≡ some free)
            × (is_free free ≡ true)
            × (let (r, c) = try_resource rest pools free (pure none) s2.cluster in
                let s3 : World C P = record s2 { cluster = c } in
                (r ≡ ok (some (acquired pools free)))
                × Reached answers (set_spec_state in_use cir) in_use w'' (reconcile env ns n s3).1))
  circulates validpools pools cir s w' w'' holds used opens not_fallback cleans completes =
      let (asked, c, answered, holds1, status, spec) =
        release-Holds validpools cir s holds used opens in
      let s1 : World C P = record s { cluster = c } in
      let same_id = ap (λ x. x.resource_id) status in
      let (free, holds2, at_free, (id, address, kept_spec), outside) =
        released-Reached answers asked s1 w' w'' holds1 (ap (λ x. x.state) status ∙ used)
          (ap (λ x. x.state) spec) not_fallback
          (ap (λ x. provider.clean x s.outside) same_id ∙ cleans)
          (ap (λ x. provider.clean_completed x w') same_id ∙ completes) in
      let s2 = (reconcile env ns n (reconcile env ns n (reconcile env ns n s1).1).1).1 in
      let is_free_now = is_free_of free at_free (ap (λ x. x.state) (kept_spec ∙ spec)) in
      let (handed, (last, holds3, at_last, (last_id, last_address, last_spec), still)) =
        acquired_next pools free s2 holds2 is_free_now at_free in
      rw answered (
        refl,
        (
          free,
          holds2.0,
          is_free_now,
          (
            handed,
            (
              last,
              holds3,
              at_last,
              (
                last_id ∙ id ∙ same_id,
                last_address ∙ address ∙ ap (λ x. x.address) status,
                last_spec
                    ∙ ap (λ (x : CiResourceSpec). record x { state = in_use }) (kept_spec ∙ spec),
              ),
              still ∙ outside,
            ),
          ),
        ),
      )
