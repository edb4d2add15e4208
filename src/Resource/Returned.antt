-- ===== src/Resource/Returned.antt =====
-- controllers/ciresource_controller.go: the reconciliations that follow a release and an acquisition.
use ofcir.Prelude.{String, ◌≡◌, refl, ap, ◌∙◌, true, false, Option, none, is_nil, ok, arith}
use ofcir.Api.{
  CiResource, CiPool, available, in_use, maintenance, state_eq, cleaning, cleaning_wait,
  is_fallback_pool,
}
use ofcir.Api.States.{state_eq_of_eq}
use ofcir.Provider.{Provider}
use ofcir.Fsm.Machine.{Context, default_cir_retry_delay}
use ofcir.Fsm.Process.{Processed, start, select}
use ofcir.Fsm.Table.{visit}
use ofcir.Fsm.Handlers.{
  new_ciresource_fsm, handle_state_available, handle_state_in_use, handle_state_cleaning,
  handle_state_cleaning_wait,
}
use ofcir.Kube.{World, Env}
use ofcir.Resource.{reconcile}
use ofcir.Resource.Answering.{Answers, Holds, Reached, context_at, MovesTo, reconcile-MovesTo}

moved : Processed
moved = record {
  resource_dirty = false;
  status_dirty = true;
  retry_after = default_cir_retry_delay;
}

module _ {P : Type 0} (cir : CiResource) (ctx : Context P) (w : P) where
  released-MovesTo : cir.spec.state ≡ available → MovesTo in_use cir ctx w cleaning w
  unfolding select new_ciresource_fsm handle_state_in_use moved
  released-MovesTo f =
      let is_asked = state_eq_of_eq cir.spec.state available f in
      (
        (visit in_use ctx (start cir w)).1,
        (moved, ground (arith, is_asked), refl, refl),
        ground (arith, is_asked),
        ground (arith, is_asked),
      )

  cleaning-MovesTo :
      (w' : P)
      → is_fallback_pool ctx.pool ≡ false
      → ctx.provider.clean cir.status.resource_id w ≡ (ok tt, w')
      → MovesTo cleaning cir ctx w cleaning_wait w'
  unfolding select new_ciresource_fsm handle_state_cleaning moved
  cleaning-MovesTo w' f h = (
    (visit cleaning ctx (start cir w)).1,
    (moved, ground (arith, f, h), refl, refl),
    ground (arith, f, h),
    ground (arith, f, h),
  )

  cleaned-MovesTo :
      (w' : P)
      → is_fallback_pool ctx.pool ≡ false
      → ctx.provider.clean_completed cir.status.resource_id w ≡ (ok true, w')
      → MovesTo cleaning_wait cir ctx w available w'
  unfolding select new_ciresource_fsm handle_state_cleaning_wait moved
  cleaned-MovesTo w' f h = (
    (visit cleaning_wait ctx (start cir w)).1,
    (moved, ground (arith, f, h), refl, refl),
    ground (arith, f, h),
    ground (arith, f, h),
  )

  -- what the tests for a resource that was acquired come to
  acquired_tests :
      cir.spec.state ≡ in_use
      → cir.status.state ≡ available
      → (state_eq cir.spec.state cir.status.state ≡ false)
        × (state_eq cir.spec.state maintenance ≡ false)
  unfolding state_eq
  acquired_tests f e = (
    ap (λ st. state_eq st cir.status.state) f ∙ ap (state_eq in_use) e,
    ap (λ st. state_eq st maintenance) f,
  )

  acquired-MovesTo :
      cir.spec.state ≡ in_use
      → cir.status.state ≡ available
      → cir.meta.deletion_timestamp ≡ none
      → MovesTo available cir ctx w in_use w
  unfolding select new_ciresource_fsm handle_state_available moved
  acquired-MovesTo f e d =
      let kept : is_nil cir.meta.deletion_timestamp ≡ true = ap is_nil d in
      let (other_state, not_maintenance) = acquired_tests f e in
      let is_asked = state_eq_of_eq cir.spec.state in_use f in
      (
        (visit available ctx (start cir w)).1,
        (moved, rw (kept, other_state, not_maintenance, is_asked) refl, refl, refl),
        rw (kept, other_state, not_maintenance, is_asked) refl,
        rw (kept, other_state, not_maintenance, is_asked) refl,
      )

module _ {C P : Type 0} {env : Env C P} {stored : C → Option CiResource} {ns n : String}
    {pool : CiPool} {provider : Provider P} (answers : Answers env stored ns n pool provider) where
  -- a reconciliation of a resource that is available and was acquired
  pub acquired-Reached :
      (cir : CiResource) (s : World C P)
      → Holds answers cir s
      → cir.status.state ≡ available
      → cir.spec.state ≡ in_use
      → Reached answers cir in_use s.outside (reconcile env ns n s).1
  acquired-Reached cir s (held, namespace, name, not_deleted, of_pool) e asked =
      reconcile-MovesTo answers available in_use cir s s.outside e
        (held, namespace, name, not_deleted, of_pool)
        (acquired-MovesTo cir (context_at answers s) s.outside asked e not_deleted)

  -- three reconciliations of a resource that is in use and was released
  pub released-Reached :
      (cir : CiResource) (s : World C P) (w' w'' : P)
      → Holds answers cir s
      → cir.status.state ≡ in_use
      → cir.spec.state ≡ available
      → is_fallback_pool pool ≡ false
      → provider.clean cir.status.resource_id s.outside ≡ (ok tt, w')
      → provider.clean_completed cir.status.resource_id w' ≡ (ok true, w'')
      → Reached answers cir available w''
          (reconcile env ns n (reconcile env ns n (reconcile env ns n s).1).1).1
  released-Reached cir s w' w'' held e asked not_fallback cleans completes =
      let s1 = (reconcile env ns n s).1 in
      let s2 = (reconcile env ns n s1).1 in
      let (one, held1, e1, (id1, address1, spec1), at1) =
        reconcile-MovesTo answers in_use cleaning cir s s.outside e held
          (released-MovesTo cir (context_at answers s) s.outside asked) in
      let (two, held2, e2, (id2, address2, spec2), at2) =
        reconcile-MovesTo answers cleaning cleaning_wait one s1 w' e1 held1 (
          cleaning-MovesTo one (context_at answers s1) s1.outside w' not_fallback
            (rw (at1, id1) cleans)) in
      let (three, held3, e3, (id3, address3, spec3), at3) =
        reconcile-MovesTo answers cleaning_wait available two s2 w'' e2 held2 (
          cleaned-MovesTo two (context_at answers s2) s2.outside w'' not_fallback
            (rw (at2, id2, id1) completes)) in
      (
        three,
        held3,
        e3,
        (id3 ∙ id2 ∙ id1, address3 ∙ address2 ∙ address1, spec3 ∙ spec2 ∙ spec1),
        at3,
      )
