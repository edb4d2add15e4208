-- ===== src/Pool/Sized.antt =====
-- controllers/cipool_controller.go: a reconciliation gives a pool its size.
use ofcir.Prelude.{
  ℕ, ◌+◌, ◌^◌, ◌<◌, pos, ltb, Bool-cases, inl, inr, eq_ℤ, ltb_ℤ, ◌-ℤ◌, +ℤ-one, +ℤ-pos, -ℤ-pos,
  ltb_ℤ-pos, ◌≡◌, ◌≢◌, refl, sym, ap, ◌∙◌, true, false, ok, List, length, All, String, str_eq,
  eq_iff, arith,
}
use ofcir.Prelude.Sorting.{sort_stable, length-keep-sort_stable, All-sort_stable, All-of_sorted}
use ofcir.Prelude.Growth.{GrownBy, length-keep-GrownBy}
use ofcir.Api.{CiResource, CiResourceSpec, CiPool}
use ofcir.Kube.{Client}
use ofcir.Pool.{
  of_pool, by_name, get_highest_resource_numeral, cir_name, new_cir, create_loop, save_pool_status,
}
use ofcir.Pool.Control.{count, update_size, resize, manage_ciresources_for}
use ofcir.Pool.Names.{AtMost, highest_from-le, above-fresh}
use ofcir.Pool.Growth.{spec_for, SamePool, Answering, Fresh, create_loop-GrownBy}

module _ {C : Type 0} {client : Client C} {ns : String} {view : C → List CiResource}
    (answers : Answering client ns view) where
  -- the pool and the cluster after the size in the status is written
  update_size-SamePool :
      (pool_cirs : List CiResource) (pool : CiPool) (c : C)
      → pool.meta.namespace ≡ ns
      → (q : CiPool) × (t : C) × (update_size client pool_cirs pool c ≡ (ok q, t))
        × SamePool pool q
        × (view t ≡ view c)
  unfolding update_size save_pool_status
  update_size-SamePool pool_cirs pool c e =
      elim (Bool-cases (eq_ℤ pool.status.size (count client pool_cirs))) [
        | inl t ↦ rw t (pool, c, refl, (refl, refl, refl), refl)
        | inr t ↦ rw t (answers.writes_status _ c e)
      ]

  resize-adds :
      (all_cirs pool_cirs : List CiResource) (pool : CiPool) (c : C) (missing h : ℕ)
      → pool.spec.size ≡ pos (length pool_cirs + missing)
      → length pool_cirs + missing < 2 ^ 63
      → 0 < missing
      → get_highest_resource_numeral all_cirs ≡ pos h
      → h + 1 + missing < 2 ^ 63
      → (create_loop client missing pool (pos (h + 1)) (pos (h + 1 + missing)) 0 c).0 ≡ ok missing
      → resize client all_cirs pool_cirs pool c
        ≡ (ok true, (create_loop client missing pool (pos (h + 1)) (pos (h + 1 + missing)) 0 c).1)
  unfolding resize eq_ℤ
  resize-adds all_cirs pool_cirs pool c missing h size small some_missing highest b made =
      let k = length pool_cirs in
      let differ : eq_ℤ pool.spec.size (pos k) ≡ false = rw size (ground arith) in
      let below : ltb_ℤ (pos k) pool.spec.size ≡ true =
        rw size (ltb_ℤ-pos k (k + missing) (omega arith)) in
      let left = ap (λ z. z -ℤ pos k) size ∙ -ℤ-pos k missing small in
      let positive : ltb 0 missing ≡ true = ground arith in
      rw
        (
          differ,
          below,
          left,
          highest,
          +ℤ-one h (omega arith),
          +ℤ-pos (h + 1) missing b,
          made,
          positive,
        )
        refl

  resize-GrownBy :
      (all_cirs pool_cirs : List CiResource) (pool : CiPool) (c : C) (missing h : ℕ)
      → pool.meta.namespace ≡ ns
      → pool.spec.size ≡ pos (length pool_cirs + missing)
      → length pool_cirs + missing < 2 ^ 63
      → 0 < missing
      → get_highest_resource_numeral all_cirs ≡ pos h
      → h + 1 + missing < 2 ^ 63
      → Fresh view (h + 1) (h + 1 + missing) c
      → ((resize client all_cirs pool_cirs pool c).0 ≡ ok true)
        × GrownBy
            (λ x. x.spec ≡ spec_for pool)
            missing
            (view c)
            (view (resize client all_cirs pool_cirs pool c).1)
  resize-GrownBy all_cirs pool_cirs pool c missing h e size small some_missing highest b fresh =
      let (made, grown) =
        create_loop-GrownBy answers pool e (h + 1 + missing) b missing (h + 1) 0 c refl fresh in
      rw
        (resize-adds all_cirs pool_cirs pool c missing h size small some_missing highest b
          (made ∙ ap ok (omega arith)))
        (refl, grown)

  -- what the list shows of the resources of the pool, sorted
  length-of_pool :
      (name : String) (cirs : List CiResource)
      → length (of_pool name (sort_stable by_name cirs)) ≡ length (of_pool name cirs)
  length-of_pool name cirs =
      length-keep-sort_stable by_name (λ (r : CiResource). str_eq r.spec.pool_ref name) cirs

  -- a pool that has its size
  rests :
      (pool : CiPool) (c : C)
      → pool.meta.namespace ≡ ns
      → pool.spec.size ≡ pos (length (of_pool pool.meta.name (view c)))
      → ((manage_ciresources_for client pool c).0 ≡ ok false)
        × (view (manage_ciresources_for client pool c).1 ≡ view c)
  unfolding manage_ciresources_for resize eq_ℤ
  rests pool c e size =
      let all_cirs = sort_stable by_name (view c) in
      let (q, t, written, (_, _, spec), kept) =
        update_size-SamePool (of_pool pool.meta.name all_cirs) pool c e in
      let listed : client.list_cirs pool.meta.namespace c ≡ (ok (view c), c) =
        rw e (answers.lists c) in
      let equal : eq_ℤ q.spec.size (pos (length (of_pool pool.meta.name all_cirs))) ≡ true =
        rw (spec, size, length-of_pool pool.meta.name (view c)) (ground arith) in
      rw (listed, written, equal) (refl, kept)

  -- what the sorted list says of the names holds of the cluster
  Fresh-listed :
      (c t : C) (h last : ℕ)
      → view t ≡ view c
      → get_highest_resource_numeral (sort_stable by_name (view c)) ≡ pos h
      → last < 2 ^ 63
      → Fresh view (h + 1) last t
  Fresh-listed c t h last kept highest b k g l =
      let all_cirs = sort_stable by_name (view c) in
      rw kept (
        All-of_sorted by_name (λ x. x.meta.name ≢ cir_name (pos k)) (view c)
          (above-fresh all_cirs h k highest (omega arith) (omega arith)))

  spec_for-SamePool : (p q : CiPool) → SamePool p q → spec_for q ≡ spec_for p
  unfolding new_cir
  spec_for-SamePool p q (name, _, spec) = rw (name, spec) refl

  manage-GrownBy :
      (pool : CiPool) (c : C) (missing top : ℕ)
      → pool.meta.namespace ≡ ns
      → pool.spec.size ≡ pos (length (of_pool pool.meta.name (view c)) + missing)
      → length (of_pool pool.meta.name (view c)) + missing < 2 ^ 63
      → 0 < missing
      → All (AtMost (pos top)) (view c)
      → top + 1 + missing < 2 ^ 63
      → ((manage_ciresources_for client pool c).0 ≡ ok true)
        × GrownBy
            (λ x. x.spec ≡ spec_for pool)
            missing
            (view c)
            (view (manage_ciresources_for client pool c).1)
  unfolding manage_ciresources_for get_highest_resource_numeral
  manage-GrownBy pool c missing top e size small some_missing a b =
      let all_cirs = sort_stable by_name (view c) in
      let pool_cirs = of_pool pool.meta.name all_cirs in
      let (q, t, written, (name, namespace, spec), kept) =
        update_size-SamePool pool_cirs pool c e in
      let listed : client.list_cirs pool.meta.namespace c ≡ (ok (view c), c) =
        rw e (answers.lists c) in
      let counted = length-of_pool pool.meta.name (view c) in
      let (h, highest, l) =
        highest_from-le 0 top all_cirs (omega arith)
          (All-sort_stable by_name (AtMost (pos top)) (view c) a) in
      let bound : h + 1 + missing < 2 ^ 63 = omega (arith, l) in
      let (added, grown) =
        resize-GrownBy all_cirs pool_cirs q t missing h (namespace ∙ e) (rw (spec, counted) size)
          (rw counted small) some_missing highest bound
          (Fresh-listed c t h (h + 1 + missing) kept highest bound) in
      let spec_same = spec_for-SamePool pool q (name, namespace, spec) in
      rw (listed, written) (added, rw (kept, spec_same) at grown)

  -- In a cluster where no call fails and nobody else writes: a pool lacks `missing` resources,
  -- fewer than 2^63 in all, and no name in the list has a number above `top`, far enough below
  -- 2^63. Then one reconciliation adds exactly these to the list, wherever the server puts them,
  -- each with the spec of the pool, and changes none of the others, so that the list has as many
  -- as the pool wants; it reports a change. The next one, of the pool as it is then, adds and
  -- removes nothing, and reports no change.
  pub grows_to_size :
      (pool later : CiPool) (c : C) (missing top : ℕ)
      → pool.meta.namespace ≡ ns
      → SamePool pool later
      → pool.spec.size ≡ pos (length (of_pool pool.meta.name (view c)) + missing)
      → length (of_pool pool.meta.name (view c)) + missing < 2 ^ 63
      → 0 < missing
      → All (AtMost (pos top)) (view c)
      → top + 1 + missing < 2 ^ 63
      → let c' = (manage_ciresources_for client pool c).1 in
        ((manage_ciresources_for client pool c).0 ≡ ok true)
        × GrownBy (λ x. x.spec ≡ spec_for pool) missing (view c) (view c')
        × (pos (length (of_pool pool.meta.name (view c'))) ≡ pool.spec.size)
        × ((manage_ciresources_for client later c').0 ≡ ok false)
        × (view (manage_ciresources_for client later c').1 ≡ view c')
  unfolding new_cir
  grows_to_size pool later c missing top e (name, namespace, spec) size small some_missing a b =
      let c' = (manage_ciresources_for client pool c).1 in
      let (changed, grown) = manage-GrownBy pool c missing top e size small some_missing a b in
      let counted =
        length-keep-GrownBy (λ x. x.spec ≡ spec_for pool)
          (λ x. str_eq x.spec.pool_ref pool.meta.name)
          (λ x q.
            (eq_iff x.spec.pool_ref pool.meta.name).1 (ap (λ (s : CiResourceSpec). s.pool_ref) q))
          grown in
      let sized : pos (length (of_pool pool.meta.name (view c'))) ≡ pool.spec.size =
        ap pos (omega (arith, counted)) ∙ sym size in
      let wanted : later.spec.size ≡ pos (length (of_pool later.meta.name (view c'))) =
        rw (spec, name) (sym sized) in
      let (still, kept) = rests later c' (namespace ∙ e) wanted in
      (changed, grown, sized, still, kept)
