-- ===== src/Pool/Creation.antt =====
-- controllers/cipool_controller.go: how many resources a pool gets, and when it is left alone.
use ofcir.Prelude.{
  ℕ, zero, suc, ◌+◌, ◌^◌, ◌<◌, ◌≤◌, pos, eq_ℤ, +ℤ-one, ltb_ℤ-pos, ◌≡◌, true, false, Outcome, ok,
  err, panic, List, Exec, str_eq, arith,
}
use ofcir.Prelude.Sorting.{length-keep-sort_stable}
use ofcir.Api.{CiResource, CiPool}
use ofcir.Fsm.Release.{is_ok}
use ofcir.Kube.{Client}
use ofcir.Pool.{of_pool, by_name, new_cir, on_create, create_loop}
use ofcir.Pool.Control.{count, update_size, resize, manage_ciresources_for}

module _ {C : Type 0} (client : Client C) (pool : CiPool) where
  -- a round of the loop
  pub create_loop_step :
      (fuel i last n : ℕ) (c : C)
      → i < last
      → last < 2 ^ 63
      → create_loop client (suc fuel) pool (pos i) (pos last) n c
        ≡ on_create client
            (create_loop client fuel pool (pos (i + 1)) (pos last))
            n
            (client.create_cir (new_cir pool (pos i)) c).0
            (client.create_cir (new_cir pool (pos i)) c).1
  unfolding create_loop
  create_loop_step fuel i last n c h b = rw (ltb_ℤ-pos i last h) (rw (+ℤ-one i (omega arith)))

  on_create-keeps :
      (Inv : C → Type 0) (rest : ℕ → Exec C ℕ)
      → ((n : ℕ) (c : C) → Inv c → Inv (rest n c).1)
      → (n : ℕ) (r : Outcome (Unit {0})) (c : C) → Inv c
      → Inv (on_create client rest n r c).1
  unfolding on_create
  on_create-keeps Inv rest k n (ok x) c h = k (suc n) c h
  on_create-keeps Inv rest k n (err e) c h = k n c h
  on_create-keeps Inv rest k n panic c h = h

  -- Every property of the cluster that no creation of a resource of the pool with a number from
  -- `i` up to `i + fuel` can break is kept by the loop: it creates no other resource and writes
  -- nothing else.
  pub create_loop-keeps :
      (Inv : C → Type 0) (last : ℕ)
      → last < 2 ^ 63
      → (fuel i n : ℕ) (c : C) → i + fuel ≡ last
      → ((k : ℕ) (c : C)
          → i ≤ k
          → k < last
          → Inv c
          → Inv (client.create_cir (new_cir pool (pos k)) c).1)
      → Inv c
      → Inv (create_loop client fuel pool (pos i) (pos last) n c).1
  unfolding create_loop
  create_loop-keeps Inv last b zero i n c e k h = h
  create_loop-keeps Inv last b (suc fuel) i n c e k h =
      let (r, c') = client.create_cir (new_cir pool (pos i)) c in
      rw (create_loop_step fuel i last n c (omega arith) b) (
        on_create-keeps Inv (create_loop client fuel pool (pos (i + 1)) (pos last))
          (λ m d.
            create_loop-keeps Inv last b fuel (i + 1) m d (omega arith)
              (λ j d l. k j d (omega arith)))
          n r c' (k i c (omega arith) (omega arith) h))

  -- Where every creation succeeds, the loop creates as many resources as are missing.
  pub create_loop_count :
      ((r : CiResource) (c : C) → is_ok (client.create_cir r c).0 ≡ true)
      → (last : ℕ) → last < 2 ^ 63
      → (fuel i n : ℕ) (c : C) → i + fuel ≡ last
      → (create_loop client fuel pool (pos i) (pos last) n c).0 ≡ ok (n + fuel)
  unfolding create_loop
  create_loop_count k last b zero i n c e = ground arith
  create_loop_count k last b (suc fuel) i n c e =
      let (r, c') = client.create_cir (new_cir pool (pos i)) c in
      rw (create_loop_step fuel i last n c (omega arith) b) (
        unfold on_create in
        ground
          (arith, k (new_cir pool (pos i)) c, create_loop_count k last b fuel (i + 1) (suc n) c'))

  -- A pool whose observed and requested sizes are the number of its resources in the list is left
  -- alone: the reconciliation writes nothing after the list, and reports no change.
  pub manage_steady :
      (listed : List CiResource) (c c' : C)
      → client.list_cirs pool.meta.namespace c ≡ (ok listed, c')
      → pool.spec.size ≡ count client (of_pool pool.meta.name listed)
      → pool.status.size ≡ count client (of_pool pool.meta.name listed)
      → manage_ciresources_for client pool c ≡ (ok false, c')
  unfolding manage_ciresources_for update_size resize eq_ℤ
  manage_steady listed c c' l e f =
      let own = λ (r : CiResource). str_eq r.spec.pool_ref pool.meta.name in
      rw l (ground (arith, length-keep-sort_stable by_name own listed))
