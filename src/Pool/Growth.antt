-- ===== src/Pool/Growth.antt =====
-- controllers/cipool_controller.go: the loop of `manageCIResourcesFor` at a cluster that answers.
use ofcir.Prelude.{
  ℕ, zero, suc, ◌+◌, ◌^◌, ◌<◌, ◌≤◌, pos, ◌≡◌, ◌≢◌, sym, ap, ◌∙◌, ok, List, All, String, arith,
}
use ofcir.Prelude.Growth.{Grown, GrownBy, same, more, All-Grown, Grown-map}
use ofcir.Api.{CiResource, CiResourceSpec, CiPool}
use ofcir.Kube.{Client}
use ofcir.Pool.{cir_name, new_cir, on_create, create_loop}
use ofcir.Pool.Names.{cir_name_differs}
use ofcir.Pool.Creation.{create_loop_step}

-- what the code asks for in a new resource
abbrev pub spec_for : CiPool → CiResourceSpec
unfolding new_cir
spec_for pool = (new_cir pool (pos 0)).spec

-- a resource as `r` asks for it
abbrev pub AskedBy : CiResource → CiResource → Type 0
AskedBy r x = (x.meta.name ≡ r.meta.name) × (x.spec ≡ r.spec)

-- the pool as far as an update of its status leaves it
abbrev pub SamePool : CiPool → CiPool → Type 0
SamePool p q =
    (q.meta.name ≡ p.meta.name) × (q.meta.namespace ≡ p.meta.namespace) × (q.spec ≡ p.spec)

-- A cluster in which nothing fails, and nobody else writes: `view` is what it holds in the
-- namespace. A resource is created where its name is free, and stands somewhere in the lists then.
pub record Answering {C : Type 0} (client : Client C) (ns : String) (view : C → List CiResource)
    : Type 0 where
  pub lists : (c : C) → client.list_cirs ns c ≡ (ok (view c), c)
  pub creates :
      (r : CiResource) (c : C)
      → r.meta.namespace ≡ ns
      → All (λ x. x.meta.name ≢ r.meta.name) (view c)
      → ((client.create_cir r c).0 ≡ ok tt)
        × Grown (AskedBy r) (view c) (view (client.create_cir r c).1)
  pub writes_status :
      (p : CiPool) (c : C)
      → p.meta.namespace ≡ ns
      → (q : CiPool) × (t : C) × (client.update_pool_status p c ≡ (ok q, t))
        × SamePool p q
        × (view t ≡ view c)

-- no resource has a name with a number from `i` up to `last`
abbrev pub Fresh : {C : Type 0} → (C → List CiResource) → ℕ → ℕ → C → Type 0
Fresh view i last c =
    (k : ℕ) → i ≤ k → k < last → All (λ x. x.meta.name ≢ cir_name (pos k)) (view c)

module _ {C : Type 0} {client : Client C} {ns : String} {view : C → List CiResource}
    (answers : Answering client ns view) where
  create_made :
      (pool : CiPool) (i : ℕ) (c : C)
      → pool.meta.namespace ≡ ns
      → All (λ x. x.meta.name ≢ cir_name (pos i)) (view c)
      → ((client.create_cir (new_cir pool (pos i)) c).0 ≡ ok tt)
        × Grown
            (λ x. (x.meta.name ≡ cir_name (pos i)) × (x.spec ≡ spec_for pool))
            (view c)
            (view (client.create_cir (new_cir pool (pos i)) c).1)
  unfolding new_cir
  create_made pool i c e f = answers.creates (new_cir pool (pos i)) c e f

  pub create_loop-GrownBy :
      (pool : CiPool)
      → pool.meta.namespace ≡ ns
      → (last : ℕ) → last < 2 ^ 63
      → (fuel i n : ℕ) (c : C) → i + fuel ≡ last
      → Fresh view i last c
      → ((create_loop client fuel pool (pos i) (pos last) n c).0 ≡ ok (n + fuel))
        × GrownBy
            (λ x. x.spec ≡ spec_for pool)
            fuel
            (view c)
            (view (create_loop client fuel pool (pos i) (pos last) n c).1)
  unfolding create_loop
  create_loop-GrownBy pool e last b zero i n c l f = (ground arith, same)
  create_loop-GrownBy pool e last b (suc fuel) i n c l f =
      let (made, grown) = create_made pool i c e (f i (omega arith) (omega arith)) in
      let c' = (client.create_cir (new_cir pool (pos i)) c).1 in
      let fresh : Fresh view (i + 1) last c' = λ k g h.
        All-Grown _ (λ x. x.meta.name ≢ cir_name (pos k))
          (λ x q same_name.
            cir_name_differs i k (omega (arith, g)) (omega (arith, h, b)) (sym q.0 ∙ same_name))
          (f k (omega (arith, g)) h) grown in
      let (counted, grown_by) =
        create_loop-GrownBy pool e last b fuel (i + 1) (suc n) c' (omega (arith, l)) fresh in
      rw (create_loop_step client pool fuel i last n c (omega (arith, l)) b, made)
        (unfold on_create in
          (counted ∙ ap ok (omega arith), more (Grown-map (λ x q. q.1) grown) grown_by))
