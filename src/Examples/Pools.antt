-- ===== src/Examples/Pools.antt =====
-- A cluster that counts the calls that write, and the theorems on pools at it.
use mathlib.Core.List.{Memᴰ}
use mathlib.Core.Path.{subst}
use ofcir.Prelude.{
  sym, str_eq, if◌then◌else◌, ◌≡◌, ◌≢◌, refl, ℕ, suc, ◌≤◌, pos, ◌+ℤ◌, ltb_ℤ, false, [], ◌∷◌, All,
  some, ok, pure, arith,
}
use ofcir.Prelude.Texts.{after_last, atoi}
use ofcir.Api.{CiResource, available, in_use}
use ofcir.Kube.{Client}
use ofcir.Resource.{no_secret}
use ofcir.Pool.{
  numeral, cir_name, get_highest_resource_numeral, is_labelled, select_evicted, create_loop,
}
use ofcir.Pool.Control.{reconcile_deleted}
use ofcir.Pool.Names.{numeral-cir_name, new_names_fresh}
use ofcir.Pool.Eviction.{select_evicted-keeps, select_evicted-le, IsEvictable, labelled}
use ofcir.Pool.Removal.{deletion_waits}
use ofcir.Pool.Fuel.{create_loop_enough}
use ofcir.Pool.Creation.{create_loop-keeps}
use ofcir.Examples.Fixtures.{cir_in, small, util}

abbrev first : CiResource
first = cir_in "cir-0001" "small" available available

abbrev second : CiResource
second = cir_in "cir-0002" "small" in_use in_use

-- the cluster is the number of writes to pools, and the number of all other writes
abbrev Writes : Type 0
Writes = ℕ × ℕ

abbrev client : Client Writes
client = record {
  get_cir = λ ns name. pure first;
  get_pool = λ ns name. pure small;
  get_secret = λ ns name. pure no_secret;
  list_cirs = λ ns. pure (first ∷ second ∷ []);
  create_cir = λ cir c. (ok tt, (c.0, suc c.1));
  update_cir = λ cir c. (ok cir, (c.0, suc c.1));
  update_cir_status = λ cir c. (ok cir, (c.0, suc c.1));
  update_pool = λ pool c. (ok pool, (suc c.0, c.1));
  update_pool_status = λ pool c. (ok pool, (suc c.0, c.1));
  delete_all_cirs = λ ns label c. (ok tt, (c.0, suc c.1));
  is_not_found = λ e. false;
  clock = λ c. pos 5000;
}

-- no pool was written
abbrev PoolKept : Writes → Type 0
PoolKept c = c.0 ≡ 0

numeral-cir_name_example : numeral (cir_name (pos 42)) ≡ some (pos 42)
numeral-cir_name_example = numeral-cir_name 42 (omega arith)

new_names_fresh_example :
    (get_highest_resource_numeral (first ∷ second ∷ []) +ℤ pos 1 ≡ pos 3)
    × All (λ c. c.meta.name ≢ cir_name (pos 4)) (first ∷ second ∷ [])
unfolding get_highest_resource_numeral numeral after_last atoi ltb_ℤ
new_names_fresh_example = new_names_fresh (first ∷ second ∷ []) 2 1 refl (omega arith)

-- the updates of `cir-0002` are counted as writes to pools
abbrev guarded : Client Writes
guarded = record client {
  update_cir =
      λ cir c. (ok cir, if str_eq cir.meta.name "cir-0002" then (suc c.0, c.1) else (c.0, suc c.1));
}

-- the resource that is in use is not written
select_evicted-keeps_example :
    PoolKept (select_evicted guarded (pos 2) (second ∷ first ∷ []) 0 (0, 0)).1
select_evicted-keeps_example =
    select_evicted-keeps guarded PoolKept (pos 2) (second ∷ first ∷ []) only_first 0 (0, 0) refl
  where
    only_first :
        (cir : CiResource) (c : Writes)
        → Memᴰ cir (second ∷ first ∷ [])
        → IsEvictable cir.status.state
        → is_labelled cir ≡ false
        → PoolKept c
        → PoolKept (guarded.update_cir (labelled cir) c).1
    only_first cir c (Memᴰ.head q) e l h =
        let k : IsEvictable in_use = subst (λ x. IsEvictable x.status.state) q e in elim k [ ]
    only_first cir c (Memᴰ.tail (Memᴰ.head q)) e l h =
        subst (λ x. PoolKept (guarded.update_cir (labelled x) c).1) (sym q) h
    only_first cir c (Memᴰ.tail (Memᴰ.tail m)) e l h = elim m [ ]

select_evicted-le_example : 1 ≤ 1
unfolding select_evicted ltb_ℤ
select_evicted-le_example =
    select_evicted-le client 1 (second ∷ first ∷ []) (0, 0) 1 (omega arith) refl

deletion_waits_example : PoolKept (reconcile_deleted client util small (0, 0)).1
deletion_waits_example =
    deletion_waits client util small (0, 0) PoolKept (λ cir c e l h. h) (λ ns c h. h)
      (first ∷ second ∷ []) (0, 0) refl (omega arith) refl

create_loop-keeps_example : PoolKept (create_loop client 2 small (pos 3) (pos 5) 0 (0, 0)).1
create_loop-keeps_example =
    create_loop-keeps client small PoolKept 5 (omega arith) 2 3 0 (0, 0) refl (λ k c l m h. h) refl

create_loop_enough_example :
    create_loop client 9 small (pos 3) (pos 3 +ℤ pos 2) 0 (0, 0)
    ≡ create_loop client 2 small (pos 3) (pos 3 +ℤ pos 2) 0 (0, 0)
create_loop_enough_example =
    create_loop_enough client small (pos 3) 2 9 0 (0, 0) (omega arith, omega arith) (omega arith)
      (omega arith)
