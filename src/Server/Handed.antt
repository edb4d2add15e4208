-- ===== src/Server/Handed.antt =====
-- pkg/server/commands/acquire.go: what a successful acquisition hands out.
use ofcir.Prelude.{
  String, ◌≡◌, ◌∙◌, inl, inr, true, Option, none, some, ok, List, [], ◌∷◌, All, All-keep_test, keep,
  Option-cases, arith,
}
use mathlib.Core.List.{Memᴰ}
use ofcir.Prelude.Sorting.{sort_stable}
use ofcir.Api.{CiResource, CiPool, in_use, set_spec_state}
use ofcir.Fsm.Release.{is_ok}
use ofcir.Server.{Response, status_ok}
use ofcir.Server.Clientset.{Rest, list_cipools, list_cirs, update_cir}
use ofcir.Server.Acquire.{
  PoolsByName, is_usable, by_name, defaults, fallbacks, by_priority, is_free, acquired,
  acquire_from, acquire,
}
use ofcir.Server.Acquired.{Found}
use ofcir.Server.Served.{
  Named, by_name-Named, search_pools-Found, Owned, defaults-Owned, fallbacks-Owned,
}

-- What an acquisition hands out: a resource of the list, free when it was listed, of a listed pool
-- that has a requested type and that the token opens; the server took its update, and the answer
-- shows it.
pub record Handed {C : Type 0} (rest : Rest C) (listed : List CiPool) (all_cirs : List CiResource)
    (types : List String) (validpools : Option String) (a : Response) : Type 0 where
  pub resource : CiResource
  pub pool : CiPool
  pub resource_listed : Memᴰ resource all_cirs
  pub pool_listed : Memᴰ pool listed
  pub owner : pool.meta.name ≡ resource.spec.pool_ref
  pub usable : is_usable types validpools pool ≡ true
  pub free : is_free resource ≡ true
  pub answer : a ≡ acquired (λ n. some pool) resource
  pub before : C
  pub taken :
      is_ok (update_cir rest resource.meta.namespace (set_spec_state in_use resource) before).0
      ≡ true

module _ {C : Type 0} (rest : Rest C) (shuffle : List CiResource → List CiResource)
    (shuffle_mem : (xs : List CiResource) (x : CiResource) → Memᴰ x (shuffle xs) → Memᴰ x xs)
    (types : List String) (validpools : Option String) (a : Response)
    (served : a.status ≡ status_ok) (listed : List CiPool) (all_cirs : List CiResource) where
  abbrev IsOpen : CiPool → Type 0
  IsOpen p = Memᴰ p listed × (is_usable types validpools p ≡ true)

  Handed-of_Found :
      (pools : PoolsByName)
      → Named IsOpen pools
      → Found rest (Owned pools all_cirs) pools a
      → Handed rest listed all_cirs types validpools a
  Handed-of_Found pools named f = elim (Option-cases (pools f.resource.spec.pool_ref)) [
    | inl e ↦ absurd (ground (arith, f.has.1))
    | inr (p, e) ↦ record {
      resource = f.resource;
      pool = p;
      resource_listed = f.has.0;
      pool_listed = (named f.resource.spec.pool_ref p e).1.0;
      owner = (named f.resource.spec.pool_ref p e).0;
      usable = (named f.resource.spec.pool_ref p e).1.1;
      free = f.free;
      answer = f.answer ∙ (unfold acquired in rw e);
      before = f.before;
      taken = f.taken;
    }
  ]

  acquire_from-Handed :
      (ns : String) (usable : List CiPool) (c c' : C)
      → All IsOpen usable
      → list_cirs rest ns c ≡ (ok all_cirs, c')
      → (acquire_from rest shuffle ns types usable c).0 ≡ ok a
      → Handed rest listed all_cirs types validpools a
  unfolding acquire_from
  acquire_from-Handed ns [] c c' all l h = absurd (ground arith)
  acquire_from-Handed ns (p ∷ ps) c c' all l h =
      let pools = by_name (λ n. none) (p ∷ ps) in
      let named = by_name-Named IsOpen (p ∷ ps) (λ n. none) (λ n q e. cc) all in
      Handed-of_Found pools named (
        search_pools-Found rest shuffle shuffle_mem types a served pools (Owned pools all_cirs)
          (sort_stable (by_priority pools) (shuffle (defaults pools all_cirs)))
          (fallbacks pools all_cirs) c'
          (defaults-Owned rest shuffle shuffle_mem types a served pools all_cirs)
          (fallbacks-Owned rest shuffle shuffle_mem types a served pools all_cirs) (rw l at h))

  -- Where pools and resources are listed and the shuffle adds no elements: an acquisition that
  -- answers 200 hands out a listed resource that was available and asked for by nobody, of a
  -- listed pool that has one of the requested types and that the token opens; the server took the
  -- update that asks for its use, and the answer shows that resource and that pool.
  pub acquire-Handed :
      (ns : String) (c c' c'' : C)
      → list_cipools rest ns c ≡ (ok listed, c')
      → list_cirs rest ns c' ≡ (ok all_cirs, c'')
      → (acquire rest shuffle ns validpools types c).0 ≡ ok a
      → Handed rest listed all_cirs types validpools a
  unfolding acquire
  acquire-Handed ns c c' c'' l m h =
      acquire_from-Handed ns (keep (is_usable types validpools) listed) c' c''
        (All-keep_test (is_usable types validpools) listed) m (rw l at h)
