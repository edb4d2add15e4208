-- ===== src/Server/Acquired.antt =====
-- pkg/server/commands/acquire.go: which resource `lookForAvailableResource` acquires.
use ofcir.Prelude.{
  ◌≡◌, refl, Bool, true, false, Option, none, some, Outcome, ok, err, panic, List, [], ◌∷◌, All,
  Exec, continue, pure, if◌then◌else◌, Bool-cases, inl, inr, arith,
}
use ofcir.Api.{CiResource, in_use, set_spec_state}
use ofcir.Fsm.Release.{is_ok}
use ofcir.Server.{Response}
use ofcir.Server.Clientset.{Rest, update_cir}
use ofcir.Server.Acquire.{
  PoolsByName, is_free, acquired, on_update, try_resource, look_for_available_resource,
}

-- The answer is that of a free resource with the property, whose update the server took.
pub record Found {C : Type 0} (rest : Rest C) (P : CiResource → Type 0) (pools : PoolsByName)
    (a : Response) : Type 0 where
  pub resource : CiResource
  pub has : P resource
  pub free : is_free resource ≡ true
  pub answer : a ≡ acquired pools resource
  pub before : C
  pub taken :
      is_ok (update_cir rest resource.meta.namespace (set_spec_state in_use resource) before).0
      ≡ true

module _ {C : Type 0} (rest : Rest C) (pools : PoolsByName) (P : CiResource → Type 0)
    (a : Response) where
  try_resource-Found :
      (r : CiResource) (next : Exec C (Option Response))
      → P r
      → ((c : C) → (next c).0 ≡ ok (some a) → Found rest P pools a)
      → (c : C) → (try_resource rest pools r next c).0 ≡ ok (some a)
      → Found rest P pools a
  unfolding try_resource
  try_resource-Found r next p ih c h = elim (Bool-cases (is_free r)) [
    | inl f ↦
        let m = update_cir rest r.meta.namespace (set_spec_state in_use r) in
        updated (m c).0 (m c).1 refl f (rw f at h)
    | inr f ↦ ih c (rw f at h)
  ]
    where
      updated :
          (u : Outcome CiResource) (c' : C)
          → (update_cir rest r.meta.namespace (set_spec_state in_use r) c).0 ≡ u
          → is_free r ≡ true
          → (on_update rest pools r next u c').0 ≡ ok (some a)
          → Found rest P pools a
      updated (ok x) c' e f k = record {
        resource = r;
        has = p;
        free = f;
        answer = ground arith;
        before = c;
        taken = rw e;
      }
      updated (err x) c' e f k = ih c' k
      updated panic c' e f k = absurd (ground arith)

  asked-Found :
      (r : CiResource) (next : Exec C (Option Response))
      → P r
      → ((c : C) → (next c).0 ≡ ok (some a) → Found rest P pools a)
      → (d : Outcome Bool) (c : C)
      → (continue d (λ is_done. if is_done then pure none else try_resource rest pools r next) c).0
        ≡ ok (some a)
      → Found rest P pools a
  asked-Found r next p ih (ok true) c h = absurd (ground arith)
  asked-Found r next p ih (ok false) c h = try_resource-Found r next p ih c h
  asked-Found r next p ih (err e) c h = absurd (ground arith)
  asked-Found r next p ih panic c h = absurd (ground arith)

  pub look_for-Found :
      (rs : List CiResource) (c : C)
      → All P rs
      → (look_for_available_resource rest pools rs c).0 ≡ ok (some a)
      → Found rest P pools a
  unfolding look_for_available_resource
  look_for-Found [] c all h = absurd (ground arith)
  look_for-Found (r ∷ rs) c all h =
      asked-Found r (look_for_available_resource rest pools rs) all.0
        (λ d k. look_for-Found rs d all.1 k) (rest.expired c).0 (rest.expired c).1 h
