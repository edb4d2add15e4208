-- ===== src/Examples/Growing.antt =====
-- A cluster that holds the resources of its pools, and a pool that lacks two of three.
use ofcir.Prelude.{
  ◌≡◌, ◌≢◌, refl, pos, String, str_eq, eq_iff, Bool-cases, inl, inr, true, false, ◌+ℤ◌, ◌-ℤ◌, any,
  All, List, [], ◌∷◌, Exec, ok, err, foreign, pure, length, ltb_ℤ, eq_ℤ, map, if◌then◌else◌, arith,
}
use ofcir.Prelude.Growth.{here, GrownBy}
use ofcir.Api.{CiResource, CiPool, available}
use ofcir.Kube.{Client}
use ofcir.Resource.{no_secret}
use ofcir.Prelude.Texts.{after_last, atoi, format_04d, decimal, digits}
use ofcir.Prelude.Sorting.{sort_stable}
use ofcir.Pool.Names.{AtMost}
use ofcir.Pool.{
  of_pool, numeral, get_highest_resource_numeral, create_loop, new_cir, save_pool_status,
}
use ofcir.Pool.Control.{update_size, resize, manage_ciresources_for}
use ofcir.Pool.Growth.{spec_for, Answering}
use ofcir.Pool.Sized.{grows_to_size}
use ofcir.Examples.Fixtures.{cir_in, small, pool_of}

-- a creation fails where the name is taken
abbrev create_once : CiResource → Exec (List CiResource) (Unit {0})
create_once r held =
    if any (λ (x : CiResource). str_eq x.meta.name r.meta.name) held
    then (err (foreign "already exists"), held)
    else (ok tt, r ∷ held)

abbrev client : Client (List CiResource)
client = record {
  get_cir = λ ns name. pure (cir_in name "small" available available);
  get_pool = λ ns name. pure small;
  get_secret = λ ns name. pure no_secret;
  list_cirs = λ ns held. (ok held, held);
  create_cir = create_once;
  update_cir = pure;
  update_cir_status = pure;
  update_pool = pure;
  update_pool_status = pure;
  delete_all_cirs = λ ns label. pure tt;
  is_not_found = λ e. false;
  clock = λ held. pos 5000;
}

no_match :
    (name : String) (held : List CiResource)
    → All (λ x. x.meta.name ≢ name) held
    → any (λ (x : CiResource). str_eq x.meta.name name) held ≡ false
no_match name [] a = refl
no_match name (x ∷ xs) a = elim (Bool-cases (str_eq x.meta.name name)) [
  | inl e ↦ absurd (a.0 ((eq_iff x.meta.name name).0 e))
  | inr e ↦ rw e (no_match name xs a.1)
]

client-Answering : Answering client "ofcir-system" (λ held. held)
client-Answering = record {
  lists = λ held. refl;
  creates = λ r held e free. rw (no_match r.meta.name held free) (refl, here (refl, refl));
  writes_status = λ p held e. (p, held, refl, (refl, refl, refl), refl);
}

abbrev wants_three : CiPool
wants_three = pool_of "small" (pos 0) (pos 3)

-- one resource of the pool, and one of another
abbrev before : List CiResource
before =
    cir_in "cir-0007" "small" available available
    ∷ cir_in "cir-0012" "spare" available available
    ∷ []

abbrev after : List CiResource
after = (manage_ciresources_for client wants_three before).1

abbrev names_of : List CiResource → List String
names_of = map (λ (x : CiResource). x.meta.name)

-- the names that it makes follow the highest of all pools
names_after : names_of after ≡ "cir-0014" ∷ "cir-0013" ∷ "cir-0007" ∷ "cir-0012" ∷ []
unfolding manage_ciresources_for get_highest_resource_numeral numeral after_last atoi ltb_ℤ ◌+ℤ◌
    ◌-ℤ◌ eq_ℤ create_loop update_size resize sort_stable new_cir save_pool_status format_04d decimal
    digits
names_after = refl

numbers_bounded : All (AtMost (pos 12)) before
unfolding numeral after_last atoi
numbers_bounded = (λ k e. ground arith, (λ k e. ground arith, tt))

grows_to_size_example :
    ((manage_ciresources_for client wants_three before).0 ≡ ok true)
    × GrownBy (λ x. x.spec ≡ spec_for wants_three) 2 before after
    × (pos (length (of_pool "small" after)) ≡ pos 3)
    × ((manage_ciresources_for client wants_three after).0 ≡ ok false)
    × ((manage_ciresources_for client wants_three after).1 ≡ after)
grows_to_size_example =
    grows_to_size client-Answering wants_three wants_three before 2 12 refl (refl, refl, refl) refl
      (omega arith) (omega arith) numbers_bounded (omega arith)
