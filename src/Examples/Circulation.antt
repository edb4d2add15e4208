-- ===== src/Examples/Circulation.antt =====
-- A cluster with one resource, whose versions grow by a digit, and a host that goes round.
use ofcir.Prelude.{
  ◌≡◌, refl, sym, ◌∙◌, ap, eq_ℤ, ℕ, pos, str_eq, eq_iff, true, false, [], ◌∷◌, none, some, Exec, ok,
  err, foreign, pure, if◌then◌else◌,
}
use ofcir.Prelude.Texts.{concat, split}
use ofcir.Api.{CiResource, in_use, is_fallback_pool, set_spec_state}
use ofcir.Provider.{new_provider}
use ofcir.Kube.{Client, World, Env}
use ofcir.Resource.{no_secret, reconcile}
use ofcir.Resource.Answering.{Answers, Reached}
use ofcir.Server.Access.{can_use_pool}
use ofcir.Server.Acquire.{acquired, is_free, try_resource}
use ofcir.Server.Clientset.{Rest}
use ofcir.Server.Lookup.{released, release}
use ofcir.System.Circulation.{Serves, circulates}
use ofcir.Examples.Fixtures.{cir_in, small, util, factories, always_ready}

abbrev next_version : CiResource → CiResource
next_version c = record c {
  meta = record c.meta { resource_version = concat "0" c.meta.resource_version };
}

-- what an update answers and stores, where it has the current version
abbrev checked : CiResource → CiResource → Exec CiResource CiResource
checked r new c =
    if str_eq r.meta.resource_version c.meta.resource_version
    then (ok (next_version new), next_version new)
    else (err (foreign "conflict"), c)

abbrev client : Client CiResource
client = record {
  get_cir = λ ns name c. (ok c, c);
  get_pool = λ ns name. pure small;
  get_secret = λ ns name. pure no_secret;
  list_cirs = λ ns c. (ok (c ∷ []), c);
  create_cir = λ r. pure tt;
  update_cir = λ r c. checked r (record c { spec = r.spec }) c;
  update_cir_status = λ r c. checked r (record c { status = r.status }) c;
  update_pool = pure;
  update_pool_status = pure;
  delete_all_cirs = λ ns label. pure tt;
  is_not_found = λ e. false;
  clock = λ c. pos 5000;
}

abbrev env : Env CiResource ℕ
env = record { client = client; factories = factories; util = util }

abbrev rest : Rest CiResource
rest = record {
  get_cipool_list = λ ns kind. pure (small ∷ []);
  get_cipool = λ ns kind name. pure small;
  get_cir_list = λ ns kind c. (ok (c ∷ []), c);
  get_cir = λ ns kind name c. (ok c, c);
  put_cir = λ ns kind name r c. checked r (record c { spec = r.spec }) c;
  get_secret = λ ns name. pure (λ t. none);
  expired = pure false;
  is_not_found = λ e. false;
}

checked_current :
    (r new c : CiResource)
    → r.meta.resource_version ≡ c.meta.resource_version
    → checked r new c ≡ (ok (next_version new), next_version new)
checked_current r new c e =
    let current : str_eq r.meta.resource_version c.meta.resource_version ≡ true =
      (eq_iff r.meta.resource_version c.meta.resource_version).1 e in
    rw current refl

some_same : (c old : CiResource) → some c ≡ some old → c ≡ old
some_same c old e = ap (λ o. elim o [ none ↦ c | some x ↦ x ]) e

client-Answers : Answers env (λ c. some c) "ofcir-system" "cir-0001" small always_ready
unfolding new_provider
client-Answers = record {
  secret = no_secret;
  cir_read = λ c cir e. ap (λ x. (ok x, c)) (some_same c cir e);
  pool_read = λ c. refl;
  secret_read = λ c. refl;
  status_write = λ cir old c e v.
      let k = some_same c old e in
      let new : CiResource = record c { status = cir.status } in
      (
        next_version new,
        next_version new,
        checked_current cir new c (v ∙ ap (λ x. x.meta.resource_version) (sym k)),
        refl,
        refl,
        ap (λ x. x.spec) k,
        (
          ap (λ x. x.meta.namespace) k,
          ap (λ x. x.meta.name) k,
          ap (λ x. x.meta.deletion_timestamp) k,
        ),
      );
  provider_made = λ w. refl;
}

rest-Serves : Serves rest (λ c. some c) "ofcir-system" "cir-0001"
rest-Serves = record {
  cir_read = λ c cir e. ap (λ x. (ok x, c)) (some_same c cir e);
  spec_write = λ cir old c e v.
      let k = some_same c old e in
      let new : CiResource = record c { spec = cir.spec } in
      (
        next_version new,
        next_version new,
        checked_current cir new c (v ∙ ap (λ x. x.meta.resource_version) (sym k)),
        refl,
        ap (λ x. x.status) k,
        refl,
        (
          ap (λ x. x.meta.namespace) k,
          ap (λ x. x.meta.name) k,
          ap (λ x. x.meta.deletion_timestamp) k,
        ),
      );
}

abbrev busy : CiResource
busy = cir_in "cir-0001" "small" in_use in_use

abbrev at_first : World CiResource ℕ
at_first = record { cluster = busy; outside = 0 }

-- the way of the host, from its release to the next job
circulates_example :
    let s1 : World CiResource ℕ = record at_first {
      cluster = (release rest "ofcir-system" (some "small") "cir-0001" busy).1;
    } in
    let again = λ (s : World CiResource ℕ). (reconcile env "ofcir-system" "cir-0001" s).1 in
    let s2 = again (again (again s1)) in
    ((release rest "ofcir-system" (some "small") "cir-0001" busy).0 ≡ ok (released busy))
    × ((free : CiResource) × (some s2.cluster ≡ some free)
        × (is_free free ≡ true)
        × (let (r, c) = try_resource rest (λ name. none) free (pure none) s2.cluster in
            let s3 : World CiResource ℕ = record s2 { cluster = c } in
            (r ≡ ok (some (acquired (λ name. none) free)))
            × Reached client-Answers (set_spec_state in_use busy) in_use 2 (again s3)))
unfolding can_use_pool is_fallback_pool split eq_ℤ
circulates_example =
    circulates client-Answers rest-Serves (some "small") (λ name. none) busy at_first 1 2
      (refl, refl, refl, refl, refl) refl refl refl refl refl
