-- ===== src/Examples/Requests.antt =====
-- A cluster that counts the updates of resources, and the theorems on requests at it.
use ofcir.Prelude.{
  ◌&&◌, keep, ◌≡◌, refl, ℕ, suc, ltb_ℤ, true, false, [], ◌∷◌, Option, none, some, ok, pure, String,
  str_eq, if◌then◌else◌,
}
use ofcir.Prelude.Sorting.{sort_stable}
use ofcir.Api.{CiResource, available, in_use, state_eq, set_spec_state}
use ofcir.Fsm.Release.{is_ok}
use ofcir.Server.{text}
use ofcir.Server.Clientset.{Rest, list_cipools, list_cirs, get_cir, update_cir}
use ofcir.Server.Access.{can_use_pool, unauthorized}
use ofcir.Server.Acquire.{
  PoolsByName, is_usable, by_name, is_free, acquired, acquire_from, search_fallbacks,
  look_for_available_resource, search_pools, acquire, try_resource,
}
use ofcir.Server.Lookup.{release}
use ofcir.Server.Routes.{acquire_cir, OfcirApi, serve}
use ofcir.Server.Tokens.{serve_authorized}
use ofcir.Server.Released.{may_release, is_200, release_exact}
use ofcir.Server.Handed.{Handed, acquire-Handed}
use ofcir.Server.Choice.{IsServing}
use ofcir.Server.Best.{Best, acquire-Best}
use ofcir.Server.{Response}
use ofcir.Examples.Fixtures.{cir_in, small, spare}

abbrev free : CiResource
free = cir_in "cir-0001" "small" available available

abbrev held : CiResource
held = cir_in "cir-0002" "small" in_use in_use

abbrev tokens : String → Option String
tokens t = if str_eq t "t-1" then some "small,spare\n" else none

abbrev rest : Rest ℕ
rest = record {
  get_cipool_list = λ ns kind. pure (small ∷ spare ∷ []);
  get_cipool = λ ns kind name. pure small;
  get_cir_list = λ ns kind. pure (held ∷ free ∷ []);
  get_cir = λ ns kind name. pure held;
  put_cir = λ ns kind name r c. (ok r, suc c);
  get_secret = λ ns name. pure tokens;
  expired = pure false;
  is_not_found = λ e. false;
}

abbrev api : OfcirApi ℕ
api = record { rest = rest; namespace = "ofcir-system"; shuffle = λ rs. rs }

serve_authorized_example : serve api ("t-2" ∷ []) (acquire_cir none) 0 ≡ (ok unauthorized, 0)
serve_authorized_example = serve_authorized api ("t-2" ∷ []) (acquire_cir none) 0 0 tokens refl

release_exact_example :
    let update = update_cir rest "ofcir-system" (set_spec_state available held) 0 in
    let may = may_release rest "ofcir-system" (some "*") "cir-0002" held in
    (is_200 (release rest "ofcir-system" (some "*") "cir-0002" 0).0 ≡ (may && is_ok update.0))
    × ((may && is_ok update.0) ≡ true
        → release rest "ofcir-system" (some "*") "cir-0002" 0
          ≡ (ok (record { status = 200; body = text "cir-0002" [] }), update.1))
    × (may_release rest "ofcir-system" (some "*") "cir-0002" held ≡ false
        → (release rest "ofcir-system" (some "*") "cir-0002" 0).1 ≡ 0)
unfolding get_cir
release_exact_example = release_exact rest "ofcir-system" (some "*") "cir-0002" held 0 0 refl

abbrev pools : PoolsByName
pools n = if str_eq n "small" then some small else none

acquire-Handed_example :
    Handed rest
      (small ∷ spare ∷ [])
      (held ∷ free ∷ [])
      ("host" ∷ [])
      (some "*")
      (acquired pools free)
unfolding list_cipools list_cirs acquire is_usable can_use_pool acquire_from by_name sort_stable
    ltb_ℤ search_pools search_fallbacks look_for_available_resource try_resource is_free state_eq
    update_cir acquired
acquire-Handed_example =
    acquire-Handed rest (λ rs. rs) (λ xs x m. m) ("host" ∷ []) (some "*") (acquired pools free)
      (unfold acquired in refl) (small ∷ spare ∷ []) (held ∷ free ∷ []) "ofcir-system" 0 0 0 refl
      refl refl

rest-IsServing : IsServing rest
unfolding update_cir
rest-IsServing = record { in_time = λ c. refl; takes = λ ns r c. refl }

acquire-Best_example :
    (a : Response) × ((acquire rest (λ rs. rs) "ofcir-system" (some "small") ("host" ∷ []) 0).0
      ≡ ok a)
    × Best rest
        ("host" ∷ [])
        (keep (is_usable ("host" ∷ []) (some "small")) (small ∷ spare ∷ []))
        (held ∷ free ∷ [])
        a
unfolding list_cipools list_cirs
acquire-Best_example =
    acquire-Best rest rest-IsServing (λ rs. rs) (λ xs x m. m) (λ xs x m. m) ("host" ∷ [])
      "ofcir-system" (some "small") (small ∷ spare ∷ []) (held ∷ free ∷ []) 0 0 0 refl refl
