-- ===== src/Examples/Startup.antt =====
-- A cluster whose calls are logged, on which the manager and the server start.
use ofcir.Prelude.{
  ◌≡◌, refl, String, List, [], ◌∷◌, none, some, true, false, Exec, errorf, ok, err, panic,
}
use ofcir.Manager.{Runtime, ManagerFlags, Kind, ci_pool, ci_resource, exit_code, manage}
use ofcir.Manager.Started.{Managed, manage-Managed}
use ofcir.Server.Setup.{Platform, Flags, main}
use ofcir.Server.Started.{Serving, main-Serving}

abbrev logged : {A : Type 0} → String → A → Exec (List String) A
logged s a w = (ok a, s ∷ w)

abbrev kind_name : Kind → String
kind_name ci_pool = "pool"
kind_name ci_resource = "resource"

abbrev runtime : Runtime (Unit {0}) (Unit {0}) (List String)
runtime = record {
  add_core_to_scheme = logged "core" tt;
  add_ofcir_to_scheme = logged "ofcir" tt;
  get_config_or_die = logged "config" tt;
  new_manager = λ c o. logged o.metrics.bind_address tt;
  complete = λ mgr c. logged (kind_name c.for_kind) tt;
  add_healthz_check = λ mgr name. logged name tt;
  add_readyz_check = λ mgr name. logged name tt;
  start = λ mgr. logged "start" tt;
}

-- a runtime without leases for the leader's election
abbrev no_leases : Runtime (Unit {0}) (Unit {0}) (List String)
no_leases = record runtime { start = λ mgr w. (err (errorf "leader election lost" []), w) }

abbrev plain_flags : ManagerFlags
plain_flags = record {
  metrics_addr = none;
  probe_addr = none;
  enable_leader_election = some true;
  webhook_port = none;
}

calls_in_order : manage runtime plain_flags [] ≡ (
  ok tt,
  "start" ∷ "readyz" ∷ "healthz" ∷ "resource" ∷ "pool" ∷ ":8443" ∷ "config" ∷ "ofcir" ∷ "core" ∷ [],
)
unfolding manage
calls_in_order = refl

exit_of_failed_run : exit_code (manage no_leases plain_flags []).0 ≡ 1
unfolding manage
exit_of_failed_run = refl

exit_0 : exit_code (manage runtime plain_flags []).0 ≡ 0
unfolding manage
exit_0 = refl

manage-Managed_example : Managed runtime plain_flags [] (manage runtime plain_flags []).1
manage-Managed_example = manage-Managed runtime plain_flags [] exit_0

abbrev platform : Platform String String (Unit {0}) (List String)
platform = record {
  build_config_from_flags = λ url path. logged path (record {
    others = path;
    qps = 0;
    burst = 0;
    group_version = none;
    api_path = "";
    without_conversion = false;
    user_agent = "";
  });
  in_cluster_config = λ w. (err (errorf "not in a cluster" []), w);
  add_to_scheme = logged "scheme" tt;
  rest_client_for = λ c. logged c.api_path c.user_agent;
  core_client_for = λ c. logged c.api_path tt;
  default_user_agent = "ofcir-api";
  listen_and_serve = λ server. logged server.addr tt;
}

abbrev named_file : Flags
named_file = record { kubeconfig = some "config.yaml"; port = none; namespace = none }

-- the client of the secrets is made of the configuration that was found, not of the copy
serves :
    main platform named_file [] ≡ (ok tt, ":8087" ∷ "" ∷ "/apis" ∷ "scheme" ∷ "config.yaml" ∷ [])
unfolding main
serves = refl

outside_of_cluster : (main platform (record named_file { kubeconfig = none }) []).0 ≡ panic
unfolding main
outside_of_cluster = refl

serves_ok : (main platform named_file []).0 ≡ ok tt
unfolding main
serves_ok = refl

main-Serving_example : Serving platform named_file [] (main platform named_file []).1
main-Serving_example = main-Serving platform named_file [] serves_ok
