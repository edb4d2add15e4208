-- ===== src/Manager.antt =====
-- main.go, and `SetupWithManager` of controllers/cipool_controller.go and of
-- controllers/ciresource_controller.go: how the controllers are set up and started.
use ofcir.Prelude.{
  ℕ, ℤ, String, Bool, true, false, List, [], ◌∷◌, Option, none, some, Exec, Outcome, ok, err, panic,
  ◌>>=◌, ◌>>◌, or_panic,
}
use ofcir.Server.Setup.{or_default}
pub mod Started

pub data Kind : Type 0 where
  ci_pool : Kind
  ci_resource : Kind

-- What `NewControllerManagedBy` is told of a controller; its reconciler is the one of the kind,
-- with the client and the scheme of the manager.
pub record Controller : Type 0 where
  pub for_kind : Kind
  pub max_concurrent_reconciles : ℕ

pub data FilterProvider : Type 0 where
  with_authentication_and_authorization : FilterProvider

-- `metricsserver.Options`, with what its function on the TLS configuration sets.
pub record MetricsOptions : Type 0 where
  pub bind_address : String
  pub secure_serving : Bool
  pub next_protos : List String
  pub filter_provider : FilterProvider

-- `ctrl.Options`, but for the scheme, the variable of the package.
pub record ManagerOptions : Type 0 where
  pub metrics : MetricsOptions
  pub health_probe_bind_address : String
  pub leader_election : Bool
  pub leader_election_id : String
  pub leader_election_namespace : String
  pub default_namespaces : List String

-- The calls of controller-runtime: `G` is a configuration of the cluster, `M` a manager, and a
-- state of `W` holds the scheme. `get_config_or_die` has an error where it exits with code 1.
pub record Runtime (G M W : Type 0) : Type 0 where
  pub add_core_to_scheme : Exec W (Unit {0})
  pub add_ofcir_to_scheme : Exec W (Unit {0})
  pub get_config_or_die : Exec W G
  pub new_manager : G → ManagerOptions → Exec W M
  pub complete : M → Controller → Exec W (Unit {0})
  pub add_healthz_check : M → String → Exec W (Unit {0})
  pub add_readyz_check : M → String → Exec W (Unit {0})
  pub start : M → Exec W (Unit {0})

-- The flags of main.go but for those of zap; none is one that is not given.
pub record ManagerFlags : Type 0 where
  pub metrics_addr : Option String
  pub probe_addr : Option String
  pub enable_leader_election : Option Bool
  pub webhook_port : Option ℤ

abbrev pub metrics_server_options : ManagerFlags → MetricsOptions
metrics_server_options flags = record {
  bind_address = or_default ":8443" flags.metrics_addr;
  secure_serving = true;
  next_protos = "http/1.1" ∷ [];
  filter_provider = with_authentication_and_authorization;
}

abbrev pub options : ManagerFlags → ManagerOptions
options flags = record {
  metrics = metrics_server_options flags;
  health_probe_bind_address = or_default ":8081" flags.probe_addr;
  leader_election = or_default false flags.enable_leader_election;
  leader_election_id = "7c25506c.openshift";
  leader_election_namespace = "ofcir-system";
  default_namespaces = "ofcir-system" ∷ [];
}

abbrev pub pool_controller : Controller
pool_controller = record { for_kind = ci_pool; max_concurrent_reconciles = 1 }

abbrev pub resource_controller : Controller
resource_controller = record { for_kind = ci_resource; max_concurrent_reconciles = 1 }

-- the status with which the process ends: `os.Exit(1)` on an error, and 2 on a panic
abbrev pub exit_code : Outcome (Unit {0}) → ℕ
exit_code (ok u) = 0
exit_code (err e) = 1
exit_code panic = 2

module _ {G M W : Type 0} (runtime : Runtime G M W) where
  -- `init`; `utilruntime.Must` panics on an error
  abbrev pub add_schemes : Exec W (Unit {0})
  add_schemes = do or_panic runtime.add_core_to_scheme; or_panic runtime.add_ofcir_to_scheme

  -- `SetupWithManager` of `CIPoolReconciler`
  abbrev pub setup_pools : M → Exec W (Unit {0})
  setup_pools mgr = runtime.complete mgr pool_controller

  -- `SetupWithManager` of `CIResourceReconciler`
  abbrev pub setup_resources : M → Exec W (Unit {0})
  setup_resources mgr = runtime.complete mgr resource_controller

  -- the rest of `main`, with a manager
  abbrev pub run_manager : M → Exec W (Unit {0})
  run_manager mgr = do
    setup_pools mgr
    setup_resources mgr
    runtime.add_healthz_check mgr "healthz"
    runtime.add_readyz_check mgr "readyz"
    runtime.start mgr

  -- `init` and `main` behind the parsing of the flags
  unfoldable pub manage : ManagerFlags → Exec W (Unit {0})
  manage flags = do
    add_schemes
    config ← runtime.get_config_or_die
    mgr ← runtime.new_manager config (options flags)
    run_manager mgr
