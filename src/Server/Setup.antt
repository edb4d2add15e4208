-- ===== src/Server/Setup.antt =====
-- pkg/server/server.go, pkg/server/clientset/v1/api.go and cmd/ofcir-api/main.go: how the server is
-- set up and started.
use ofcir.Prelude.{
  ℕ, pos, ◌*◌, String, str_eq, Bool, true, List, [], ◌∷◌, Option, none, some, Exec, pure, modify,
  gets, ◌>>=◌, ◌>>◌, catch, or_panic, if◌then◌else◌,
}
use ofcir.Prelude.Texts.{concat}
use ofcir.Api.{Time}
use ofcir.Fsm.Machine.{second}

-- `rest.Config`: the fields that the code writes, and all others in one value of `R`.
pub record Config (R : Type 0) : Type 0 where
  pub others : R
  pub qps : ℕ
  pub burst : ℕ
  pub group_version : Option (String × String)
  pub api_path : String
  pub without_conversion : Bool
  pub user_agent : String

pub data Endpoint : Type 0 where
  get_status : Endpoint
  acquire : Endpoint
  release : Endpoint

-- An entry of gin's router: a method and a path, behind `AuthRequired` or not.
pub record Entry : Type 0 where
  pub method : String
  pub path : String
  pub needs_token : Bool
  pub endpoint : Endpoint

-- `OfcirAPI`, with nil pointers before `Init`. `K` is the REST client of the clientset, and `S` the
-- client of the secrets.
pub record OfcirApi (R K S : Type 0) : Type 0 where
  pub config : Option (Config R)
  pub clientset : Option K
  pub core : Option S
  pub router : Option (List Entry)
  pub port : String
  pub namespace : String

-- `http.Server`, whose handlers see the fields of the API
pub record HttpServer (R K S : Type 0) : Type 0 where
  pub addr : String
  pub api : OfcirApi R K S
  pub read_timeout : Time
  pub idle_timeout : Time

-- The calls of client-go and of net/http.
pub record Platform (R K S W : Type 0) : Type 0 where
  pub build_config_from_flags : String → String → Exec W (Config R)
  pub in_cluster_config : Exec W (Config R)
  pub add_to_scheme : Exec W (Unit {0})
  pub rest_client_for : Config R → Exec W K
  pub core_client_for : Config R → Exec W S
  pub default_user_agent : String
  pub listen_and_serve : HttpServer R K S → Exec W (Unit {0})

-- The API and what is outside of it.
pub record Host (R K S W : Type 0) : Type 0 where
  pub api : OfcirApi R K S
  pub outside : W

-- `NewOfcirAPI`
abbrev pub new_ofcir_api : {R K S : Type 0} → String → String → OfcirApi R K S
new_ofcir_api port namespace = record {
  config = none;
  clientset = none;
  core = none;
  router = none;
  port = port;
  namespace = namespace;
}

module _ {R K S W : Type 0} where
  abbrev pub outside : {A : Type 0} → Exec W A → Exec (Host R K S W) A
  outside m s = let (r, w) = m s.outside in (r, record s { outside = w })

  abbrev pub set_api : (OfcirApi R K S → OfcirApi R K S) → Exec (Host R K S W) (Unit {0})
  set_api f = modify (λ (s : Host R K S W). record s { api = f s.api })

-- the group "/v1", behind `AuthRequired`
abbrev pub routes : List Entry
routes =
    record {
      method = "GET";
      path = "/v1/ofcir/:cirName";
      needs_token = true;
      endpoint = get_status;
    }
    ∷ record { method = "POST"; path = "/v1/ofcir"; needs_token = true; endpoint = acquire }
    ∷ record {
      method = "DELETE";
      path = "/v1/ofcir/:cirName";
      needs_token = true;
      endpoint = release;
    }
    ∷ []

-- The flags of cmd/ofcir-api/main.go; none is one that is not given.
pub record Flags : Type 0 where
  pub kubeconfig : Option String
  pub port : Option String
  pub namespace : Option String

abbrev pub or_default : {A : Type 0} → A → Option A → A
or_default d none = d
or_default d (some s) = s

module _ {R K S W : Type 0} (platform : Platform R K S W) where
  -- the configuration that `NewForConfig` of the clientset writes, in a copy
  unfoldable pub client_config : Config R → Config R
  client_config c = record c {
    group_version = some ("ofcir.openshift", "v1");
    api_path = "/apis";
    without_conversion = true;
    user_agent = platform.default_user_agent;
  }

  -- `NewForConfig` of the clientset
  unfoldable pub new_for_config : Config R → Exec W K
  unfolding client_config
  new_for_config c = platform.rest_client_for (client_config c)

  abbrev pub find_config : String → Exec W (Config R)
  find_config kubeconfig =
      if str_eq kubeconfig ""
      then platform.in_cluster_config
      else platform.build_config_from_flags "" kubeconfig

  abbrev pub with_limits : Config R → Config R
  with_limits c = record c { qps = 50; burst = 100 }

  -- the end of `Init`: the client of the secrets, and the router
  abbrev pub set_core : Config R → Exec (Host R K S W) (Unit {0})
  set_core config = do
    core ← outside (or_panic (platform.core_client_for config))
    set_api (λ api. record api { core = some core })
    set_api (λ api. record api { router = some routes })

  abbrev pub set_clients : Config R → Exec (Host R K S W) (Unit {0})
  set_clients config = do
    clientset ← outside (or_panic (new_for_config config))
    set_api (λ api. record api { clientset = some clientset })
    set_core config

  -- `Init`; the error of `AddToScheme` is dropped
  unfoldable pub init : String → Exec (Host R K S W) (Unit {0})
  unfolding new_for_config
  init kubeconfig = do
    found ← outside (find_config kubeconfig)
    set_api (λ api. record api { config = some (with_limits found) })
    outside (catch platform.add_to_scheme (λ e. pure tt))
    set_clients (with_limits found)

  unfoldable pub http_server : OfcirApi R K S → HttpServer R K S
  http_server api = record {
    addr = concat ":" api.port;
    api = api;
    read_timeout = pos (10 * second);
    idle_timeout = pos (120 * second);
  }

  -- `Run`, which drops the error of `ListenAndServe`
  unfoldable pub run : Exec (Host R K S W) (Unit {0})
  unfolding http_server
  run = do
    api ← gets (λ s. s.api)
    outside (catch (platform.listen_and_serve (http_server api)) (λ e. pure tt))

  -- `main` of cmd/ofcir-api/main.go behind the parsing of the flags
  unfoldable pub main : Flags → Exec W (Unit {0})
  unfolding init run
  main flags w =
      let (r, s) =
        (do or_panic (init (or_default "" flags.kubeconfig)); run)
          (record {
            api =
                new_ofcir_api (or_default "8087" flags.port)
                  (or_default "ofcir-system" flags.namespace);
            outside = w;
          }) in
      (r, s.outside)
