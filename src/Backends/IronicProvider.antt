-- ===== src/Backends/IronicProvider.antt =====
-- pkg/providers/ironic.go: the methods of `ironicProvider`.
use ofcir.Prelude.{
  String, str_eq, Bool, false, not, [], ◌∷◌, Option, none, some, Exec, Outcome, ok, err, panic,
  pure, crash, catch, wrapping, wrap_outcome, ◌>>=◌, ◌>>◌, if◌then◌else◌,
}
use ofcir.Provider.{Resource, Provider, SecretData, resource_at}
use ofcir.Backends.Ports.{is_port_open}
use ofcir.Backends.IronicNodes.{cir_name, get_node, update_node, deploy_node, select_node}
use ofcir.Backends.Ironic.{
  Value, null, text, json, Extra, read, write, Node, IronicProviderConfig, IronicApi, IronicState,
  outside, update_client,
}

-- `res.Address, _ = ….(string)`
abbrev pub text_or_empty : Option Value → String
text_or_empty (some (text s)) = s
text_or_empty _ = ""

-- the text itself, or its JSON
abbrev pub text_or_json : Option Value → String
text_or_json none = "null"
text_or_json (some null) = "null"
text_or_json (some (text s)) = s
text_or_json (some (json s)) = s

module _ {K W : Type 0} (api : IronicApi K W) (config : IronicProviderConfig) where
  -- `Acquire`
  unfoldable pub acquire : String → Exec (IronicState K W) Resource
  acquire pool_type = do
    n ← wrapping "error selecting node" [] (select_node api config pool_type)
    pure (resource_at n.uuid "")

  abbrev pub reachable : String → String → Exec (IronicState K W) Bool
  reachable host port = outside api config (is_port_open api.dial host port)

  -- `v.(string)` on a port that is set
  abbrev pub ssh_port : Option Value → Exec (IronicState K W) String
  ssh_port none = pure "22"
  ssh_port (some (text p)) = pure p
  ssh_port (some null) = crash
  ssh_port (some (json s)) = crash

  -- `AcquireCompleted`, where the node is active
  unfoldable pub check_active : String → Node → Exec (IronicState K W) (Bool × Resource)
  check_active id n = do
    let address = text_or_empty (read "ofcir_ip" n.extra)
    let metadata = text_or_json (read "ofcir_data" n.extra)
    port ← ssh_port (read "ofcir_port_ssh" n.extra)
    is_open ← reachable address port
    pure (is_open, record { id = id; address = address; metadata = metadata })

  -- `AcquireCompleted`
  unfoldable pub acquire_completed : String → Exec (IronicState K W) (Bool × Resource)
  acquire_completed id = do
    n ← wrapping "error getting node" [] (get_node api config id)
    if str_eq n.provision_state api.deploy_fail
        then wrapping "error deploying node" [] (deploy_node api config n)
        else pure tt
    if not (str_eq n.provision_state api.active)
        then pure (false, resource_at id "")
        else check_active id n

  -- `Clean`
  unfoldable pub clean : String → Exec (IronicState K W) (Unit {0})
  clean id = do
    n ← wrapping "error getting node" [] (get_node api config id)
    deploy_node api config n

  -- `CleanCompleted`
  unfoldable pub clean_completed : String → Exec (IronicState K W) Bool
  clean_completed id = do (cleaned, resource) ← acquire_completed id; pure cleaned

  abbrev pub extra_of : Outcome Node → Exec (IronicState K W) Extra
  extra_of (ok n) = pure n.extra
  extra_of (err e) = pure (api.extra_beside e)
  extra_of panic = crash

  -- the write of `Release`, where the node has a map; its error is dropped
  abbrev pub unmark : String → Extra → Exec (IronicState K W) (Unit {0})
  unmark id none = crash
  unmark id (some m) =
      catch (update_node api config id (("/extra", write cir_name (text "") m) ∷ [])) (λ e. pure tt)

  -- `Release`, which drops the error of `GetNode`
  unfoldable pub release : String → Exec (IronicState K W) (Unit {0})
  unfolding update_node
  release id s =
      let (r, s') = get_node api config id s in (do extra ← extra_of r; unmark id extra) s'

  abbrev pub ironic_provider : Provider (IronicState K W)
  ironic_provider = record {
    acquire = λ pool_size pool_name pool_type. acquire pool_type;
    acquire_completed = acquire_completed;
    clean = clean;
    clean_completed = clean_completed;
    release = release;
  }

abbrev pub default_config : IronicProviderConfig
default_config = record {
  endpoint = "https://172.22.0.3:6385";
  os_cloud = "openstack";
  cloud_yaml = "";
  username = "";
  password = "";
  image = "http://172.22.0.1/images/ofcir_image.qcow2";
  sshkey = "";
}

abbrev read_config :
    (IronicProviderConfig → String → Outcome IronicProviderConfig)
    → Option String
    → Outcome IronicProviderConfig
read_config unmarshal none = ok default_config
read_config unmarshal (some s) =
    wrap_outcome "error in provider config json" [] (unmarshal default_config s)

-- `IronicProviderFactory`, where `unmarshal` is `json.Unmarshal` over the default configuration
unfoldable pub ironic_provider_factory :
    {K W : Type 0}
    → IronicApi K W
    → (IronicProviderConfig → String → Outcome IronicProviderConfig)
    → String
    → SecretData
    → Exec (IronicState K W) (Provider (IronicState K W))
ironic_provider_factory api unmarshal provider_info secret = do
  config ← λ s. (read_config unmarshal (secret "config"), s)
  update_client api config false
  pure (ironic_provider api config)
