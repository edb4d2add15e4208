-- ===== src/Backends/IbmCloudProvider.antt =====
-- pkg/providers/ibmcloud.go: the methods of `ibmcloudProvider`, and its factory.
use ofcir.Prelude.{
  String, str_eq, Bool, true, false, not, ◌&&◌, List, [], ◌∷◌, Option, none, some, Exec, errorf,
  Outcome, ok, pure, raise, catch, wrap_outcome, ◌>>=◌, ◌>>◌, if◌then◌else◌,
}
use ofcir.Provider.{Resource, Provider, SecretData, resource_at}
use ofcir.Backends.Ports.{is_port_open}
use ofcir.Backends.IbmCloud.{
  IbmcloudProviderConfig, Hardware, SoftLayer, manual_tag, taken_tag, deref, ensure_ssh_key,
  get_item_price_list, server_create,
}

module _ {W : Type 0} (sl : SoftLayer W) (config : IbmcloudProviderConfig) where
  -- the loop of `getNodeByName`
  unfoldable pub find_node : String → List Hardware → Exec W Hardware
  find_node name [] w = raise (errorf "Node node found" []) w
  find_node name (n ∷ ns) w =
      let rest = find_node name ns in
      (do h ← deref sl config n.hostname; if str_eq h name then pure n else rest) w

  -- `getNodeByName`, which never returns a nil node beside a nil error
  unfoldable pub get_node_by_name : String → Exec W Hardware
  unfolding find_node
  get_node_by_name name = do nodes ← sl.get_hardware; find_node name nodes

  -- `Clean`
  unfoldable pub clean : String → Exec W (Unit {0})
  unfolding get_node_by_name
  clean id = do
    node ← get_node_by_name id
    key ← ensure_ssh_key sl config config.sshkey
    package_id ← deref sl config node.package_id
    prices ← get_item_price_list sl config package_id (config.os ∷ [])
    key_id ← deref sl config key
    node_id ← deref sl config node.id
    sl.reload_operating_system node_id (record {
      ssh_key_ids = key_id ∷ [];
      custom_provision_script_uri = config.prov_script;
      item_prices = prices;
    })

  -- The loop over the tags, with the two flags `taken` and `manual` so far.
  unfoldable pub read_tags : List (Option String) → Bool → Bool → Exec W (Bool × Bool)
  read_tags [] taken manual = pure (taken, manual)
  read_tags (t ∷ ts) taken manual = do
    name ← deref sl config t
    read_tags ts (if str_eq name taken_tag then true else taken)
        (if str_eq name manual_tag then true else manual)

  -- `*node.HardwareStatus.Status == "ACTIVE"`, which is read for manual hosts that are not taken
  abbrev pub is_up : Hardware → Bool → Bool → Exec W Bool
  is_up n taken manual =
      if manual && not taken
      then (do s ← deref sl config n.status; pure (str_eq s "ACTIVE"))
      else pure false

  -- a host is marked and cleaned; the errors of both calls are dropped
  unfoldable pub take_host : Hardware → Exec W (Unit {0})
  take_host n = do
    id ← deref sl config n.id
    catch (sl.set_tags id "ofcir-manual,ofcir-taken") (λ e. pure tt)
    name ← deref sl config n.hostname
    catch (clean name) (λ e. pure tt)

  -- the loop of `getAvailableHost`
  unfoldable pub find_available : List Hardware → Exec W (Option Hardware)
  unfolding read_tags
  find_available [] w = pure none w
  find_available (n ∷ ns) w =
      let rest = find_available ns in
      (do
        (taken, manual) ← read_tags n.tags false false
        up ← is_up n taken manual
        if up then take_host n >> pure (some n) else rest)
        w

  -- `getAvailableHost`
  unfoldable pub get_available_host : Exec W (Option Hardware)
  unfolding find_available
  get_available_host = do
    nodes ← sl.get_tagged_hardware (manual_tag ∷ taken_tag ∷ [])
    find_available nodes

  abbrev pub or_create : String → Option Hardware → Exec W Resource
  or_create pool_name (some n) = do name ← deref sl config n.hostname; pure (resource_at name "")
  or_create pool_name none =
      if str_eq config.preset ""
      then raise (errorf "No suitable hosts found and Preset not set to create Hosts" [])
      else do id ← server_create sl config pool_name config.preset; pure (resource_at id "")

  -- `Acquire`
  unfoldable pub acquire : String → Exec W Resource
  unfolding get_available_host
  acquire pool_name = do host ← get_available_host; or_create pool_name host

  -- `AcquireCompleted`
  unfoldable pub acquire_completed : String → Exec W (Bool × Resource)
  unfolding get_node_by_name
  acquire_completed id = do
    node ← get_node_by_name id
    status ← deref sl config node.status
    if not (str_eq status "ACTIVE") then pure (false, resource_at id "") else do
      transaction ← deref sl config node.transaction_status
      if not (str_eq transaction "COMPLETE") then pure (false, resource_at id "") else do
        ip ← deref sl config node.primary_ip_address
        is_open ← is_port_open sl.dial ip "22"
        pure (is_open, resource_at id (if is_open then ip else ""))

  -- `CleanCompleted`
  unfoldable pub clean_completed : String → Exec W Bool
  clean_completed id = do (cleaned, resource) ← acquire_completed id; pure cleaned

  -- `releaseManualHost`
  unfoldable pub release_manual_host : Hardware → Exec W (Unit {0})
  release_manual_host n = do id ← deref sl config n.id; sl.set_tags id manual_tag

  -- the loop over the tags in `Release`
  unfoldable pub has_manual_tag : List (Option String) → Exec W Bool
  has_manual_tag [] w = pure false w
  has_manual_tag (t ∷ ts) w =
      let rest = has_manual_tag ts in
      (do name ← deref sl config t; if str_eq name manual_tag then pure true else rest) w

  abbrev pub cancel : Hardware → Exec W (Unit {0})
  cancel n = do
    billing ← deref sl config n.billing_id
    hourly ← deref sl config n.hourly
    sl.cancel_item billing hourly

  -- `Release`
  unfoldable pub release : String → Exec W (Unit {0})
  unfolding get_node_by_name has_manual_tag release_manual_host
  release id = do
    node ← get_node_by_name id
    is_manual ← has_manual_tag node.tags
    if is_manual then release_manual_host node else cancel node

  abbrev pub ibmcloud_provider : Provider W
  ibmcloud_provider = record {
    acquire = λ pool_size pool_name pool_type. acquire pool_name;
    acquire_completed = acquire_completed;
    clean = clean;
    clean_completed = clean_completed;
    release = release;
  }

abbrev pub default_config : IbmcloudProviderConfig
default_config = record {
  apikey = "";
  sshkey = "";
  preset = "";
  os = "OS_CENTOS_STREAM_8_X_64_BIT";
  prov_script = "";
}

abbrev read_config :
    (IbmcloudProviderConfig → String → Outcome IbmcloudProviderConfig)
    → Option String
    → Outcome IbmcloudProviderConfig
read_config unmarshal none = ok default_config
read_config unmarshal (some s) =
    wrap_outcome "error in provider config json" [] (unmarshal default_config s)

-- `IbmcloudProviderFactory`, where `unmarshal` is `json.Unmarshal` over the default configuration
-- and `session` is `session.New` with a key
unfoldable pub ibmcloud_provider_factory :
    {W : Type 0}
    → (String → SoftLayer W)
    → (IbmcloudProviderConfig → String → Outcome IbmcloudProviderConfig)
    → String
    → SecretData
    → Exec W (Provider W)
ibmcloud_provider_factory session unmarshal provider_info secret = do
  config ← λ w. (read_config unmarshal (secret "config"), w)
  pure (ibmcloud_provider (session config.apikey) config)
