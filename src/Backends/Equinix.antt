-- ===== src/Backends/Equinix.antt =====
-- pkg/providers/equinix.go: the methods of `equinixProvider`, and its factory.
use ofcir.Prelude.{
  ℤ, pos, ltb_ℤ, ◌+ℤ◌, String, str_eq, Bool, true, false, List, [], ◌∷◌, Exec, Outcome, ok, err,
  panic, errorf, pure, raise, crash, wrapping, wrap_outcome, Option, none, some, ◌>>=◌,
  if◌then◌else◌,
}
use ofcir.Prelude.Texts.{remove_dashes, concat, format_d}
use ofcir.Provider.{resource_at, Resource, Provider, SecretData}

pub record EquinixProviderConfig : Type 0 where
  pub project_id : String
  pub token : String
  pub metros : List String
  pub plan : String
  pub os : String
  pub user_data : String

pub record DeviceCreateRequest : Type 0 where
  pub hostname : String
  pub metro : String
  pub plan : String
  pub os : String
  pub project_id : String
  pub tags : List String
  pub user_data : String

pub record Device : Type 0 where
  pub id : String
  pub state : String
  pub tags : List String
  pub public_ipv4 : String

-- The calls of packngo and of the library of unique ids. A reinstallation, which takes an
-- operating system, is a fast one, and a deletion is forced.
pub record Packngo (W : Type 0) : Type 0 where
  pub list_devices : String → Exec W (List Device)
  pub create_device : DeviceCreateRequest → Exec W Device
  pub get_device : String → Exec W Device
  pub reinstall_device : String → String → Exec W (Unit {0})
  pub delete_device : String → Exec W (Unit {0})
  pub new_uuid : Exec W String

-- the two loops that count the devices' tags, with the count so far
abbrev pub count_tags : String → List String → ℤ → ℤ
count_tags pool_name [] n = n
count_tags pool_name (t ∷ ts) n =
    count_tags pool_name ts (if str_eq t pool_name then n +ℤ pos 1 else n)

unfoldable pub count_devices : String → List Device → ℤ → ℤ
count_devices pool_name [] n = n
count_devices pool_name (d ∷ ds) n = count_devices pool_name ds (count_tags pool_name d.tags n)

module _ {W : Type 0} (client : Packngo W) (config : EquinixProviderConfig) where
  unfoldable pub request_of : String → String → String → DeviceCreateRequest
  request_of pool_name hostname metro = record {
    hostname = hostname;
    metro = metro;
    plan = config.plan;
    os = config.os;
    project_id = config.project_id;
    tags = pool_name ∷ [];
    user_data = config.user_data;
  }

  abbrev pub on_create : Exec W Resource → Outcome Device → Exec W Resource
  on_create next (ok d) w = (ok (resource_at d.id ""), w)
  on_create next (err e) w = next w
  on_create next panic w = crash w

  -- The loop over the metros. The error behind it wraps the outer `err`, which is nil there.
  unfoldable pub try_metros : String → String → List String → Exec W Resource
  unfolding request_of
  try_metros pool_name hostname [] w = raise (errorf "error creating device: %!w(<nil>)" []) w
  try_metros pool_name hostname (metro ∷ metros) w =
      let (r, w') = client.create_device (request_of pool_name hostname metro) w in
      on_create (try_metros pool_name hostname metros) r w'

  abbrev pub create : String → Exec W Resource
  create pool_name = do
    uuid ← client.new_uuid
    try_metros pool_name (concat "ofcir-" (remove_dashes uuid)) config.metros

  abbrev pub create_below : ℤ → String → List Device → Exec W Resource
  create_below pool_size pool_name devices =
      let count = count_devices pool_name devices (pos 0) in
      if ltb_ℤ count pool_size
      then create pool_name
      else raise (
          errorf "Refusing to create device, already have %d and pool size is %d"
            (format_d count ∷ format_d pool_size ∷ []))

  -- `Acquire`
  unfoldable pub acquire : ℤ → String → String → Exec W Resource
  acquire pool_size pool_name pool_type = do
    devices ← wrapping "Error getting devices list" [] (client.list_devices config.project_id)
    create_below pool_size pool_name devices

  -- `AcquireCompleted`
  unfoldable pub acquire_completed : String → Exec W (Bool × Resource)
  acquire_completed id = do
    device ← wrapping "error getting device" [] (client.get_device id)
    if str_eq device.state "active"
        then pure (true, resource_at id device.public_ipv4)
        else if str_eq device.state "failed"
        then raise (errorf "device %s failed" (id ∷ []))
        else pure (false, resource_at id "")

  -- `Clean`
  unfoldable pub clean : String → Exec W (Unit {0})
  clean id = wrapping "error reinstalling device" [] (client.reinstall_device id config.os)

  -- `CleanCompleted`
  unfoldable pub clean_completed : String → Exec W Bool
  clean_completed id = do (cleaned, resource) ← acquire_completed id; pure cleaned

  -- `Release`
  unfoldable pub release : String → Exec W (Unit {0})
  release id = wrapping "error deleting device" [] (client.delete_device id)

  abbrev pub equinix_provider : Provider W
  equinix_provider = record {
    acquire = acquire;
    acquire_completed = acquire_completed;
    clean = clean;
    clean_completed = clean_completed;
    release = release;
  }

abbrev pub default_config : EquinixProviderConfig
default_config = record {
  project_id = "";
  token = "";
  metros = "da" ∷ "ny" ∷ "sv" ∷ [];
  plan = "c3.small.x86";
  os = "rocky_8";
  user_data = "";
}

abbrev pub read_config :
    (EquinixProviderConfig → String → Outcome EquinixProviderConfig)
    → Option String
    → Outcome EquinixProviderConfig
read_config unmarshal none = ok default_config
read_config unmarshal (some s) =
    wrap_outcome "error in provider config json" [] (unmarshal default_config s)

-- the text itself where it is empty, else what it encodes
unfoldable pub decode_user_data :
    {S : Type 0} → (String → Outcome String) → EquinixProviderConfig → Exec S EquinixProviderConfig
decode_user_data decode config = if str_eq config.user_data "" then pure config else do
  t ← λ s. (wrap_outcome "error decoding userdata" [] (decode config.user_data), s)
  pure (record config { user_data = t })

-- `eqClients`
abbrev pub EqClients : Type 0 → Type 0
EqClients W = String → Option (Packngo W)

unfoldable pub client_for :
    {W : Type 0} → (String → Packngo W) → EquinixProviderConfig → Exec (EqClients W) (Packngo W)
client_for new_client config clients =
    let key = concat config.project_id config.token in
    elim (clients key) [
      | some client ↦ (ok client, clients)
      | none ↦
          let client = new_client config.token in
          (ok client, λ k. if str_eq k key then some client else clients k)
    ]

-- `EquinixProviderFactory`, where `unmarshal` is `json.Unmarshal` over the default configuration,
-- `decode` is base64, and `new_client` is `NewClientWithAuth` with a token
unfoldable pub equinix_provider_factory :
    {W : Type 0}
    → (EquinixProviderConfig → String → Outcome EquinixProviderConfig)
    → (String → Outcome String)
    → (String → Packngo W)
    → String
    → SecretData
    → Exec (EqClients W) (Provider W)
equinix_provider_factory unmarshal decode new_client provider_info secret = do
  read ← λ s. (read_config unmarshal (secret "config"), s)
  config ← decode_user_data decode read
  client ← client_for new_client config
  pure (equinix_provider client config)
