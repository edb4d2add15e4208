-- ===== src/Backends/IbmCloud.antt =====
-- pkg/providers/ibmcloud.go: the data, and what the provider calls of SoftLayer.
use ofcir.Prelude.{
  ℕ, zero, suc, ℤ, pos, negsuc, eq_ℤ, String, str_eq, Bool, true, List, [], ◌∷◌, ◌++◌, Option, none,
  some, Exec, errorf, pure, crash, raise, catch, ◌>>=◌, ◌>>◌, if◌then◌else◌, is_nil,
}
use ofcir.Prelude.Texts.{concat, split}

pub record IbmcloudProviderConfig : Type 0 where
  pub apikey : String
  pub sshkey : String
  pub preset : String
  pub os : String
  pub prov_script : String

-- A field is none where the pointer that the code dereferences is nil, or one on its path.
pub record Hardware : Type 0 where
  pub id : Option ℤ
  pub hostname : Option String
  pub primary_ip_address : Option String
  pub status : Option String
  pub transaction_status : Option String
  pub tags : List (Option String)
  pub package_id : Option ℤ
  pub billing_id : Option ℤ
  pub hourly : Option Bool

-- The zero value has no id.
pub record Price : Type 0 where
  pub id : Option ℤ
  pub location_group_id : Option ℤ

pub record Item : Type 0 where
  pub key_name : Option String
  pub prices : List Price

pub record SshKey : Type 0 where
  pub key : Option String
  pub id : Option ℤ

pub record Preset : Type 0 where
  pub key_name : Option String
  pub id : Option ℤ

pub record Order : Type 0 where
  pub quantity : ℕ
  pub location : String
  pub package_id : ℤ
  pub preset_id : ℤ
  pub prices : List Price
  pub hostname : String
  pub domain : String
  pub use_hourly_pricing : Bool
  pub ssh_key_ids : List ℤ

pub record Reload : Type 0 where
  pub ssh_key_ids : List ℤ
  pub custom_provision_script_uri : String
  pub item_prices : List Price

-- The calls of softlayer-go, of `rand.Intn`, of the library of unique ids and of the network. The
-- masks are not shown; `get_tagged_hardware` has the tags of its filter. `reload_operating_system`
-- is forced, and `cancel_item` cancels at once or at the end of the month.
pub record SoftLayer (W : Type 0) : Type 0 where
  pub get_hardware : Exec W (List Hardware)
  pub get_tagged_hardware : List String → Exec W (List Hardware)
  pub get_ssh_keys : Exec W (List SshKey)
  pub create_ssh_key : String → String → Exec W SshKey
  pub get_items : ℤ → Exec W (List Item)
  pub get_active_presets : ℤ → Exec W (List Preset)
  pub place_order : Order → Exec W (Unit {0})
  pub set_tags : ℤ → String → Exec W (Unit {0})
  pub reload_operating_system : ℤ → Reload → Exec W (Unit {0})
  pub cancel_item : ℤ → Bool → Exec W (Unit {0})
  pub intn : ℕ → Exec W ℕ
  pub new_uuid : Exec W String
  pub dial : String → String → Exec W (Unit {0})

abbrev pub fast_provisioning_server : ℤ
fast_provisioning_server = pos 200

abbrev pub manual_tag : String
manual_tag = "ofcir-manual"

abbrev pub taken_tag : String
taken_tag = "ofcir-taken"

abbrev pub locations : List String
locations =
    "DALLAS09" ∷ "DALLAS10" ∷ "DALLAS12" ∷ "DALLAS13" ∷ "FRANKFURT" ∷ "FRANKFURT04" ∷ "FRANKFURT05"
    ∷ "LONDON02" ∷ "LONDON04" ∷ "LONDON05" ∷ "LONDON06" ∷ "MILAN" ∷ "MONTREAL" ∷ "PARIS"
    ∷ "MADRID02" ∷ "MADRID04" ∷ "MADRID05" ∷ "SANJOSE03" ∷ "SANJOSE04" ∷ "TORONTO" ∷ "TORONTO04"
    ∷ "TORONTO05" ∷ "WASHINGTON06" ∷ "WASHINGTON07" ∷ []

-- `getStandardPrice`
unfoldable pub get_standard_price : List Price → Price
get_standard_price [] = record { id = none; location_group_id = none }
get_standard_price (p ∷ ps) =
    let rest = get_standard_price ps in if is_nil p.location_group_id then p else rest

-- `strings.Split(s, "-")[0]`, of a list that is never empty
abbrev first_of : List String → String
first_of [] = ""
first_of (s ∷ ss) = s

unfoldable pub short_name : String → String
short_name uuid = first_of (split b'-' uuid)

module _ {W : Type 0} (sl : SoftLayer W) (config : IbmcloudProviderConfig) where
  -- `*p`
  abbrev pub deref : {A : Type 0} → Option A → Exec W A
  deref none = crash
  deref (some a) = pure a

  abbrev nth : {A : Type 0} → List A → ℕ → Exec W A
  nth [] i = crash
  nth (x ∷ xs) zero = pure x
  nth (x ∷ xs) (suc i) = nth xs i

  -- `getPackageItems`; an error gives no items
  unfoldable pub get_package_items : ℤ → Exec W (List Item)
  get_package_items package_id = catch (sl.get_items package_id) (λ e. pure [])

  -- the inner loop of `getItemPriceList`
  unfoldable pub price_of : String → List Item → Exec W (List Price)
  price_of key [] w = pure [] w
  price_of key (i ∷ is) w =
      let rest = price_of key is in
      (do
        k ← deref i.key_name
        if str_eq k key then pure (get_standard_price i.prices ∷ []) else rest)
        w

  -- the outer loop
  unfoldable pub prices_of : List String → List Item → Exec W (List Price)
  prices_of [] items = pure []
  prices_of (key ∷ keys) items = do
    ps ← price_of key items
    qs ← prices_of keys items
    pure (ps ++ qs)

  -- `getItemPriceList`
  unfoldable pub get_item_price_list : ℤ → List String → Exec W (List Price)
  unfolding get_package_items prices_of
  get_item_price_list package_id keys = do
    items ← get_package_items package_id
    prices_of keys items

  -- The loop over the presets, with -1 for one that is not there.
  unfoldable pub find_preset : String → List Preset → Exec W ℤ
  find_preset name [] w = pure (negsuc 0) w
  find_preset name (p ∷ ps) w =
      let rest = find_preset name ps in
      (do k ← deref p.key_name; if str_eq k name then deref p.id else rest) w

  -- the loop of `ensureSSHKey`
  unfoldable pub find_ssh_key : String → List SshKey → Exec W (Option SshKey)
  find_ssh_key key [] w = pure none w
  find_ssh_key key (k ∷ ks) w =
      let rest = find_ssh_key key ks in
      (do t ← deref k.key; if str_eq t key then pure (some k) else rest) w

  abbrev or_create : String → Option SshKey → Exec W (Option ℤ)
  or_create key (some k) = pure k.id
  or_create key none = do uuid ← sl.new_uuid; k ← sl.create_ssh_key key (short_name uuid); pure k.id

  -- `ensureSSHKey`
  unfoldable pub ensure_ssh_key : String → Exec W (Option ℤ)
  ensure_ssh_key key = do keys ← sl.get_ssh_keys; found ← find_ssh_key key keys; or_create key found

  abbrev required_items : List String
  required_items =
      "REBOOT_KVM_OVER_IP" ∷ "UNLIMITED_SSL_VPN_USERS_1_PPTP_VPN_USER_PER_ACCOUNT" ∷ config.os
      ∷ "BANDWIDTH_0_GB_2" ∷ "1_GBPS_PUBLIC_PRIVATE_NETWORK_UPLINKS" ∷ "1_IP_ADDRESS" ∷ []

  -- `serverCreate`; an error of the presets gives none
  unfoldable pub server_create : String → String → Exec W String
  unfolding short_name
  server_create pool preset_name = do
    n ← sl.intn 24
    location ← nth locations n
    uuid ← sl.new_uuid
    key ← ensure_ssh_key config.sshkey
    prices ← get_item_price_list fast_provisioning_server required_items
    presets ← catch (sl.get_active_presets fast_provisioning_server) (λ e. pure [])
    preset ← find_preset preset_name presets
    if eq_ℤ preset (negsuc 0)
        then raise (errorf (concat "Can't find preset with name " preset_name) [])
        else pure tt
    key_id ← deref key
    sl.place_order (record {
      quantity = 1;
      location = location;
      package_id = fast_provisioning_server;
      preset_id = preset;
      prices = prices;
      hostname = short_name uuid;
      domain = concat pool ".ofcir";
      use_hourly_pricing = true;
      ssh_key_ids = key_id ∷ [];
    })
    pure (short_name uuid)
