-- ===== src/Backends/Ironic.antt =====
-- pkg/providers/ironic.go: nodes, the cached clients, and `UpdateClient`.
use ofcir.Prelude.{
  String, str_eq, Bool, ◌||◌, any, List, [], ◌∷◌, Option, none, some, Exec, Error, errorf, wrapf,
  joined, resource_not_found, foreign, Outcome, pure, crash, gets, modify, wrapping, ◌>>=◌, ◌>>◌,
  if◌then◌else◌,
}
use ofcir.Prelude.Texts.{concat, contains_text}

-- A value of a Go `interface{}` that comes from JSON: nil, a text, or any other, as the text that
-- `json.Marshal` gives.
pub data Value : Type 0 where
  null : Value
  text : String → Value
  json : String → Value

-- A map from texts; `none` is a nil map, which can be read, but not written.
abbrev pub Extra : Type 0
Extra = Option (List (String × Value))

unfoldable pub value_at : String → List (String × Value) → Option Value
value_at key [] = none
value_at key ((k, v) ∷ m) = let rest = value_at key m in if str_eq k key then some v else rest

abbrev pub read : String → Extra → Option Value
read key none = none
read key (some m) = value_at key m

-- `m[key] = v`
unfoldable pub write : String → Value → List (String × Value) → List (String × Value)
write key v [] = (key, v) ∷ []
write key v ((k, u) ∷ m) =
    let rest = write key v m in if str_eq k key then (key, v) ∷ m else (k, u) ∷ rest

pub record Node : Type 0 where
  pub uuid : String
  pub provision_state : String
  pub extra : Extra

pub record IronicProviderConfig : Type 0 where
  pub endpoint : String
  pub os_cloud : String
  pub cloud_yaml : String
  pub username : String
  pub password : String
  pub image : String
  pub sshkey : String

pub record Image : Type 0 where
  pub id : String
  pub kernel_id : Option Value
  pub ramdisk_id : Option Value

-- The instance info of a deployment, `map[string]string`.
abbrev pub Info : Type 0
Info = List (String × Value)

-- The calls of gophercloud, with its clients `K`. `cloud_client` writes the clouds file with the
-- given name and makes a client from it, `basic_client` makes one from the endpoint; none is the
-- nil that they return beside an error. `replace` is an update that replaces the given fields;
-- `pages` has one action for each page of the list of nodes, which fetches it and extracts its
-- nodes. `extra_beside` is the map of the node that `Extract` returns beside an error; none stands
-- for a nil node, too. The last four are the package's names of the states of a node.
pub record IronicApi (K W : Type 0) : Type 0 where
  pub cloud_client : IronicProviderConfig → String → Exec W (Option K)
  pub basic_client : IronicProviderConfig → Exec W (Option K)
  pub get_image : IronicProviderConfig → Exec W Image
  pub get : K → String → Exec W Node
  pub extra_beside : Error → Extra
  pub replace : K → String → List (String × List (String × Value)) → Exec W (Unit {0})
  pub change_provision_state : K → String → String → String → Exec W (Unit {0})
  pub pages : K → List (Exec W (Outcome (List Node)))
  pub dial : String → String → Exec W (Unit {0})
  pub active : String
  pub available : String
  pub deploy_fail : String
  pub target_active : String

-- The package's caches and the fields of the provider that its methods change. The provider has a
-- copy of the map of the cache that the code shares with it; `root_gb`, the only key that is
-- written to such a map, is written again before each use.
pub record IronicState (K W : Type 0) : Type 0 where
  pub cache : String → Option (K × Info)
  pub client : K
  pub instance_info : Info
  pub outside : W

-- Whether `err.Error()` contains a text that no part of the errors' own formats ends or begins with.
unfoldable pub mentions : String → Error → Bool
mentions part (errorf f xs) = contains_text f part || any (λ x. contains_text x part) xs
mentions part (wrapf f xs e) =
    contains_text f part || any (λ x. contains_text x part) xs || mentions part e
mentions part (joined a b) = mentions part a || mentions part b
mentions part (resource_not_found id) = contains_text id part
mentions part (foreign s) = contains_text s part

unfoldable pub cache_key : IronicProviderConfig → String
cache_key c =
    concat c.endpoint (concat c.username (concat c.os_cloud (concat c.cloud_yaml c.image)))

abbrev pub url_info : IronicProviderConfig → Info
url_info c =
    ("image_source", text c.image) ∷ ("image_checksum", text (concat c.image ".checksum")) ∷ []

module _ {K W : Type 0} (api : IronicApi K W) (config : IronicProviderConfig) where
  abbrev pub outside : {A : Type 0} → Exec W A → Exec (IronicState K W) A
  outside m s = let (r, w) = m s.outside in (r, record s { outside = w })

  -- an assertion `.(string)`
  abbrev pub as_string : Value → Exec W String
  as_string (text s) = pure s
  as_string null = crash
  as_string (json s) = crash

  abbrev pub boot_files : Option Value → Option Value → Exec W Info
  boot_files (some k) (some r) = do
    kernel ← as_string k
    ramdisk ← as_string r
    pure (("kernel", text kernel) ∷ ("ramdisk", text ramdisk) ∷ [])
  boot_files none r = pure (("kernel", text "") ∷ ("ramdisk", text "") ∷ [])
  boot_files (some k) none = pure (("kernel", text "") ∷ ("ramdisk", text "") ∷ [])

  abbrev pub image_info : Exec W Info
  image_info = do
    image ← wrapping "Error getting image info" [] (api.get_image config)
    files ← boot_files image.kernel_id image.ramdisk_id
    pure (("image_source", text image.id) ∷ files)

  abbrev pub cloud_info : Exec W Info
  cloud_info = if contains_text config.image "://" then pure (url_info config) else image_info

  -- a client's field is set
  abbrev pub not_nil : Option K → Exec W K
  not_nil none = crash
  not_nil (some k) = pure k

  -- the part of `UpdateClient` that makes a client
  unfoldable pub new_client : Exec W (K × Info)
  unfolding cache_key
  new_client =
      if str_eq config.cloud_yaml ""
      then (do k ← api.basic_client config; client ← not_nil k; pure (client, url_info config))
      else do
        k ← api.cloud_client config (cache_key config)
        info ← cloud_info
        client ← not_nil k
        pure (client, info)

  abbrev pub set_cache : Option (K × Info) → IronicState K W → IronicState K W
  set_cache o s = record s {
    cache = λ key. if str_eq key (cache_key config) then o else s.cache key;
  }

  abbrev pub select_client : K × Info → IronicState K W → IronicState K W
  select_client (k, info) s = record s { client = k; instance_info = info }

  abbrev pub cached : Option (K × Info) → Exec (IronicState K W) (Unit {0})
  cached (some c) = modify (select_client c)
  cached none = do c ← outside new_client; modify (set_cache (some c)); modify (select_client c)

  -- `UpdateClient`
  unfoldable pub update_client : Bool → Exec (IronicState K W) (Unit {0})
  unfolding new_client cache_key
  update_client clear = do
    if clear then modify (set_cache none) else pure tt
    c ← gets (λ s. s.cache (cache_key config))
    cached c
