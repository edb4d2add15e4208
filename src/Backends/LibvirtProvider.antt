-- ===== src/Backends/LibvirtProvider.antt =====
-- pkg/providers/libvirt.go: the methods of `libvirtProvider`, and its factory.
use ofcir.Prelude.{
  String, str_eq, ◌==◌, Bool, true, false, not, List, [], ◌∷◌, Option, none, some, Exec, Error,
  errorf, wrapf, resource_not_found, Outcome, ok, err, panic, pure, raise, crash, catch, wrapping,
  wrap_outcome, ◌>>=◌, ◌>>◌, if◌then◌else◌,
}
use ofcir.Prelude.Texts.{concat, remove_dashes}
use ofcir.Provider.{Resource, resource_at, Provider, SecretData}
use ofcir.Backends.Libvirt.{
  LibvirtProviderConfig, Interface, Lease, Libvirt, volume_path, volume_config, domain_config,
}

-- The address of the first lease for a MAC address.
unfoldable pub leased : String → List Lease → Option String
leased mac [] = none
leased mac (l ∷ ls) = let rest = leased mac ls in if str_eq l.mac mac then some l.ip else rest

module _ {W : Type 0} (lv : Libvirt W) (config : LibvirtProviderConfig) where
  -- a value of `Marshal` or `Unmarshal`
  abbrev pub return : {A : Type 0} → Outcome A → Exec W A
  return r w = (r, w)

  -- `defer conn.Close()` on a connection, with the code that follows
  abbrev pub connected : {A : Type 0} → Exec W A → Exec W A
  connected body = do
    wrapping "error connecting to qemu" [] lv.connect
    λ w. let (r, w') = body w in (r, lv.close w')

  -- `domcfg.Devices.Interfaces[0].MAC.Address`
  abbrev pub first_mac : List Interface → Exec W String
  first_mac [] = crash
  first_mac (i ∷ is) = elim i.mac [ none ↦ crash | some mac ↦ pure mac ]

  unfoldable pub mac_address : String → Exec W String
  mac_address id = do
    xml ← wrapping "error getting the domain XML" [] (lv.xml_desc id)
    domain ← wrapping "error in domain XML" [] (return (lv.unmarshal_domain xml))
    first_mac domain.interfaces

  abbrev pub with_lease : String → Option String → Exec W (Bool × Resource)
  with_lease id none = pure (false, resource_at id "")
  with_lease id (some ip) = pure (true, resource_at id ip)

  -- `AcquireCompleted`
  unfoldable pub acquire_completed : String → Exec W (Bool × Resource)
  acquire_completed id = connected do
    wrapping "error in domain lookup" [] (lv.lookup_domain_by_name id)
    is_active ← wrapping "error checking domain is active" [] (lv.is_active id)
    if not is_active then pure (false, resource_at id "") else do
      wrapping "error in network lookup" [] (lv.lookup_network_by_name config.pool)
      mac ← mac_address id
      leases ← wrapping "error getting DHCP leases" [] (lv.dhcp_leases config.pool)
      with_lease id (leased mac leases)

  -- After the lookup in `createVM`: a domain with that name is an error, and so is one of libvirt
  -- that is not ERR_NO_DOMAIN; an error of another type is not.
  abbrev pub free_name : String → Outcome (Unit {0}) → Exec W (Unit {0})
  free_name name (ok _) w = (err (errorf "domain %s already exists" (name ∷ [])), w)
  free_name name (err e) w = elim (lv.code e) [
    | none ↦ (ok tt, w)
    | some n ↦ if n == lv.err_no_domain then (ok tt, w) else (err e, w)
  ]
  free_name name panic w = (panic, w)

  abbrev pub check_name : String → Exec W (Unit {0})
  check_name name w = let (r, w') = lv.lookup_domain_by_name name w in free_name name r w'

  abbrev pub create_disk : String → Exec W (Unit {0})
  create_disk name = do
    wrapping "error in storage pool lookup" [] (lv.lookup_storage_pool_by_name config.pool)
    xml ←
        wrapping "error configuring volume" []
          (return (lv.marshal_volume (volume_config config name)))
    wrapping "error creating volume XML" [] (lv.create_volume config.pool xml)

  abbrev pub create_domain : String → String → Exec W (Unit {0})
  create_domain name mac = do
    xml ←
        wrapping "error configuring domain" []
          (return (lv.marshal_domain (domain_config config name mac)))
    wrapping "error in defining domain" [] (lv.define_xml xml)
    wrapping "error creating domain" [] (lv.start name)

  -- `createVM`
  unfoldable pub create_vm : String → String → Exec W (Unit {0})
  create_vm name mac = connected do check_name name; create_disk name; create_domain name mac

  -- the error of the lookup in `destroyVM`
  abbrev pub missing_domain : String → Error → Exec W (Unit {0})
  missing_domain id e = elim (lv.code e) [
    | none ↦ raise (wrapf "error in domain lookup" [] e)
    | some n ↦
        if n == lv.err_no_domain
        then raise (resource_not_found id)
        else raise (wrapf "error in domain lookup" [] e)
  ]

  -- the volume is deleted where its lookup finds it; an error of the lookup is dropped
  abbrev pub delete_found : String → Outcome (Unit {0}) → Exec W (Unit {0})
  delete_found key (ok _) = wrapping "error deleting volume" [] (lv.delete_volume key)
  delete_found key (err e) = pure tt
  delete_found key panic = crash

  abbrev pub delete_disk : String → Exec W (Unit {0})
  delete_disk key w = let (r, w') = lv.lookup_volume_by_key key w in delete_found key r w'

  -- `destroyVM`
  unfoldable pub destroy_vm : String → Exec W (Unit {0})
  destroy_vm id = connected do
    catch (lv.lookup_domain_by_name id) (missing_domain id)
    running ← wrapping "error verifying domain is active" [] (lv.is_active id)
    if running then wrapping "error destroying domain" [] (lv.destroy id) else pure tt
    wrapping "error undefining domain" [] (lv.undefine id)
    delete_disk (volume_path id)

  -- `Acquire`
  unfoldable pub acquire : Exec W Resource
  acquire = do
    uuid ← lv.new_uuid
    let id = concat "ofcir-vm-" (remove_dashes uuid)
    wrapping "error creating VM" [] (create_vm id "")
    pure (resource_at id "")

  -- `Clean`: the domain is made again, with its name and MAC address
  unfoldable pub clean : String → Exec W (Unit {0})
  clean id = connected do
    wrapping "error in domain lookup" [] (lv.lookup_domain_by_name id)
    mac ← mac_address id
    wrapping "error destroying the VM" [] (destroy_vm id)
    wrapping "error creating VM" [] (create_vm id mac)

  -- `Release`
  unfoldable pub release : String → Exec W (Unit {0})
  release id = wrapping "error destroying the VM" [] (destroy_vm id)

  abbrev pub libvirt_provider : Provider W
  libvirt_provider = record {
    acquire = λ pool_size pool_name pool_type. acquire;
    acquire_completed = acquire_completed;
    clean = clean;
    clean_completed = λ id. pure true;
    release = release;
  }

abbrev pub default_config : LibvirtProviderConfig
default_config = record {
  pool = "default";
  volume = 20;
  backing_store = "/ofcir/tests/fedora-coreos-36.20220806.3.0-qemu.x86_64.qcow2";
  memory = 2;
  cpus = 2;
  bridge = "virbr0";
  ignition = "/ofcir/tests/coreos.ign";
}

abbrev read_config :
    (LibvirtProviderConfig → String → Outcome LibvirtProviderConfig)
    → Option String
    → Outcome LibvirtProviderConfig
read_config unmarshal none = ok default_config
read_config unmarshal (some json) =
    wrap_outcome "error in provider config json" [] (unmarshal default_config json)

-- `LibvirtProviderFactory`, where `unmarshal` is `json.Unmarshal` over the default configuration
unfoldable pub libvirt_provider_factory :
    {W : Type 0}
    → Libvirt W
    → (LibvirtProviderConfig → String → Outcome LibvirtProviderConfig)
    → String
    → SecretData
    → Exec W (Provider W)
libvirt_provider_factory lv unmarshal provider_info secret = do
  config ← λ w. (read_config unmarshal (secret "config"), w)
  pure (libvirt_provider lv config)
