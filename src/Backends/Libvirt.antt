-- ===== src/Backends/Libvirt.antt =====
-- pkg/providers/libvirt.go: the documents that the provider writes, and what it calls of libvirt.
use ofcir.Prelude.{
  ℕ, String, str_eq, Bool, true, List, [], ◌∷◌, Option, none, some, Exec, Error, Outcome,
  if◌then◌else◌,
}
use ofcir.Prelude.Texts.{concat}

pub record LibvirtProviderConfig : Type 0 where
  pub pool : String
  pub volume : ℕ
  pub backing_store : String
  pub memory : ℕ
  pub cpus : ℕ
  pub bridge : String
  pub ignition : String

-- A value with its unit.
pub record Quantity : Type 0 where
  pub value : ℕ
  pub unit : String

pub record Permissions : Type 0 where
  pub mode : String
  pub owner : String
  pub group : String
  pub label : String

pub record StorageVolume : Type 0 where
  pub type_ : String
  pub name : String
  pub capacity : Quantity
  pub allocation : Quantity
  pub target_path : String
  pub target_format : String
  pub permissions : Permissions
  pub backing_path : String
  pub backing_format : String

-- An unset text of a timer is empty.
pub record Timer : Type 0 where
  pub name : String
  pub tick_policy : String
  pub present : String

pub record Disk : Type 0 where
  pub driver_name : String
  pub driver_type : String
  pub discard : String
  pub source_file : String
  pub target_dev : String
  pub target_bus : String

-- `mac` is none where the pointer to it is nil.
pub record Interface : Type 0 where
  pub bridge : String
  pub model : String
  pub mac : Option String

-- The fields of `libvirtxml.Domain` that the code sets; `acpi` and `apic` are empty elements.
pub record Domain : Type 0 where
  pub type_ : String
  pub name : String
  pub metadata : String
  pub memory : Quantity
  pub current_memory : Quantity
  pub vcpu : ℕ
  pub os_arch : String
  pub os_machine : String
  pub os_type : String
  pub boot_devices : List String
  pub acpi : Bool
  pub apic : Bool
  pub cpu_mode : String
  pub clock_offset : String
  pub timers : List Timer
  pub suspend_to_mem : String
  pub suspend_to_disk : String
  pub emulator : String
  pub disks : List Disk
  pub interfaces : List Interface
  pub consoles : List String
  pub qemu_args : List String

pub record Lease : Type 0 where
  pub mac : String
  pub ip : String

-- The calls of libvirt, of its XML and of the library of unique ids. A domain, a network, a pool
-- or a volume that a lookup returned is known by the text that it was looked up by, a new domain
-- by its name. `code` is the code of a `libvirt.Error`, none for an error of another type.
pub record Libvirt (W : Type 0) : Type 0 where
  pub connect : Exec W (Unit {0})
  pub close : W → W
  pub lookup_domain_by_name : String → Exec W (Unit {0})
  pub is_active : String → Exec W Bool
  pub xml_desc : String → Exec W String
  pub destroy : String → Exec W (Unit {0})
  pub undefine : String → Exec W (Unit {0})
  pub define_xml : String → Exec W (Unit {0})
  pub start : String → Exec W (Unit {0})
  pub lookup_network_by_name : String → Exec W (Unit {0})
  pub dhcp_leases : String → Exec W (List Lease)
  pub lookup_storage_pool_by_name : String → Exec W (Unit {0})
  pub create_volume : String → String → Exec W (Unit {0})
  pub lookup_volume_by_key : String → Exec W (Unit {0})
  pub delete_volume : String → Exec W (Unit {0})
  pub marshal_volume : StorageVolume → Outcome String
  pub marshal_domain : Domain → Outcome String
  pub unmarshal_domain : String → Outcome Domain
  pub code : Error → Option ℕ
  pub err_no_domain : ℕ
  pub new_uuid : Exec W String

abbrev images_path : String
images_path = "/var/lib/libvirt/images/"

-- `fmt.Sprintf("%s.qcow2", name)`
unfoldable pub volume_name : String → String
volume_name name = concat name ".qcow2"

-- `fmt.Sprintf("%s/%s.qcow2", libvirtImagesPath, name)`
unfoldable pub volume_path : String → String
unfolding volume_name
volume_path name = concat images_path (volume_name name)

-- `volCfg` of `createVM`
unfoldable pub volume_config : LibvirtProviderConfig → String → StorageVolume
unfolding volume_path
volume_config c name = record {
  type_ = "file";
  name = volume_name name;
  capacity = record { value = c.volume; unit = "GiB" };
  allocation = record { value = 51318784; unit = "bytes" };
  target_path = volume_path name;
  target_format = "qcow2";
  permissions = record {
    mode = "0600";
    owner = "0";
    group = "0";
    label = "system_u:object_r:virt_image_t:s0";
  };
  backing_path = c.backing_store;
  backing_format = "qcow2";
}

-- `domInterface` of `createVM`
unfoldable pub interface_config : LibvirtProviderConfig → String → Interface
interface_config c mac = record {
  bridge = c.bridge;
  model = "virtio";
  mac = if str_eq mac "" then none else some mac;
}

abbrev os_metadata : String
os_metadata =
    "<libosinfo:libosinfo xmlns:libosinfo=\"http://libosinfo.org/xmlns/libvirt/domain/1.0\"><libosinfo:os id=\"http://fedoraproject.org/coreos/stable\"/></libosinfo:libosinfo>"

-- `domCfg` of `createVM`
unfoldable pub domain_config : LibvirtProviderConfig → String → String → Domain
unfolding interface_config volume_path
domain_config c name mac = record {
  type_ = "kvm";
  name = name;
  metadata = os_metadata;
  memory = record { value = c.memory; unit = "GiB" };
  current_memory = record { value = c.memory; unit = "GiB" };
  vcpu = c.cpus;
  os_arch = "x86_64";
  os_machine = "q35";
  os_type = "hvm";
  boot_devices = "hd" ∷ [];
  acpi = true;
  apic = true;
  cpu_mode = "host-passthrough";
  clock_offset = "utc";
  timers =
      record { name = "rtc"; tick_policy = "catchup"; present = "" }
      ∷ record { name = "pit"; tick_policy = "delay"; present = "" }
      ∷ record { name = "hpet"; tick_policy = ""; present = "no" }
      ∷ [];
  suspend_to_mem = "no";
  suspend_to_disk = "no";
  emulator = "/usr/bin/qemu-system-x86_64";
  disks =
      record {
        driver_name = "qemu";
        driver_type = "qcow2";
        discard = "unmap";
        source_file = volume_path name;
        target_dev = "vda";
        target_bus = "virtio";
      }
      ∷ [];
  interfaces = interface_config c mac ∷ [];
  consoles = "pty" ∷ [];
  qemu_args = "-fw_cfg" ∷ concat "name=opt/com.coreos/config,file=" c.ignition ∷ [];
}
