-- ===== src/Examples/Machines.antt =====
-- A libvirt host with two machines, and the theorems on the provider of machines.
use ofcir.Prelude.{
  pos, String, str_eq, Bool, true, false, ◌≡◌, refl, [], some, Exec, ok, err, foreign, wrapf, pure,
  modify, if◌then◌else◌, eq_ℤ, arith,
}
use ofcir.Prelude.Keeps.{Keeps}
use ofcir.Api.{CiResource, in_use, cleaning, delete, ofcir_finalizer, is_fallback_pool}
use ofcir.Fsm.Machine.{Context}
use ofcir.Fsm.Handlers.{drop_finalizer}
use ofcir.Fsm.Process.{start}
use ofcir.Fsm.Table.{visit}
use ofcir.Fsm.Release.{is_ok}
use ofcir.Backends.Libvirt.{Libvirt, domain_config}
use ofcir.Backends.LibvirtProvider.{default_config, libvirt_provider, clean}
use ofcir.Backends.LibvirtFrame.{QuestionsKeep, RemovalKeeps, CreationKeeps, clean-Keeps}
use ofcir.Backends.LibvirtGone.{missing_machine}
use ofcir.Examples.Fixtures.{cir_in, small, util}

-- Whether the machines "vm" and "other" are defined.
record Host : Type 0 where
  vm : Bool
  other : Bool

abbrev define : Bool → String → Exec Host (Unit {0})
define b name = modify λ h. if str_eq name "vm" then record h { vm = b } else record h { other = b }

abbrev lookup : String → Exec Host (Unit {0})
lookup name h =
    if (if str_eq name "vm" then h.vm else h.other)
    then (ok tt, h)
    else (err (foreign "no domain"), h)

-- A document is the name of its domain.
abbrev libvirt : Libvirt Host
libvirt = record {
  connect = pure tt;
  close = λ h. h;
  lookup_domain_by_name = lookup;
  is_active = λ name. pure true;
  xml_desc = λ name. pure name;
  destroy = λ name. pure tt;
  undefine = define false;
  define_xml = define true;
  start = λ name. pure tt;
  lookup_network_by_name = λ name. pure tt;
  dhcp_leases = λ name. pure [];
  lookup_storage_pool_by_name = λ name. pure tt;
  create_volume = λ pool xml. pure tt;
  lookup_volume_by_key = λ key. pure tt;
  delete_volume = λ key. pure tt;
  marshal_volume = λ v. ok v.name;
  marshal_domain = λ d. ok d.name;
  unmarshal_domain = λ xml. ok (domain_config default_config xml "52:54:00:00:00:01");
  code = λ e. some 42;
  err_no_domain = 42;
  new_uuid = pure "1-2";
}

abbrev OtherThere : Host → Type 0
OtherThere h = h.other ≡ true

lookup-OtherThere : (name : String) → Keeps OtherThere (lookup name)
lookup-OtherThere name h i = ground arith

questions : QuestionsKeep libvirt default_config OtherThere
questions = record {
  connect = λ h i. i;
  close = λ h i. i;
  lookup_domain = lookup-OtherThere;
  lookup_pool = λ name h i. i;
  lookup_volume = λ key h i. i;
  is_active = λ name h i. i;
  xml_desc = λ name h i. i;
}

removal : RemovalKeeps libvirt default_config OtherThere "vm"
removal = record { destroy = λ h i. i; undefine = λ h i. i; delete_volume = λ h i. i }

creation : CreationKeeps libvirt default_config OtherThere "vm"
unfolding domain_config
creation = record {
  create_volume = λ xml e h i. i;
  define = λ mac xml e h i. ground arith;
  start = λ h i. i;
}

clean-Keeps_example :
    OtherThere (clean libvirt default_config "vm" (record { vm = true; other = true })).1
clean-Keeps_example =
    clean-Keeps libvirt default_config OtherThere questions "vm" removal creation
      (record { vm = true; other = true }) refl

abbrev on_libvirt : Context Host
on_libvirt = record {
  pool = small;
  provider = libvirt_provider libvirt default_config;
  util = util;
  now = pos 5000;
}

abbrev gone : Host
gone = record { vm = false; other = false }

abbrev lost : CiResource
lost = cir_in "cir-0001" "small" in_use delete

missing_machine_example :
    ((util.contains_finalizer lost.meta ofcir_finalizer ≡ true)
      → (is_ok (visit delete on_libvirt (start lost gone)).0 ≡ true)
        × ((visit delete on_libvirt (start lost gone)).1.cir ≡ drop_finalizer util lost)
        × ((visit delete on_libvirt (start lost gone)).1.resource_dirty ≡ true))
    × ((visit cleaning on_libvirt (start lost gone)).0
        ≡ err (wrapf "error in domain lookup" [] (foreign "no domain")))
    × ((visit cleaning on_libvirt (start lost gone)).1.cir ≡ lost)
    × ((visit cleaning on_libvirt (start lost gone)).1.world ≡ gone)
unfolding is_fallback_pool eq_ℤ
missing_machine_example =
    missing_machine libvirt default_config on_libvirt lost (foreign "no domain") gone gone gone refl
      refl refl refl refl
