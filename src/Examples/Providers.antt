-- ===== src/Examples/Providers.antt =====
-- Providers at concrete accounts: the theorems on the providers.
use ofcir.Prelude.{
  Outcome, ltb_ℤ, String, ℕ, suc, pos, str_eq, true, false, ◌≡◌, refl, List, [], ◌∷◌, none, some,
  Exec, ok, err, foreign, Bool-cases, inl, inr, if◌then◌else◌, pure, arith, eq_ℤ,
}
use ofcir.Prelude.Texts.{decimal, digits}
use ofcir.Api.{CiResource, available, cleaning, in_use, delete, is_fallback_pool}
use ofcir.Fsm.Machine.{Context}
use ofcir.Fsm.Process.{start}
use ofcir.Fsm.Safety.{is_answered}
use ofcir.Fsm.Table.{visit}
use ofcir.Fsm.Release.{is_ok}
use ofcir.Backends.Dummy.{
  DummyStore, new_instance, new_instances, first_available, set_available, lookup, acquire,
  dummy_provider, find,
}
use ofcir.Backends.DummyHolds.{call_clean, call_release, acquire-acquire_differs}
use ofcir.Backends.Aws.{Ec2, Instance, RunInstancesInput, first_id, probe}
use ofcir.Backends.AwsProvider.{
  InstanceSpec, RegionSpec, MachineSpec, AwsProviderConfig, aws_provider, get_supported_regions,
}
use ofcir.Backends.AwsProvider
use ofcir.Backends.AwsLaunches.{StartsOne, StartsNamed, Ec2Laws, acquire-StartsOne}
use ofcir.Backends.AwsGone.{deletion_blocked}
use ofcir.Backends.Equinix.{
  default_config, equinix_provider, equinix_provider_factory, Device, DeviceCreateRequest, Packngo,
  EquinixProviderConfig, count_devices,
}
use ofcir.Backends.Equinix
use ofcir.Backends.EquinixClients.{client_shared}
use ofcir.Backends.EquinixDevices.{PackngoLaws, acquire-MakesOne}
use ofcir.Examples.Fixtures.{cir_in, small, util}

abbrev fresh : DummyStore
fresh = record { is_made = true; instances = new_instances 10 0 }

acquire-acquire_differs_example : str_eq "dummy-1" "dummy-0" ≡ false
unfolding new_instance new_instances acquire first_available set_available dummy_provider lookup
    decimal digits
acquire-acquire_differs_example =
    acquire-acquire_differs (λ is. is) (λ P is h. h) fresh (acquire (λ is. is) fresh).1
      (new_instance 0).resource (new_instance 1).resource
      (call_clean "dummy-0" ∷ call_release "dummy-3" ∷ []) refl (tt, (refl, tt)) refl

abbrev on_dummy : Context DummyStore
on_dummy = record {
  pool = small;
  provider = dummy_provider (λ is. is);
  util = util;
  now = pos 5000;
}

abbrev known : CiResource
known =
    let r = cir_in "cir-0001" "small" available cleaning in
    record r { status = record r.status { resource_id = "dummy-0" } }

-- a resource that the dummy provider does not know is not cleaned, and one that it knows is
cleaned_if_known :
    (is_answered on_dummy known fresh cleaning ≡ true)
    × (is_answered on_dummy (cir_in "cir-0001" "small" available cleaning) fresh cleaning ≡ false)
unfolding is_fallback_pool eq_ℤ dummy_provider find lookup new_instance new_instances decimal digits
cleaned_if_known = (refl, refl)

abbrev host : Instance
host = record { instance_id = some "i-1"; state = some "running"; public_ip = none }

abbrev run : RunInstancesInput → Exec ℕ (List Instance)
run i w =
    if str_eq i.subnet_id "subnet-2"
    then (ok (host ∷ []), suc w)
    else (err (foreign "no capacity"), w)

-- An account that counts the instances it has started. Only one subnet has capacity, and no
-- instance is described.
abbrev account : Ec2 ℕ
account = record {
  connect = λ region. pure tt;
  run_instances = λ region. run;
  terminate_instances = λ region ids. pure tt;
  describe_instances = λ region q. pure [];
  api_error_code = λ e. none;
}

run-StartsNamed : (i : RunInstancesInput) (w : ℕ) → StartsNamed (λ n. n) w (run i w)
unfolding first_id
run-StartsNamed i w = elim (Bool-cases (str_eq i.subnet_id "subnet-2")) [
  | inl e ↦ rw e (refl, λ p. ground arith)
  | inr e ↦ rw e refl
]

account-Ec2Laws : Ec2Laws (λ n. n) account
account-Ec2Laws = record {
  connect_kept = λ region w. refl;
  describe_kept = λ region q w. refl;
  run_starts = λ region i w least greatest. run-StartsNamed i w;
}

abbrev spec : MachineSpec
spec = record {
  regions =
      record {
        name = "us-east-1";
        key_pair_name = "key";
        security_group_id = "group";
        subnet_id = "";
        subnet_ids = "subnet-1" ∷ "subnet-2" ∷ [];
        instances = record { kind = "c5n.metal"; ami_id = "ami" } ∷ [];
      }
      ∷ [];
  device = record { device_name = "/dev/xvda"; device_size = pos 1024; device_type = "gp2" };
}

abbrev config : AwsProviderConfig
config = record {
  access_key = "a";
  secret_access_key = "s";
  user_data = "";
  machine_spec = some spec;
}

acquire-StartsOne_example :
    StartsOne (λ n. n) 0 (AwsProvider.acquire account config (pos 2) "small" "" 0)
acquire-StartsOne_example =
    acquire-StartsOne (λ n. n) account account-Ec2Laws 0 config (pos 2) "small" "" 0 refl

abbrev on_aws : Context ℕ
on_aws = record {
  pool = small;
  provider = aws_provider account config;
  util = util;
  now = pos 5000;
}

abbrev lost : CiResource
lost = cir_in "cir-0001" "small" in_use delete

deletion_blocked_example :
    (is_ok (visit delete on_aws (start lost 0)).0 ≡ false)
    × ((visit delete on_aws (start lost 0)).1.cir ≡ lost)
unfolding get_supported_regions probe is_fallback_pool eq_ℤ
deletion_blocked_example =
    deletion_blocked account config spec on_aws lost 0 refl refl ((λ w. refl), tt) refl refl

abbrev device : String → Device
device id = record { id = id; state = "queued"; tags = "small" ∷ []; public_ipv4 = "" }

abbrev create_device : DeviceCreateRequest → Exec ℕ Device
create_device q w =
    if str_eq q.metro "ny" then (ok (device "d-2"), suc w) else (err (foreign "no capacity"), w)

-- a project that counts the devices it has made, with capacity in one metro
abbrev project : Packngo ℕ
project = record {
  list_devices = λ id. pure (device "d-1" ∷ []);
  create_device = create_device;
  get_device = λ id. pure (device id);
  reinstall_device = λ id os. pure tt;
  delete_device = λ id. pure tt;
  new_uuid = pure "1-2";
}

create_device-StartsOne :
    (q : DeviceCreateRequest) (w : ℕ) → StartsOne (λ n. n) w (create_device q w)
create_device-StartsOne q w = elim (Bool-cases (str_eq q.metro "ny")) [
  | inl e ↦ rw e refl
  | inr e ↦ rw e refl
]

project-PackngoLaws : PackngoLaws (λ n. n) project
project-PackngoLaws = record {
  list_kept = λ id w. refl;
  uuid_kept = λ w. refl;
  create_starts = create_device-StartsOne;
}

abbrev metal : EquinixProviderConfig
metal = record {
  project_id = "p";
  token = "t";
  metros = "da" ∷ "ny" ∷ [];
  plan = "c3.small.x86";
  os = "rocky_8";
  user_data = "";
}

acquire-MakesOne_example :
    StartsOne (λ n. n) 0 (Equinix.acquire project metal (pos 2) "small" "" 0)
    × ((devices : List Device) (w : ℕ)
        → project.list_devices "p" 0 ≡ (ok devices, w)
        → ltb_ℤ (count_devices "small" devices (pos 0)) (pos 2) ≡ false
        → (Equinix.acquire project metal (pos 2) "small" "" 0).1 ≡ 0)
acquire-MakesOne_example =
    acquire-MakesOne (λ n. n) project project-PackngoLaws metal 0 (pos 2) "small" "" 0 refl

abbrev with_token : String → String → EquinixProviderConfig
with_token id token = record default_config { project_id = id; token = token }

abbrev unmarshal_pair : EquinixProviderConfig → String → Outcome EquinixProviderConfig
unmarshal_pair c s =
    if str_eq s "first" then ok (with_token "pro" "ject") else ok (with_token "proj" "ect")

abbrev decode_plain : String → Outcome String
decode_plain s = ok s

-- a client whose only use of its token is to tell it
abbrev client_of : String → Packngo ℕ
client_of token = record project { new_uuid = pure token }

client_shared_example :
    (equinix_provider_factory unmarshal_pair decode_plain client_of ""
      (λ k. some "second")
      (equinix_provider_factory unmarshal_pair decode_plain client_of ""
        (λ k. some "first")
        (λ k. none)).1).0
    ≡ ok (equinix_provider (client_of "ject") (with_token "proj" "ect"))
client_shared_example =
    client_shared unmarshal_pair decode_plain client_of "" "" (λ k. some "first")
      (λ k. some "second") (with_token "pro" "ject") (with_token "proj" "ect") (λ k. none)
      (record { is_read = refl; is_plain = refl }) (record { is_read = refl; is_plain = refl }) refl
      refl
