-- ===== src/Backends/AwsProvider.antt =====
-- pkg/providers/aws.go: the configuration and the methods of `awsProvider`.
use ofcir.Prelude.{
  ℤ, pos, ltb_ℤ, ◌+ℤ◌, String, str_eq, Bool, true, false, not, ◌||◌, List, [], ◌∷◌, map, Option,
  none, some, Exec, Outcome, ok, wrap_outcome, errorf, pure, raise, crash, wrapping, catch, ◌>>=◌,
  ◌>>◌, if◌then◌else◌,
}
use ofcir.Prelude.Texts.{format_d}
use ofcir.Provider.{resource_at, Resource, Provider, SecretData}
use ofcir.Backends.Aws.{
  BlockDeviceSpec, Ec2, RunInstanceParams, run_instance_in_region, release_instance_in_region,
  find_instance_region, total_of_pool_in_region, is_instance_in_region_active,
  instance_in_region_public_ip,
}

pub record InstanceSpec : Type 0 where
  pub kind : String
  pub ami_id : String

pub record RegionSpec : Type 0 where
  pub name : String
  pub key_pair_name : String
  pub security_group_id : String
  pub subnet_id : String
  pub subnet_ids : List String
  pub instances : List InstanceSpec

pub record MachineSpec : Type 0 where
  pub regions : List RegionSpec
  pub device : BlockDeviceSpec

-- `none` is a nil pointer, which JSON's null gives
pub record AwsProviderConfig : Type 0 where
  pub access_key : String
  pub secret_access_key : String
  pub user_data : String
  pub machine_spec : Option MachineSpec

abbrev default_config : AwsProviderConfig
default_config = record {
  access_key = "";
  secret_access_key = "";
  user_data = "";
  machine_spec = some (record {
    regions =
        record {
          name = "us-east-1";
          key_pair_name = "";
          security_group_id = "";
          subnet_id = "";
          subnet_ids = [];
          instances = record { kind = "c5n.metal"; ami_id = "ami-0a73e96a849c232cc" } ∷ [];
        }
        ∷ [];
    device = record { device_name = "/dev/xvda"; device_size = pos 1024; device_type = "gp2" };
  });
}

-- `len(subnetIDs) == 0 && regionSpec.SubnetID != ""`
unfoldable pub subnets_of : RegionSpec → List String
subnets_of r = elim r.subnet_ids [
  | [] ↦ if str_eq r.subnet_id "" then [] else r.subnet_id ∷ []
  | s ∷ ss ↦ s ∷ ss
]

-- `getSupportedRegions`
unfoldable pub get_supported_regions : MachineSpec → List String
get_supported_regions m = map (λ (r : RegionSpec). r.name) m.regions

module _ {W : Type 0} (ec2 : Ec2 W) (config : AwsProviderConfig) where
  abbrev pub deref : Option MachineSpec → Exec W MachineSpec
  deref none = crash
  deref (some m) = pure m

  -- the first loop of `Acquire`, with the total so far
  unfoldable pub count_pool : String → List RegionSpec → ℤ → Exec W ℤ
  count_pool pool_name [] total = pure total
  count_pool pool_name (r ∷ rs) total = do
    count ←
        wrapping "failed counting the total amount of instances in pool %s in region %s"
          (pool_name ∷ r.name ∷ []) (total_of_pool_in_region ec2 pool_name r.name)
    count_pool pool_name rs (total +ℤ count)

  abbrev pub params_of :
      String → BlockDeviceSpec → RegionSpec → InstanceSpec → List String → RunInstanceParams
  params_of pool_name device r i subnet_ids = record {
    region = r.name;
    instance_type = i.kind;
    ami = i.ami_id;
    key_pair = r.key_pair_name;
    security_group_id = r.security_group_id;
    subnet_ids = subnet_ids;
    user_data = config.user_data;
    pool_name = pool_name;
    device = device;
  }

  -- one round of the inner loop; an error goes on to `next`
  unfoldable pub run_spec :
      String
      → BlockDeviceSpec
      → RegionSpec
      → InstanceSpec
      → Exec W Resource
      → List String
      → Exec W Resource
  run_spec pool_name device r i next [] =
      raise (errorf "no subnet IDs provided for region %s" (r.name ∷ []))
  run_spec pool_name device r i next (s ∷ ss) =
      catch
        (do
          id ← run_instance_in_region ec2 (params_of pool_name device r i (s ∷ ss))
          pure (resource_at id ""))
        (λ e. next)

  -- the inner loop, over the instance types of a region
  unfoldable pub run_specs :
      String → BlockDeviceSpec → RegionSpec → List InstanceSpec → Exec W Resource → Exec W Resource
  unfolding run_spec
  run_specs pool_name device r [] next = next
  run_specs pool_name device r (i ∷ is) next =
      run_spec pool_name device r i (run_specs pool_name device r is next) (subnets_of r)

  -- the second loop of `Acquire`
  unfoldable pub run_regions : String → BlockDeviceSpec → List RegionSpec → Exec W Resource
  unfolding run_specs
  run_regions pool_name device [] = raise (errorf "error creating instance" [])
  run_regions pool_name device (r ∷ rs) =
      run_specs pool_name device r r.instances (run_regions pool_name device rs)

  abbrev pub run_below : ℤ → String → MachineSpec → ℤ → Exec W Resource
  run_below pool_size pool_name m total =
      if ltb_ℤ total pool_size
      then run_regions pool_name m.device m.regions
      else raise (
          errorf "refusing to create instance, already have %d and pool size is %d"
            (format_d total ∷ format_d pool_size ∷ []))

  -- `Acquire`, where the machine spec is not nil
  unfoldable pub acquire_on : ℤ → String → MachineSpec → Exec W Resource
  acquire_on pool_size pool_name m = do
    total ← count_pool pool_name m.regions (pos 0)
    run_below pool_size pool_name m total

  -- `Acquire`
  unfoldable pub acquire : ℤ → String → String → Exec W Resource
  acquire pool_size pool_name pool_type = do
    m ← deref config.machine_spec
    acquire_on pool_size pool_name m

  abbrev find_region : String → Exec W String
  find_region id = do
    m ← deref config.machine_spec
    find_instance_region ec2 id (get_supported_regions m)

  -- `AcquireCompleted`
  unfoldable pub acquire_completed : String → Exec W (Bool × Resource)
  acquire_completed id = do
    region ← wrapping "error finding instance" [] (find_region id)
    is_running ←
        wrapping "error checking if instance is active" []
          (is_instance_in_region_active ec2 id region)
    if not is_running then pure (false, resource_at id "") else do
      ip ←
          wrapping "error checking if instance public IP" []
            (instance_in_region_public_ip ec2 id region)
      pure (true, resource_at id ip)

  -- `Clean` and `CleanCompleted`: AWS has no reloading of instances
  abbrev pub clean : String → Exec W (Unit {0})
  clean id = pure tt

  abbrev pub clean_completed : String → Exec W Bool
  clean_completed id = pure true

  -- `Release`
  unfoldable pub release : String → Exec W (Unit {0})
  release id = do
    region ← wrapping "error finding instance for release" [] (find_region id)
    wrapping "error releasing instance" [] (release_instance_in_region ec2 region id)

  abbrev pub aws_provider : Provider W
  aws_provider = record {
    acquire = acquire;
    acquire_completed = acquire_completed;
    clean = clean;
    clean_completed = clean_completed;
    release = release;
  }

module _ {W : Type 0} (ec2 : Ec2 W)
    (unmarshal : AwsProviderConfig → String → Outcome AwsProviderConfig) where
  abbrev read_config : Option String → Exec W AwsProviderConfig
  read_config none w = (ok default_config, w)
  read_config (some json) w =
      (wrap_outcome "error in provider config json" [] (unmarshal default_config json), w)

  -- the test of `NewAWSHandler`
  unfoldable pub new_aws_handler : AwsProviderConfig → Exec W (Unit {0})
  new_aws_handler c =
      if str_eq c.access_key "" || str_eq c.secret_access_key ""
      then raise (errorf "AWS access key and secret access key are required" [])
      else pure tt

  -- `AWSProviderFactory`, where `unmarshal` is `json.Unmarshal` over the default configuration
  unfoldable pub aws_provider_factory : String → SecretData → Exec W (Provider W)
  unfolding new_aws_handler
  aws_provider_factory provider_info secret = do
    c ← read_config (secret "config")
    wrapping "failed creating AWS handler" [] (new_aws_handler c)
    pure (aws_provider ec2 c)
