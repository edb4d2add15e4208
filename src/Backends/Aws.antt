-- ===== src/Backends/Aws.antt =====
-- pkg/providers/aws.go: the data and the handler of the AWS provider, which calls EC2.
use ofcir.Prelude.{
  ℤ, pos, ◌+ℤ◌, String, str_eq, Bool, true, false, List, [], ◌∷◌, ◌++◌, Option, none, some, length,
  Exec, Outcome, ok, err, panic, Error, errorf, wrapf, joined, pure, raise, crash, wrapping, ◌>>=◌,
  ◌>>◌, if◌then◌else◌,
}
use ofcir.Prelude.Texts.{contains_text}

pub record BlockDeviceSpec : Type 0 where
  pub device_name : String
  pub device_size : ℤ
  pub device_type : String

-- `RunInstancesInput`, with the one instance of `MinCount` and `MaxCount` written out, and the
-- value of the tag "cipool"
pub record RunInstancesInput : Type 0 where
  pub image_id : String
  pub instance_type : String
  pub key_name : String
  pub min_count : ℤ
  pub max_count : ℤ
  pub security_group_ids : List String
  pub device : BlockDeviceSpec
  pub cipool : String
  pub user_data : Option String
  pub subnet_id : String

-- What `DescribeInstances` is asked: one instance, or the running ones with a value of "cipool".
pub data DescribeInput : Type 0 where
  by_id : String → DescribeInput
  running_of : String → DescribeInput

pub record Instance : Type 0 where
  pub instance_id : Option String
  pub state : Option String
  pub public_ip : Option String

-- The SDK's calls: `connect` is `GetEC2Client`, and a client is known by its region.
-- `DescribeInstances` returns the reservations, each with its instances. `api_error_code` is the
-- code of the first `smithy.APIError` that an error wraps.
pub record Ec2 (W : Type 0) : Type 0 where
  pub connect : String → Exec W (Unit {0})
  pub run_instances : String → RunInstancesInput → Exec W (List Instance)
  pub terminate_instances : String → List String → Exec W (Unit {0})
  pub describe_instances : String → DescribeInput → Exec W (List (List Instance))
  pub api_error_code : Error → Option String

pub record RunInstanceParams : Type 0 where
  pub region : String
  pub instance_type : String
  pub ami : String
  pub key_pair : String
  pub security_group_id : String
  pub subnet_ids : List String
  pub user_data : String
  pub pool_name : String
  pub device : BlockDeviceSpec

abbrev pub running_state : String
running_state = "running"

unfoldable pub input_of : RunInstanceParams → String → RunInstancesInput
input_of p subnet = record {
  image_id = p.ami;
  instance_type = p.instance_type;
  key_name = p.key_pair;
  min_count = pos 1;
  max_count = pos 1;
  security_group_ids = p.security_group_id ∷ [];
  device = p.device;
  cipool = p.pool_name;
  user_data = if str_eq p.user_data "" then none else some p.user_data;
  subnet_id = subnet;
}

abbrev run_failed_text : String
run_failed_text =
    "failed running instance %s with ami ID %s in region %s with keypair name %s, security group %s, attempted subnets %v and block devices %s"

-- The error behind the loop, with the attempts' errors joined; a join of none is nil. Of the
-- device, the text shows the name.
unfoldable pub run_failed : RunInstanceParams → Option Error → Error
run_failed p attempts =
    let args =
      p.instance_type
      ∷ p.ami
      ∷ p.region
      ∷ p.key_pair
      ∷ p.security_group_id
      ∷ (p.subnet_ids ++ p.device.device_name ∷ []) in
    elim attempts [ none ↦ errorf run_failed_text args | some e ↦ wrapf run_failed_text args e ]

abbrev add_error : Option Error → Error → Option Error
add_error none e = some e
add_error (some d) e = some (joined d e)

-- `len(output.Instances) == 0 || output.Instances[0].InstanceId == nil`, or the id
unfoldable pub first_id : List Instance → Option String
first_id [] = none
first_id (i ∷ is) = i.instance_id

module _ {W : Type 0} (ec2 : Ec2 W) where
  abbrev pub connected : String → Exec W (Unit {0})
  connected region =
      wrapping "failed to create EC2 client for region %s" (region ∷ []) (ec2.connect region)

  -- an answer of `RunInstances`: without an id it ends the loop, an error goes on to `next`
  unfoldable pub on_run :
      RunInstanceParams
      → String
      → Option Error
      → (Option Error → Exec W String)
      → Outcome (Option String)
      → Exec W String
  on_run p subnet attempts next (ok (some id)) w = (ok id, w)
  on_run p subnet attempts next (ok none) w =
      raise
        (run_failed p (
          add_error attempts
            (wrapf "subnet %s" (subnet ∷ []) (errorf "no instance ID returned" []))))
        w
  on_run p subnet attempts next (err e) w =
      next (add_error attempts (wrapf "subnet %s" (subnet ∷ []) e)) w
  on_run p subnet attempts next panic w = crash w

  -- the loop over the subnets, with the errors so far
  unfoldable pub try_subnets : RunInstanceParams → List String → Option Error → Exec W String
  unfolding on_run
  try_subnets p [] attempts w = raise (run_failed p attempts) w
  try_subnets p (subnet ∷ subnets) attempts w =
      let (r, w') =
        (do is ← ec2.run_instances p.region (input_of p subnet); pure (first_id is)) w in
      on_run p subnet attempts (try_subnets p subnets) r w'

  -- `RunInstanceInRegion`
  unfoldable pub run_instance_in_region : RunInstanceParams → Exec W String
  unfolding try_subnets
  run_instance_in_region p = do connected p.region; try_subnets p p.subnet_ids none

  -- `ReleaseInstanceInRegion`
  unfoldable pub release_instance_in_region : String → String → Exec W (Unit {0})
  release_instance_in_region region id = do
    connected region
    wrapping "failed to terminate instance %s in region %s" (id ∷ region ∷ [])
        (ec2.terminate_instances region (id ∷ []))

  abbrev is_not_found : Option String → Bool
  is_not_found none = false
  is_not_found (some code) = contains_text code "NotFound"

  abbrev has_instance : List (List Instance) → Bool
  has_instance ((i ∷ is) ∷ rs) = true
  has_instance _ = false

  -- whether one region describes the instance; a region without a client is passed over
  abbrev pub described : String → Outcome (List (List Instance)) → Exec W Bool
  described region (ok rs) w = (ok (has_instance rs), w)
  described region (err e) w =
      if is_not_found (ec2.api_error_code e)
      then (ok false, w)
      else (err (wrapf "failed describing instances in region %s" (region ∷ []) e), w)
  described region panic w = (panic, w)

  abbrev probe_connected : String → String → Outcome (Unit {0}) → Exec W Bool
  probe_connected id region (ok _) w =
      let (r, w') = ec2.describe_instances region (by_id id) w in described region r w'
  probe_connected id region (err e) w = (ok false, w)
  probe_connected id region panic w = (panic, w)

  -- one round of the loop of `FindInstanceRegion`
  unfoldable pub probe : String → String → Exec W Bool
  probe id region w = let (r, w') = ec2.connect region w in probe_connected id region r w'

  -- `FindInstanceRegion`
  unfoldable pub find_instance_region : String → List String → Exec W String
  find_instance_region id [] = raise (errorf "instance %s not found in any region" (id ∷ []))
  find_instance_region id (region ∷ regions) = do
    is_here ← probe id region
    if is_here then pure region else find_instance_region id regions

  abbrev pub count_instances : List (List Instance) → ℤ → ℤ
  count_instances [] total = total
  count_instances (r ∷ rs) total = count_instances rs (total +ℤ pos (length r))

  -- `GetTotalAmountOfPoolInstancesInRegion`
  unfoldable pub total_of_pool_in_region : String → String → Exec W ℤ
  total_of_pool_in_region pool_name region = do
    connected region
    rs ←
        wrapping "failed listing all running instances from pool %s in %s" (pool_name ∷ region ∷ [])
          (ec2.describe_instances region (running_of pool_name))
    pure (count_instances rs (pos 0))

  -- the instance that both of the next two functions read
  abbrev first_instance : String → String → List (List Instance) → Exec W Instance
  first_instance id region ((i ∷ is) ∷ rs) = pure i
  first_instance id region _ =
      raise (errorf "instance %s in region %s doesn't exist" (id ∷ region ∷ []))

  abbrev pub describe_one : String → String → Exec W Instance
  describe_one id region = do
    connected region
    rs ←
        wrapping "failed describing instance %s in region %s" (id ∷ region ∷ [])
          (ec2.describe_instances region (by_id id))
    first_instance id region rs

  abbrev or_missing : String → String → String → Option String → Exec W String
  or_missing text id region none = raise (errorf text (id ∷ region ∷ []))
  or_missing text id region (some s) = pure s

  -- `IsInstanceInRegionActive`
  unfoldable pub is_instance_in_region_active : String → String → Exec W Bool
  is_instance_in_region_active id region = do
    i ← describe_one id region
    s ← or_missing "instance %s in region %s doesn't have a state" id region i.state
    pure (str_eq s running_state)

  -- `GetInstanceInRegionPublicIP`
  unfoldable pub instance_in_region_public_ip : String → String → Exec W String
  instance_in_region_public_ip id region = do
    i ← describe_one id region
    or_missing "instance %s in region %s doesn't have public IP address" id region i.public_ip
