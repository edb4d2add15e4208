-- ===== src/Backends/AwsLaunches.antt =====
-- pkg/providers/aws.go: how many instances an acquisition starts.
use ofcir.Prelude.{
  ℕ, suc, ℤ, pos, ltb_ℤ, ◌+ℤ◌, String, ◌≡◌, refl, List, [], ◌∷◌, Option, none, some, Exec, Outcome,
  ok, err, panic, Error, Bool-cases, inl, inr, continue, pure, ◌∙◌, ◌≢◌, handle, ◌>>=◌, wrapping,
}
use mathlib.Core.Path.{subst}
use ofcir.Provider.{Resource, resource_at}
use ofcir.Backends.Aws.{
  BlockDeviceSpec, Ec2, Instance, RunInstancesInput, RunInstanceParams, DescribeInput, running_of,
  count_instances, connected, first_id, input_of, on_run, try_subnets, run_instance_in_region,
  total_of_pool_in_region,
}
use ofcir.Backends.AwsProvider.{
  InstanceSpec, RegionSpec, MachineSpec, AwsProviderConfig, count_pool, run_spec, run_specs,
  run_regions, acquire, acquire_on, run_below, deref, params_of, subnets_of,
}

module _ {W : Type 0} (launched : W → ℕ) where
  -- A call that returns a value has started one instance, any other none.
  abbrev pub StartsOne : {A : Type 0} → ℕ → Outcome A × W → Type 0
  StartsOne n (ok a, w) = launched w ≡ suc n
  StartsOne n (err e, w) = launched w ≡ n
  StartsOne n (panic, w) = launched w ≡ n

  -- the same, with an id of the first instance that is returned
  abbrev pub StartsNamed : ℕ → Outcome (List Instance) × W → Type 0
  StartsNamed n (ok is, w) = (launched w ≡ suc n) × (first_id is ≢ none)
  StartsNamed n (err e, w) = launched w ≡ n
  StartsNamed n (panic, w) = launched w ≡ n

  -- What the documentation of EC2 says, with one instance as the least and the greatest count: a
  -- request that succeeds starts one instance, and returns it with its id; one that fails starts
  -- none, and no other call does.
  pub record Ec2Laws (ec2 : Ec2 W) : Type 0 where
    pub connect_kept : (region : String) (w : W) → launched (ec2.connect region w).1 ≡ launched w
    pub describe_kept :
        (region : String) (q : DescribeInput) (w : W)
        → launched (ec2.describe_instances region q w).1 ≡ launched w
    pub run_starts :
        (region : String) (i : RunInstancesInput) (w : W)
        → i.min_count ≡ pos 1
        → i.max_count ≡ pos 1
        → StartsNamed (launched w) (ec2.run_instances region i w)

  module _ (ec2 : Ec2 W) (laws : Ec2Laws ec2) (n : ℕ) where
    named-StartsOne :
        (p : RunInstanceParams) (subnet : String) (attempts : Option Error)
        (next : Option Error → Exec W String) (o : Option String) (w : W)
        → o ≢ none
        → launched w ≡ suc n
        → StartsOne n (on_run ec2 p subnet attempts next (ok o) w)
    unfolding on_run
    named-StartsOne p subnet attempts next none w i h = elim (i refl) [ ]
    named-StartsOne p subnet attempts next (some id) w i h = h

    on_run-StartsOne :
        (p : RunInstanceParams) (subnet : String) (attempts : Option Error)
        (next : Option Error → Exec W String)
        → ((a : Option Error) (w : W) → launched w ≡ n → StartsOne n (next a w))
        → (r : Outcome (List Instance)) (w : W) → StartsNamed n (r, w)
        → let (q, w') = continue r (λ is. pure (first_id is)) w in
          StartsOne n (on_run ec2 p subnet attempts next q w')
    unfolding on_run
    on_run-StartsOne p subnet attempts next k (ok is) w h =
        named-StartsOne p subnet attempts next (first_id is) w h.1 h.0
    on_run-StartsOne p subnet attempts next k (err e) w h = k _ w h
    on_run-StartsOne p subnet attempts next k panic w h = h

    try_subnets-StartsOne :
        (p : RunInstanceParams) (subnets : List String) (attempts : Option Error) (w : W)
        → launched w ≡ n
        → StartsOne n (try_subnets ec2 p subnets attempts w)
    unfolding try_subnets input_of
    try_subnets-StartsOne p [] attempts w h = h
    try_subnets-StartsOne p (subnet ∷ subnets) attempts w h =
        let (r, w') = ec2.run_instances p.region (input_of p subnet) w in
        on_run-StartsOne p subnet attempts (try_subnets ec2 p subnets)
          (try_subnets-StartsOne p subnets) r w'
          (subst (λ m. StartsNamed m (r, w')) h
            (laws.run_starts p.region (input_of p subnet) w refl refl))

    -- a step that starts nothing, and one that starts one if it succeeds
    then-StartsOne :
        {A B : Type 0} (m : Outcome A × W) (f : A → Exec W B)
        → launched m.1 ≡ n
        → ((a : A) (w : W) → launched w ≡ n → StartsOne n (f a w))
        → StartsOne n (continue m.0 f m.1)
    then-StartsOne (ok a, w) f h k = k a w h
    then-StartsOne (err e, w) f h k = h
    then-StartsOne (panic, w) f h k = h

    run-StartsOne :
        (p : RunInstanceParams) (w : W)
        → launched w ≡ n
        → StartsOne n (run_instance_in_region ec2 p w)
    unfolding run_instance_in_region
    run-StartsOne p w h =
        then-StartsOne (connected ec2 p.region w) (λ _. try_subnets ec2 p p.subnet_ids none)
          (laws.connect_kept p.region w ∙ h)
          (λ _ w' h'. try_subnets-StartsOne p p.subnet_ids none w' h')

    -- a start, or what comes after its error
    or_else-StartsOne :
        {A B : Type 0} (m : Outcome A × W) (f : A → B) (next : Exec W B)
        → StartsOne n m
        → ((w : W) → launched w ≡ n → StartsOne n (next w))
        → let (q, w') = continue m.0 (λ a. pure (f a)) m.1 in StartsOne n (handle (λ e. next) q w')
    or_else-StartsOne (ok a, w) f next h k = h
    or_else-StartsOne (err e, w) f next h k = k w h
    or_else-StartsOne (panic, w) f next h k = h

    then-kept :
        {A B : Type 0} (m : Outcome A × W) (f : A → Exec W B)
        → launched m.1 ≡ n
        → ((a : A) (w : W) → launched w ≡ n → launched (f a w).1 ≡ n)
        → launched (continue m.0 f m.1).1 ≡ n
    then-kept (ok a, w) f h k = k a w h
    then-kept (err e, w) f h k = h
    then-kept (panic, w) f h k = h

    total-kept :
        (pool_name region : String) (w : W)
        → launched w ≡ n
        → launched (total_of_pool_in_region ec2 pool_name region w).1 ≡ n
    unfolding total_of_pool_in_region
    total-kept pool_name region w h =
        let answer =
          wrapping "failed listing all running instances from pool %s in %s"
            (pool_name ∷ region ∷ []) (ec2.describe_instances region (running_of pool_name)) in
        then-kept (connected ec2 region w)
          (λ _. answer >>= (λ rs. pure (count_instances ec2 rs (pos 0))))
          (laws.connect_kept region w ∙ h)
          (λ _ w' h'.
            then-kept (answer w') (λ rs. pure (count_instances ec2 rs (pos 0)))
              (laws.describe_kept region (running_of pool_name) w' ∙ h') (λ rs w'' h''. h''))

    module _ (config : AwsProviderConfig) (pool_name : String) where
      count_pool-kept :
          (rs : List RegionSpec) (total : ℤ) (w : W)
          → launched w ≡ n
          → launched (count_pool ec2 config pool_name rs total w).1 ≡ n
      unfolding count_pool
      count_pool-kept [] total w h = h
      count_pool-kept (r ∷ rs) total w h =
          then-kept
            (wrapping "failed counting the total amount of instances in pool %s in region %s"
              (pool_name ∷ r.name ∷ []) (total_of_pool_in_region ec2 pool_name r.name) w)
            (λ count. count_pool ec2 config pool_name rs (total +ℤ count))
            (total-kept pool_name r.name w h) (λ count. count_pool-kept rs (total +ℤ count))

      run_spec-StartsOne :
          (device : BlockDeviceSpec) (r : RegionSpec) (i : InstanceSpec) (next : Exec W Resource)
          (subnets : List String) (w : W)
          → ((w : W) → launched w ≡ n → StartsOne n (next w))
          → launched w ≡ n
          → StartsOne n (run_spec ec2 config pool_name device r i next subnets w)
      unfolding run_spec
      run_spec-StartsOne device r i next [] w k h = h
      run_spec-StartsOne device r i next (s ∷ ss) w k h =
          or_else-StartsOne
            (run_instance_in_region ec2 (params_of ec2 config pool_name device r i (s ∷ ss)) w)
            (λ id. resource_at id "") next
            (run-StartsOne (params_of ec2 config pool_name device r i (s ∷ ss)) w h) k

      run_specs-StartsOne :
          (device : BlockDeviceSpec) (r : RegionSpec) (is : List InstanceSpec)
          (next : Exec W Resource) (w : W)
          → ((w : W) → launched w ≡ n → StartsOne n (next w))
          → launched w ≡ n
          → StartsOne n (run_specs ec2 config pool_name device r is next w)
      unfolding run_specs
      run_specs-StartsOne device r [] next w k h = k w h
      run_specs-StartsOne device r (i ∷ is) next w k h =
          let rest = run_specs ec2 config pool_name device r is next in
          run_spec-StartsOne device r i rest (subnets_of r) w
            (λ w h. run_specs-StartsOne device r is next w k h) h

      run_regions-StartsOne :
          (device : BlockDeviceSpec) (rs : List RegionSpec) (w : W)
          → launched w ≡ n
          → StartsOne n (run_regions ec2 config pool_name device rs w)
      unfolding run_regions
      run_regions-StartsOne device [] w h = h
      run_regions-StartsOne device (r ∷ rs) w h =
          run_specs-StartsOne device r r.instances (run_regions ec2 config pool_name device rs) w
            (run_regions-StartsOne device rs) h

      run_below-StartsOne :
          (pool_size : ℤ) (m : MachineSpec) (w : W)
          → launched w ≡ n
          → StartsOne n (acquire_on ec2 config pool_size pool_name m w)
      unfolding acquire_on
      run_below-StartsOne pool_size m w h =
          then-StartsOne (count_pool ec2 config pool_name m.regions (pos 0) w)
            (run_below ec2 config pool_size pool_name m) (count_pool-kept m.regions (pos 0) w h)
            (λ total w' h'. elim (Bool-cases (ltb_ℤ total pool_size)) [
              | inl e ↦ rw e (run_regions-StartsOne m.device m.regions w' h')
              | inr e ↦ rw e h'
            ])

      acquire_on-StartsOne :
          (pool_size : ℤ) (o : Option MachineSpec) (w : W)
          → launched w ≡ n
          → StartsOne n ((deref ec2 config o >>= acquire_on ec2 config pool_size pool_name) w)
      acquire_on-StartsOne pool_size none w h = h
      acquire_on-StartsOne pool_size (some m) w h = run_below-StartsOne pool_size m w h

    -- Where a request for one instance starts exactly one, and returns its id, if it succeeds, and
    -- no other call of EC2 starts one: an acquisition that returns a resource has started exactly
    -- one instance, and one that returns an error or panics has started none, however many
    -- regions, subnets and instance types it tried.
    pub acquire-StartsOne :
        (config : AwsProviderConfig) (pool_size : ℤ) (pool_name pool_type : String) (w : W)
        → launched w ≡ n
        → StartsOne n (acquire ec2 config pool_size pool_name pool_type w)
    unfolding acquire
    acquire-StartsOne config pool_size pool_name pool_type w h =
        acquire_on-StartsOne config pool_name pool_size config.machine_spec w h
