-- ===== src/Backends/AwsGone.antt =====
-- pkg/providers/aws.go with controllers/ciresource_fsm.go: an instance that AWS no longer has.
use ofcir.Prelude.{
  String, true, false, ◌≡◌, refl, ◌||◌, List, [], ◌∷◌, some, Outcome, ok, err, panic, All, ◌∙◌,
  wrap_outcome, wrapping, Exec, continue,
}
use ofcir.Api.{CiResource, delete, ofcir_finalizer, is_fallback_pool}
use ofcir.Provider.{as_resource_not_found}
use ofcir.Fsm.Machine.{Context}
use ofcir.Fsm.Process.{start}
use ofcir.Fsm.Table.{visit}
use ofcir.Fsm.Release.{is_gone, is_ok, is_placeholder, is_released, delete_exact}
use ofcir.Backends.Aws.{Ec2, release_instance_in_region, probe, find_instance_region}
use ofcir.Backends.AwsProvider.{
  MachineSpec, AwsProviderConfig, get_supported_regions, release, aws_provider,
}

module _ {W : Type 0} (ec2 : Ec2 W) (config : AwsProviderConfig) (m : MachineSpec) where
  -- no region describes the instance
  abbrev pub Missing : String → List String → Type 0
  Missing id = All (λ region. (w : W) → (probe ec2 id region w).0 ≡ ok false)

  -- no value, and no error that says that there is no such resource
  abbrev Refused : {A : Type 0} → Outcome A × W → Type 0
  Refused (ok a, w) = ⊥
  Refused (err e, w) = as_resource_not_found e ≡ false
  Refused (panic, w) = ⊥

  find_instance_region-Refused :
      (id : String) (regions : List String) (w : W)
      → Missing id regions
      → Refused (find_instance_region ec2 id regions w)
  unfolding find_instance_region as_resource_not_found
  find_instance_region-Refused id [] w h = refl
  find_instance_region-Refused id (region ∷ regions) w h =
      let (r, w') = probe ec2 id region w in
      rw (h.0 w) (find_instance_region-Refused id regions w' h.1)

  continue-is_gone :
      {A : Type 0} (r : Outcome A × W) (f : A → Exec W (Unit {0}))
      → Refused r
      → is_gone (continue (wrap_outcome "error finding instance for release" [] r.0) f r.1).0
        ≡ false
  unfolding as_resource_not_found
  continue-is_gone (ok a, w) f h = elim h [ ]
  continue-is_gone (err e, w) f h = h
  continue-is_gone (panic, w) f h = elim h [ ]

  release-Refused :
      (id : String) (w : W)
      → config.machine_spec ≡ some m
      → Missing id (get_supported_regions m)
      → is_gone (release ec2 config id w).0 ≡ false
  unfolding release
  release-Refused id w e h = rw e (
      continue-is_gone (find_instance_region ec2 id (get_supported_regions m) w)
        (λ region.
          wrapping "error releasing instance" [] (release_instance_in_region ec2 region id))
        (find_instance_region-Refused id (get_supported_regions m) w h))

  -- An instance that no region of the configuration has any more is not taken for released: the
  -- provider's error is none that the state machine knows. In a pool of this provider that is no
  -- fallback pool, a deleted resource with that id keeps its finalizer and its state, and the run
  -- returns an error.
  pub deletion_blocked :
      (ctx : Context W) (cir : CiResource) (w : W)
      → ctx.provider ≡ aws_provider ec2 config
      → config.machine_spec ≡ some m
      → Missing cir.status.resource_id (get_supported_regions m)
      → is_fallback_pool ctx.pool ≡ false
      → ctx.util.contains_finalizer cir.meta ofcir_finalizer ≡ true
      → (is_ok (visit delete ctx (start cir w)).0 ≡ false)
        × ((visit delete ctx (start cir w)).1.cir ≡ cir)
  deletion_blocked ctx cir w p e h f k =
      let gone : is_gone (ctx.provider.release cir.status.resource_id w).0 ≡ false =
        rw p (release-Refused cir.status.resource_id w e h) in
      let none_of : (is_placeholder ctx cir w || is_released ctx cir w) ≡ false =
        rw (f, gone) refl in
      let exact = delete_exact ctx cir w k in (exact.0 ∙ none_of, (exact.2 none_of).0)
