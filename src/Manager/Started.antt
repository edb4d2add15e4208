-- ===== src/Manager/Started.antt =====
-- main.go: what the status 0 of the manager's process says.
use ofcir.Prelude.{
  true, false, List, [], ◌∷◌, ◌≡◌, refl, ap, Exec, Outcome, ok, err, panic, or_panic,
  or_panic-eq-ok, >>=-inv, arith,
}
use ofcir.Server.Setup.{or_default}
use ofcir.Manager.{
  Kind, ci_pool, ci_resource, Controller, ManagerOptions, with_authentication_and_authorization,
  Runtime, ManagerFlags, options, pool_controller, resource_controller, exit_code, add_schemes,
  run_manager, manage,
}

exit_code-0 : (r : Outcome (Unit {0})) → exit_code r ≡ 0 → r ≡ ok tt
exit_code-0 (ok tt) h = refl
exit_code-0 (err e) h = absurd (ground arith)
exit_code-0 panic h = absurd (ground arith)

module _ {W : Type 0} where
  -- Calls that are made one after the other, from a state to a state, each without an error.
  pub data Done : List (Exec W (Unit {0})) → W → W → Type 0 where
    nothing : {w : W} → Done [] w w
    step :
        {call : Exec W (Unit {0})} {calls : List (Exec W (Unit {0}))} {u v w : W}
        → call u ≡ (ok tt, v)
        → Done calls v w
        → Done (call ∷ calls) u w

-- a controller for objects of one kind, which works on one at a time
abbrev pub one_worker : Kind → Controller
one_worker kind = record { for_kind = kind; max_concurrent_reconciles = 1 }

module _ {G M W : Type 0} (runtime : Runtime G M W) where
  -- A manager that has run, from the state `before` to the state `after`: the schemes, the
  -- configuration and the manager were there, and then each call, in this order, was without an
  -- error, the last of them the run of the manager. Each kind of object has one controller, and
  -- each controller one worker.
  pub record Managed (flags : ManagerFlags) (before after : W) : Type 0 where
    pub config : G
    pub mgr : M
    pub at_config : W
    pub at_manager : W
    pub at_setup : W
    pub schemes_added :
        Done (runtime.add_core_to_scheme ∷ runtime.add_ofcir_to_scheme ∷ []) before at_config
    pub config_found : runtime.get_config_or_die at_config ≡ (ok config, at_manager)
    pub opts : ManagerOptions
    pub manager_made : runtime.new_manager config opts at_manager ≡ (ok mgr, at_setup)
    pub metrics_secure :
        (opts.metrics.secure_serving ≡ true)
        × (opts.metrics.next_protos ≡ "http/1.1" ∷ [])
        × (opts.metrics.filter_provider ≡ with_authentication_and_authorization)
    pub addresses :
        (opts.metrics.bind_address ≡ or_default ":8443" flags.metrics_addr)
        × (opts.health_probe_bind_address ≡ or_default ":8081" flags.probe_addr)
    pub elects :
        (opts.leader_election ≡ or_default false flags.enable_leader_election)
        × (opts.leader_election_id ≡ "7c25506c.openshift")
        × (opts.leader_election_namespace ≡ "ofcir-system")
    pub watches : opts.default_namespaces ≡ "ofcir-system" ∷ []
    pub all_done :
        Done
          (runtime.complete mgr (one_worker ci_pool)
            ∷ runtime.complete mgr (one_worker ci_resource)
            ∷ runtime.add_healthz_check mgr "healthz"
            ∷ runtime.add_readyz_check mgr "readyz"
            ∷ runtime.start mgr
            ∷ [])
          at_setup
          after

  add_schemes-Done :
      (u v : W)
      → add_schemes runtime u ≡ (ok tt, v)
      → Done (runtime.add_core_to_scheme ∷ runtime.add_ofcir_to_scheme ∷ []) u v
  add_schemes-Done u v h =
      let (x, t, e, h') =
        >>=-inv (or_panic runtime.add_core_to_scheme) (λ _. or_panic runtime.add_ofcir_to_scheme) u
          v tt h in
      step (or_panic-eq-ok runtime.add_core_to_scheme u t x e)
        (step (or_panic-eq-ok runtime.add_ofcir_to_scheme t v tt h') nothing)

  run_manager-Done :
      (mgr : M) (u v : W)
      → run_manager runtime mgr u ≡ (ok tt, v)
      → Done
          (runtime.complete mgr (one_worker ci_pool)
            ∷ runtime.complete mgr (one_worker ci_resource)
            ∷ runtime.add_healthz_check mgr "healthz"
            ∷ runtime.add_readyz_check mgr "readyz"
            ∷ runtime.start mgr
            ∷ [])
          u
          v
  run_manager-Done mgr u v h =
      let (_, u1, e1, h1) = >>=-inv (runtime.complete mgr pool_controller) _ u v tt h in
      let (_, u2, e2, h2) = >>=-inv (runtime.complete mgr resource_controller) _ u1 v tt h1 in
      let (_, u3, e3, h3) = >>=-inv (runtime.add_healthz_check mgr "healthz") _ u2 v tt h2 in
      let (_, u4, e4, h4) = >>=-inv (runtime.add_readyz_check mgr "readyz") _ u3 v tt h3 in
      step e1 (step e2 (step e3 (step e4 (step h4 nothing))))

  -- Where the process of the manager ends with status 0, whatever its flags, the two schemes were
  -- added, a configuration was found and the manager was made. Its metrics are served securely,
  -- behind authentication and without HTTP/2, it elects a leader if the flag says so, and it
  -- watches one namespace, "ofcir-system". One controller of the pools and one of the resources,
  -- with one worker each, were set up, the two checks were added, and the manager has run, all in
  -- this order and none with an error.
  pub manage-Managed :
      (flags : ManagerFlags) (w : W)
      → exit_code (manage runtime flags w).0 ≡ 0
      → Managed flags w (manage runtime flags w).1
  unfolding manage
  manage-Managed flags w h =
      let v = (manage runtime flags w).1 in
      let whole = ap (λ r. (r, v)) (exit_code-0 (manage runtime flags w).0 h) in
      let (_, at_config, e1, h1) = >>=-inv (add_schemes runtime) _ w v tt whole in
      let (config, at_manager, e2, h2) = >>=-inv runtime.get_config_or_die _ at_config v tt h1 in
      let (mgr, at_setup, e3, h3) =
        >>=-inv (runtime.new_manager config (options flags)) _ at_manager v tt h2 in
      record {
        config = config;
        mgr = mgr;
        at_config = at_config;
        at_manager = at_manager;
        at_setup = at_setup;
        schemes_added = add_schemes-Done w at_config e1;
        config_found = e2;
        opts = options flags;
        manager_made = e3;
        metrics_secure = (refl, refl, refl);
        addresses = (refl, refl);
        elects = (refl, refl, refl);
        watches = refl;
        all_done = run_manager-Done mgr at_setup v h3;
      }
