-- ===== src/Server/Started.antt =====
-- pkg/server/server.go and cmd/ofcir-api/main.go: what runs when the server runs.
use ofcir.Prelude.{
  String, pos, ◌*◌, ◌^◌, str_eq, eq_iff, Bool-cases, inl, inr, ◌⊎◌, ◌≢◌, true, [], ◌∷◌, arith, ◌≡◌,
  refl, sym, ap, ◌∙◌, some, Exec, Outcome, ok, err, panic, pure, catch, or_panic, or_panic-eq-ok,
  >>=-inv, >>=-eq-ok,
}
use ofcir.Prelude.Texts.{concat}
use ofcir.Server.Setup.{
  get_status, acquire, release, Config, OfcirApi, Platform, Host, Flags, new_ofcir_api, outside,
  routes, client_config, new_for_config, find_config, with_limits, set_core, set_clients, init,
  http_server, run, or_default, main,
}

module _ {R K S W : Type 0} (platform : Platform R K S W) where
  outside-eq-ok :
      {A : Type 0} (m : Exec W A) (s t : Host R K S W) (a : A)
      → outside m s ≡ (ok a, t)
      → (m s.outside ≡ (ok a, t.outside)) × (t.api ≡ s.api)
  outside-eq-ok m s t a h = (λ i. ((h i).0, (h i).1.outside), λ i. (sym h i).1.api)

  -- the clients are made, one after the other, and the router is set
  record Clients (config : Config R) (before after : Host R K S W) : Type 0 where
    clientset : K
    core : S
    between : W
    client_made :
        platform.rest_client_for (client_config platform config) before.outside
        ≡ (ok clientset, between)
    core_made : platform.core_client_for config between ≡ (ok core, after.outside)
    api_set :
        after.api
        ≡ record before.api { clientset = some clientset; core = some core; router = some routes }

  set_core-inv :
      (config : Config R) (s t : Host R K S W)
      → set_core platform config s ≡ (ok tt, t)
      → (core : S) × (platform.core_client_for config s.outside ≡ (ok core, t.outside))
        × (t.api ≡ record s.api { core = some core; router = some routes })
  set_core-inv config s t h =
      let (core, u, e, h') =
        >>=-inv (outside (or_panic (platform.core_client_for config))) _ s t tt h in
      let (made, kept) = outside-eq-ok (or_panic (platform.core_client_for config)) s u core e in
      let same = ap (λ x. x.1) h' in
      (
        core,
        or_panic-eq-ok (platform.core_client_for config) s.outside t.outside core
            (made ∙ ap (λ (x : Host R K S W). (ok core, x.outside)) same),
        ap (λ (x : Host R K S W). x.api) (sym same)
            ∙ ap (λ (x : OfcirApi R K S). record x { core = some core; router = some routes }) kept,
      )

  set_clients-inv :
      (config : Config R) (s t : Host R K S W)
      → set_clients platform config s ≡ (ok tt, t)
      → Clients config s t
  unfolding new_for_config
  set_clients-inv config s t h =
      let make = or_panic (new_for_config platform config) in
      let (clientset, u, e, h') = >>=-inv (outside make) _ s t tt h in
      let (made, kept) = outside-eq-ok make s u clientset e in
      let u' : Host R K S W = record u { api = record u.api { clientset = some clientset } } in
      let (core, core_made, api_set) = set_core-inv config u' t h' in
      record {
        clientset = clientset;
        core = core;
        between = u.outside;
        client_made =
            or_panic-eq-ok (new_for_config platform config) s.outside u.outside clientset made;
        core_made = core_made;
        api_set =
            api_set
            ∙ ap
                (λ (x : OfcirApi R K S). record x {
                  clientset = some clientset;
                  core = some core;
                  router = some routes;
                })
                kept;
      }

  -- The configuration is that of the file, where one is named, and that of the cluster otherwise.
  abbrev pub ConfigFrom : String → Config R → W → W → Type 0
  ConfigFrom kubeconfig found before after =
      ((kubeconfig ≡ "") × (platform.in_cluster_config before ≡ (ok found, after)))
      ⊎ ((kubeconfig ≢ "")
          × (platform.build_config_from_flags "" kubeconfig before ≡ (ok found, after)))

  -- A server that was told to listen, as `main` starts it with these flags: the calls that came
  -- before, in their order, and what it was to listen with. The configuration has the limits, and
  -- nothing else of it is changed; the REST client is made of a copy with the group and the version
  -- of the API. Each of the three routes wants a token.
  pub record Serving (flags : Flags) (before after : W) : Type 0 where
    pub found : Config R
    pub clientset : K
    pub core : S
    pub at_scheme : W
    pub at_core : W
    pub at_listen : W
    pub config_found : ConfigFrom (or_default "" flags.kubeconfig) found before at_scheme
    pub client_made :
        platform.rest_client_for
          (record found {
            qps = 50;
            burst = 100;
            group_version = some ("ofcir.openshift", "v1");
            api_path = "/apis";
            without_conversion = true;
            user_agent = platform.default_user_agent;
          })
          (platform.add_to_scheme at_scheme).1
        ≡ (ok clientset, at_core)
    pub core_made :
        platform.core_client_for (record found { qps = 50; burst = 100 }) at_core
        ≡ (ok core, at_listen)
    pub listening :
        after
        ≡ (platform.listen_and_serve
            (record {
              addr = concat ":" (or_default "8087" flags.port);
              api = record {
                config = some (record found { qps = 50; burst = 100 });
                clientset = some clientset;
                core = some core;
                router = some (
                    record {
                      method = "GET";
                      path = "/v1/ofcir/:cirName";
                      needs_token = true;
                      endpoint = get_status;
                    }
                    ∷ record {
                      method = "POST";
                      path = "/v1/ofcir";
                      needs_token = true;
                      endpoint = acquire;
                    }
                    ∷ record {
                      method = "DELETE";
                      path = "/v1/ofcir/:cirName";
                      needs_token = true;
                      endpoint = release;
                    }
                    ∷ []);
                port = or_default "8087" flags.port;
                namespace = or_default "ofcir-system" flags.namespace;
              };
              read_timeout = pos (10 * 10 ^ 9);
              idle_timeout = pos (120 * 10 ^ 9);
            })
            at_listen).1

  find_config-ConfigFrom :
      (kubeconfig : String) (found : Config R) (w t : W)
      → find_config platform kubeconfig w ≡ (ok found, t)
      → ConfigFrom kubeconfig found w t
  find_config-ConfigFrom kubeconfig found w t h = elim (Bool-cases (str_eq kubeconfig "")) [
    | inl e ↦ inl ((eq_iff kubeconfig "").0 e, rw e at h)
    | inr e ↦
        inr (λ same. let e' = (eq_iff kubeconfig "").1 same in absurd (ground arith), rw e at h)
  ]

  -- the state after a call whose error is dropped
  state-catch-pure : (m : Exec W (Unit {0})) (w : W) → (catch m (λ e. pure tt) w).1 ≡ (m w).1
  state-catch-pure m w = go (m w)
    where
      go : (r : Outcome (Unit {0}) × W) → (catch (λ _. r) (λ e. pure tt) w).1 ≡ r.1
      go (ok u, v) = refl
      go (err e, v) = refl
      go (panic, v) = refl

  init-Serving :
      (flags : Flags) (w : W) (t : Host R K S W)
      → init platform (or_default "" flags.kubeconfig) (record {
        api =
            new_ofcir_api
              (or_default "8087" flags.port)
              (or_default "ofcir-system" flags.namespace);
        outside = w;
      })
        ≡ (ok tt, t)
      → Serving flags w (run platform t).1.outside
  unfolding init run client_config http_server
  init-Serving flags w t h =
      let find = find_config platform (or_default "" flags.kubeconfig) in
      let add = catch platform.add_to_scheme (λ e. pure tt) in
      let (found, s1, e1, h1) = >>=-inv (outside find) _ _ t tt h in
      let (found_ok, kept1) = outside-eq-ok find _ s1 found e1 in
      let config = with_limits platform found in
      let s1' : Host R K S W = record s1 { api = record s1.api { config = some config } } in
      let (u, s2, e2, h2) = >>=-inv (outside add) _ s1' t tt h1 in
      let (added, kept2) = outside-eq-ok add s1' s2 u e2 in
      let at_client =
        sym (state-catch-pure platform.add_to_scheme s1.outside) ∙ ap (λ x. x.1) added in
      let made = set_clients-inv config s2 t h2 in
      let configured =
        kept2 ∙ ap (λ (x : OfcirApi R K S). record x { config = some config }) kept1 in
      let set = λ (x : OfcirApi R K S). record x {
        clientset = some made.clientset;
        core = some made.core;
        router = some routes;
      } in
      record {
        found = found;
        clientset = made.clientset;
        core = made.core;
        at_scheme = s1.outside;
        at_core = made.between;
        at_listen = t.outside;
        config_found =
            find_config-ConfigFrom (or_default "" flags.kubeconfig) found w s1.outside found_ok;
        client_made = rw at_client made.client_made;
        core_made = made.core_made;
        listening =
            state-catch-pure (platform.listen_and_serve (http_server platform t.api)) t.outside
            ∙ ap (λ a. (platform.listen_and_serve (http_server platform a) t.outside).1)
                (made.api_set ∙ ap set configured);
      }

  -- Where `main` of the server returns, whatever its flags, it has called `ListenAndServe`, and
  -- has dropped its error if there was one: after it found a configuration, in the file that the
  -- flag names, or in the cluster where none is named, and made both clients without an error, and
  -- with the three routes, each of which wants a token.
  pub main-Serving :
      (flags : Flags) (w : W)
      → (main platform flags w).0 ≡ ok tt
      → Serving flags w (main platform flags w).1
  unfolding main
  main-Serving flags w h =
      let begin : Host R K S W = record {
        api =
            new_ofcir_api (or_default "8087" flags.port)
              (or_default "ofcir-system" flags.namespace);
        outside = w;
      } in
      let start = or_panic (init platform (or_default "" flags.kubeconfig)) in
      let (u, t, e, h') = >>=-eq-ok start (λ _. run platform) begin tt h in
      let ready = or_panic-eq-ok (init platform (or_default "" flags.kubeconfig)) begin t u e in
      rw (e, main) (init-Serving flags w t ready)
