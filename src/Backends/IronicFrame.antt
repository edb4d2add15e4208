-- ===== src/Backends/IronicFrame.antt =====
-- pkg/providers/ironic.go: what an acquisition changes in Ironic.
use ofcir.Prelude.{
  ok, err, panic, String, str_eq, Bool, true, List, [], ◌∷◌, Option, none, some, Exec, Outcome,
  Error, ◌≡◌, refl, ap, ◌∙◌, All, Bool-cases, inl, inr, wrapping, gets, modify, arith, wrapf,
}
use mathlib.Core.List.{Memᴰ}
use ofcir.Prelude.Keeps.{
  bind-Keeps_at, Keeps, Kept, ◌>>=◌, ◌>>◌, step, idle, failed, attempt, branch,
}
use ofcir.Prelude.Texts.{contains_text}
use ofcir.Provider.{resource_at}
use ofcir.Backends.Ironic.{
  Value, text, Extra, write, Node, Info, IronicProviderConfig, IronicApi, IronicState, mentions,
  outside, url_info, cache_key, boot_files, not_nil, new_client, cached, set_cache, select_client,
  update_client,
}
use ofcir.Backends.IronicNodes.{
  cir_name, cir_taken, is_suitable, retried, update_node, change_provision_state_node, target_of,
  deploy_with, deploy_node, pick, page_nodes, or_next, each_page, selected, select_node,
}
use ofcir.Backends.IronicProvider.{acquire}

module _ {K W : Type 0} (api : IronicApi K W) (config : IronicProviderConfig)
    (Inv : W → Type 0) where
  -- A property of Ironic that a login and a list of the nodes keep.
  pub record QuestionsKeep : Type 0 where
    pub cloud_client : (name : String) → Keeps Inv (api.cloud_client config name)
    pub basic_client : Keeps Inv (api.basic_client config)
    pub get_image : Keeps Inv (api.get_image config)
    pub pages : (k : K) → All (Keeps Inv) (api.pages k)

  -- a node of a list that Ironic gives
  pub record Listed (n : Node) : Type 0 where
    pub k : K
    pub page : Exec W (Outcome (List Node))
    pub before : W
    pub nodes : List Node
    pub is_page : Memᴰ page (api.pages k)
    pub answered : (page before).0 ≡ ok (ok nodes)
    pub is_node : Memᴰ n nodes

  -- One that the deployment of a suitable node that was listed keeps, with its mark as taken.
  pub record DeploymentKeeps (pool_type : String) : Type 0 where
    pub mark :
        (k : K) (n : Node) (m : List (String × Value)) (info : Info)
        → Listed n
        → is_suitable api pool_type n ≡ true
        → n.extra ≡ some m
        → Keeps Inv (
            api.replace k n.uuid
              (("/extra", write cir_name (text cir_taken) m) ∷ ("/instance_info", info) ∷ []))
    pub deploy :
        (k : K) (n : Node) (target : String)
        → Listed n
        → is_suitable api pool_type n ≡ true
        → Keeps Inv (api.change_provision_state k n.uuid target config.sshkey)

  abbrev Around : IronicState K W → Type 0
  Around s = Inv s.outside

  abbrev api_call : {A : Type 0} (m : Exec W A) → Keeps Inv m → Kept Around A
  api_call m h = step (outside api config m) (λ s i. h s.outside i)

  module _ (asks : QuestionsKeep) where
    boot_files-Keeps : (k r : Option Value) → Keeps Inv (boot_files api config k r)
    boot_files-Keeps (some k) (some r) = λ w i. ground arith
    boot_files-Keeps none r = λ w i. i
    boot_files-Keeps (some k) none = λ w i. i

    not_nil-Keeps : (o : Option K) → Keeps Inv (not_nil api config o)
    not_nil-Keeps none = λ w i. i
    not_nil-Keeps (some k) = λ w i. i

    abbrev kept_not_nil : Option K → Kept Inv K
    kept_not_nil o = step (not_nil api config o) (not_nil-Keeps o)

    abbrev kept_image_info : Kept Inv Info
    kept_image_info = do
      image ← step (wrapping "Error getting image info" [] (api.get_image config)) asks.get_image
      files ←
          step (boot_files api config image.kernel_id image.ramdisk_id)
            (boot_files-Keeps image.kernel_id image.ramdisk_id)
      idle (("image_source", text image.id) ∷ files)

    new_client-Keeps : Keeps Inv (new_client api config)
    unfolding new_client
    new_client-Keeps =
        (branch (str_eq config.cloud_yaml "")
          (do
            k ← step (api.basic_client config) asks.basic_client
            client ← kept_not_nil k
            idle (client, url_info config))
          (do
            k ←
                step (api.cloud_client config (cache_key config))
                  (asks.cloud_client (cache_key config))
            info ←
                branch (contains_text config.image "://") (idle (url_info config)) kept_image_info
            client ← kept_not_nil k
            idle (client, info))).keeps

    cached-Keeps : (o : Option (K × Info)) → Keeps Around (cached api config o)
    cached-Keeps (some c) = λ s i. i
    cached-Keeps none =
        (do
          c ← api_call (new_client api config) new_client-Keeps
          step (modify (set_cache api config (some c))) (λ s i. i)
          step (modify (select_client api config c)) (λ s i. i)).keeps

    update_client-Keeps : (b : Bool) → Keeps Around (update_client api config b)
    unfolding update_client
    update_client-Keeps b =
        (do
          branch b (step (modify (set_cache api config none)) (λ s i. i)) (idle tt)
          c ← step (gets (λ s. s.cache (cache_key config))) (λ s i. i)
          step (cached api config c) (cached-Keeps c)).keeps

    abbrev kept_login : Kept Around (Unit {0})
    kept_login =
        attempt (step (update_client api config true) (update_client-Keeps true)) (λ d. idle tt)

    retried-Keeps :
        {A : Type 0} (call : K → Exec W A)
        → ((k : K) → Keeps Inv (call k))
        → Keeps Around (retried api config call)
    retried-Keeps call h =
        let m =
          step (λ (s : IronicState K W). outside api config (call s.client) s)
            (λ s i. h s.client s.outside i) in
        (attempt m
          (λ e. branch (mentions "Authentication failed" e) (kept_login >> m) (failed e))).keeps

    module _ (pool_type : String) (keeps : DeploymentKeeps pool_type) where
      deploy_with-Keeps :
          (n : Node) (x : Extra)
          → Listed n
          → is_suitable api pool_type n ≡ true
          → n.extra ≡ x
          → Keeps Around (deploy_with api config n x)
      unfolding update_node change_provision_state_node
      deploy_with-Keeps n none l p e = λ s i. i
      deploy_with-Keeps n (some m) l p e =
          (do
            step
                (modify
                  (λ s. record s { instance_info = write "root_gb" (text "64") s.instance_info }))
                (λ s i. i)
            info ← step (gets (λ s. s.instance_info)) (λ s i. i)
            attempt
                (step
                  (update_node api config n.uuid
                    (("/extra", write cir_name (text cir_taken) m) ∷ ("/instance_info", info) ∷ []))
                  (retried-Keeps
                    (λ k. api.replace k n.uuid (
                      ("/extra", write cir_name (text cir_taken) m)
                      ∷ ("/instance_info", info)
                      ∷ []))
                    (λ k. keeps.mark k n m info l p e)))
                (λ d. idle tt)
            step
                (change_provision_state_node api config n.uuid
                  (target_of api config n.provision_state) config.sshkey)
                (retried-Keeps
                  (λ k.
                    api.change_provision_state k n.uuid (target_of api config n.provision_state)
                      config.sshkey)
                  (λ k. keeps.deploy k n (target_of api config n.provision_state) l p))).keeps

      deploy_node-Keeps :
          (n : Node)
          → Listed n
          → is_suitable api pool_type n ≡ true
          → Keeps Around (deploy_node api config n)
      unfolding deploy_node
      deploy_node-Keeps n l p = deploy_with-Keeps n n.extra l p refl

      pick-Keeps :
          (ns : List Node)
          → ((n : Node) → Memᴰ n ns → Listed n)
          → Keeps Around (pick api config pool_type ns)
      unfolding pick
      pick-Keeps [] l s i = i
      pick-Keeps (n ∷ ns) l s i = elim (Bool-cases (is_suitable api pool_type n)) [
        | inl p ↦
            let chosen =
              (do
                step (wrapping "error deploying node" [] (deploy_node api config n))
                    (deploy_node-Keeps n (l n (Memᴰ.head refl)) p)
                idle (some n)).keeps in
            rw p (chosen s i)
        | inr p ↦ rw p (pick-Keeps ns (λ x m. l x (Memᴰ.tail m)) s i)
      ]

      or_next-Keeps :
          (rest : Exec (IronicState K W) (Option Node)) (o : Option Node)
          → Keeps Around rest
          → Keeps Around (or_next api config rest o)
      or_next-Keeps rest (some n) h = λ s i. i
      or_next-Keeps rest none h = h

      page_nodes-ok :
          (r : Outcome (List Node)) (s : IronicState K W) (ns : List Node)
          → (page_nodes api config r s).0 ≡ ok ns
          → r ≡ ok ns
      page_nodes-ok (ok ms) s ns e = e
      page_nodes-ok (err d) s ns e = absurd (ground arith)
      page_nodes-ok panic s ns e = absurd (ground arith)

      each_page-Keeps :
          (k : K) (pages : List (Exec W (Outcome (List Node))))
          → All (Keeps Inv) pages
          → ((page : Exec W (Outcome (List Node))) → Memᴰ page pages → Memᴰ page (api.pages k))
          → Keeps Around (each_page api config pool_type pages)
      unfolding each_page
      each_page-Keeps k [] h l = λ s i. i
      each_page-Keeps k (page ∷ pages) h l = λ s i.
          bind-Keeps_at Around (outside api config page) _ s (h.0 s.outside i) (λ r answered.
            bind-Keeps_at Around (page_nodes api config r) _ (outside api config page s).1
              (h.0 s.outside i)
              (λ ns are.
                let listed : (n : Node) → Memᴰ n ns → Listed n = λ n m. record {
                  k = k;
                  page = page;
                  before = s.outside;
                  nodes = ns;
                  is_page = l page (Memᴰ.head refl);
                  answered =
                      answered ∙ ap ok (page_nodes-ok r (outside api config page s).1 ns are);
                  is_node = m;
                } in
                let rest = each_page-Keeps k pages h.1 (λ x m. l x (Memᴰ.tail m)) in
                (do
                  o ← step (pick api config pool_type ns) (pick-Keeps ns listed)
                  step (or_next api config (each_page api config pool_type pages) o)
                      (or_next-Keeps (each_page api config pool_type pages) o rest)).keeps
                  (outside api config page s).1 (h.0 s.outside i)))

      selected-Keeps : (o : Option Node) → Keeps Around (selected api config o)
      selected-Keeps (some n) = λ s i. i
      selected-Keeps none = λ s i. i

      abbrev kept_relogin : Error → Kept Around (Unit {0})
      kept_relogin e = branch (mentions "Authentication failed" e) kept_login (idle tt)

      select_node-Keeps : Keeps Around (select_node api config pool_type)
      unfolding select_node
      select_node-Keeps s i =
          (do
            o ←
                attempt
                  (step (each_page api config pool_type (api.pages s.client)) (
                    each_page-Keeps s.client (api.pages s.client) (asks.pages s.client)
                      (λ page m. m)))
                  (λ e. do kept_relogin e; failed (wrapf "error listing nodes" [] e))
            step (selected api config o) (selected-Keeps o)).keeps
            s i

      -- An acquisition, however it ends, keeps every property of Ironic that neither logins and
      -- lists of nodes, nor the marking and the deployment of a node that Ironic listed, that has the
      -- requested type, is active or available, and is not marked yet, can break: it writes to no
      -- other node.
      pub acquire-Keeps :
          (s : IronicState K W) → Inv s.outside → Inv (acquire api config pool_type s).1.outside
      unfolding acquire
      acquire-Keeps s i =
          (do
            n ←
                step (wrapping "error selecting node" [] (select_node api config pool_type))
                  select_node-Keeps
            idle (resource_at n.uuid "")).keeps
            s i
