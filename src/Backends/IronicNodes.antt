-- ===== src/Backends/IronicNodes.antt =====
-- pkg/providers/ironic.go: the calls that log in again, `deployNode` and `selectNode`.
use ofcir.Prelude.{
  String, str_eq, Bool, true, false, ◌&&◌, ◌||◌, List, [], ◌∷◌, Option, none, some, Exec, Error,
  errorf, wrapf, Outcome, ok, pure, raise, crash, gets, modify, catch, wrapping, wrap_outcome,
  ◌>>=◌, ◌>>◌, if◌then◌else◌,
}
use ofcir.Backends.Ironic.{
  Value, null, text, json, Extra, read, write, Node, IronicProviderConfig, IronicApi, IronicState,
  mentions, outside, update_client,
}

abbrev pub type_name : String
type_name = "ofcir_type"

abbrev pub cir_name : String
cir_name = "ofcir_cir"

abbrev pub cir_taken : String
cir_taken = "taken"

-- `== s` on an interface value
abbrev pub is_text : String → Option Value → Bool
is_text s (some (text t)) = str_eq t s
is_text s _ = false

-- `== nil || == ""`
abbrev pub is_unset : Option Value → Bool
is_unset none = true
is_unset (some null) = true
is_unset (some (text t)) = str_eq t ""
is_unset (some (json s)) = false

-- the two tests of `selectNode`
unfoldable pub is_suitable : {K W : Type 0} → IronicApi K W → String → Node → Bool
is_suitable api pool_type n =
    (str_eq n.provision_state api.active || str_eq n.provision_state api.available)
    && is_text pool_type (read type_name n.extra)
    && is_unset (read cir_name n.extra)

module _ {K W : Type 0} (api : IronicApi K W) (config : IronicProviderConfig) where
  -- on an error of a token that has run out: log in again, whether or not it succeeds
  abbrev pub relogin : Error → Exec (IronicState K W) (Unit {0})
  relogin e =
      if mentions "Authentication failed" e
      then catch (update_client api config true) (λ d. pure tt)
      else pure tt

  abbrev pub again : {A : Type 0} → Exec (IronicState K W) A → Error → Exec (IronicState K W) A
  again m e =
      if mentions "Authentication failed" e
      then catch (update_client api config true) (λ d. pure tt) >> m
      else raise e

  -- a call with the current client, and once more after a new login
  abbrev pub retried : {A : Type 0} → (K → Exec W A) → Exec (IronicState K W) A
  retried call =
      let m = λ (s : IronicState K W). outside api config (call s.client) s in catch m (again m)

  -- `GetNode`
  unfoldable pub get_node : String → Exec (IronicState K W) Node
  get_node id = retried (λ k. api.get k id)

  -- `UpdateNode`
  unfoldable pub update_node :
      String → List (String × List (String × Value)) → Exec (IronicState K W) (Unit {0})
  update_node id ops = retried (λ k. api.replace k id ops)

  -- `ChangeProvisionStateNode`
  unfoldable pub change_provision_state_node :
      String → String → String → Exec (IronicState K W) (Unit {0})
  change_provision_state_node id target key =
      retried (λ k. api.change_provision_state k id target key)

  abbrev pub target_of : String → String
  target_of s =
      if str_eq s api.active
      then "rebuild"
      else if str_eq s api.deploy_fail
      then "rebuild"
      else api.target_active

  -- the writes of `deployNode`, where the node has a map; an error of the first one is dropped
  abbrev pub deploy_with : Node → Extra → Exec (IronicState K W) (Unit {0})
  deploy_with n none = crash
  deploy_with n (some m) = do
    modify (λ s. record s { instance_info = write "root_gb" (text "64") s.instance_info })
    info ← gets (λ s. s.instance_info)
    catch
        (update_node n.uuid
          (("/extra", write cir_name (text cir_taken) m) ∷ ("/instance_info", info) ∷ []))
        (λ e. pure tt)
    change_provision_state_node n.uuid (target_of n.provision_state) config.sshkey

  -- `deployNode`
  unfoldable pub deploy_node : Node → Exec (IronicState K W) (Unit {0})
  unfolding update_node change_provision_state_node
  deploy_node n = deploy_with n n.extra

  -- the loop over the nodes of a page
  unfoldable pub pick : String → List Node → Exec (IronicState K W) (Option Node)
  unfolding is_suitable
  pick pool_type [] s = (ok none, s)
  pick pool_type (n ∷ ns) s =
      let rest = pick pool_type ns s in
      let chosen = (wrapping "error deploying node" [] (deploy_node n) >> pure (some n)) s in
      if is_suitable api pool_type n then chosen else rest

  abbrev pub page_nodes : Outcome (List Node) → Exec (IronicState K W) (List Node)
  page_nodes r s = (wrap_outcome "error extracting nodes" [] r, s)

  abbrev pub or_next :
      Exec (IronicState K W) (Option Node) → Option Node → Exec (IronicState K W) (Option Node)
  or_next rest (some n) = pure (some n)
  or_next rest none = rest

  -- `EachPage`: the pages up to the one with the chosen node
  unfoldable pub each_page :
      String → List (Exec W (Outcome (List Node))) → Exec (IronicState K W) (Option Node)
  each_page pool_type [] = pure none
  each_page pool_type (page ∷ pages) = do
    r ← outside api config page
    ns ← page_nodes r
    o ← pick pool_type ns
    or_next (each_page pool_type pages) o

  abbrev pub selected : Option Node → Exec (IronicState K W) Node
  selected (some n) = pure n
  selected none = raise (errorf "Couldn't find a suitable ironic node" [])

  abbrev pub listing_failed : Error → Exec (IronicState K W) (Option Node)
  listing_failed e = relogin e >> raise (wrapf "error listing nodes" [] e)

  -- `selectNode`
  unfoldable pub select_node : String → Exec (IronicState K W) Node
  select_node pool_type = do
    pages ← gets (λ s. api.pages s.client)
    o ← catch (each_page pool_type pages) listing_failed
    selected o
