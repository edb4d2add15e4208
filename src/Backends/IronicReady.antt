-- ===== src/Backends/IronicReady.antt =====
-- pkg/providers/ironic.go: when a node counts as ready.
use ofcir.Prelude.{
  String, str_eq, Bool, true, false, not, ◌≡◌, pure, Exec, ok, if◌then◌else◌, [], wrapping,
}
use ofcir.Provider.{Resource, resource_at}
use ofcir.Backends.Ironic.{Node, read, IronicProviderConfig, IronicApi, IronicState}
use ofcir.Backends.IronicNodes.{get_node, deploy_node}
use ofcir.Backends.IronicProvider.{ssh_port, reachable, check_active}

module _ {K W : Type 0} (api : IronicApi K W) (config : IronicProviderConfig) (id : String) where
  -- what an answer that the node is ready rests on
  pub record Ready (s : IronicState K W) (r : Resource) : Type 0 where
    pub node : Node
    pub state_read : IronicState K W
    pub port : String
    pub state_dialled : IronicState K W
    pub got : get_node api config id s ≡ (ok node, state_read)
    pub is_active : str_eq node.provision_state api.active ≡ true
    pub state_asked : IronicState K W
    pub has_port : (ssh_port api config (read "ofcir_port_ssh" node.extra) state_asked).0 ≡ ok port
    pub is_open : (reachable api config r.address port state_dialled).0 ≡ ok true
    pub same_id : r.id ≡ id

  abbrev unless_active : Bool → Node → Exec (IronicState K W) (Bool × Resource)
  unless_active b n =
      if not b then pure (false, resource_at id "") else check_active api config id n

  abbrev redeploy : Node → Exec (IronicState K W) (Unit {0})
  redeploy n =
      if str_eq n.provision_state api.deploy_fail
      then wrapping "error deploying node" [] (deploy_node api config n)
      else pure tt

  abbrev checked : Node → Exec (IronicState K W) (Bool × Resource)
  checked n = unless_active (str_eq n.provision_state api.active) n
