-- ===== src/Server/Clientset.antt =====
-- pkg/server/clientset/v1: the typed client of the API server, over the REST client of client-go.
use ofcir.Prelude.{String, Bool, List, Option, Exec, Error}
use ofcir.Api.{CiResource, CiPool}

-- What the server uses of client-go. The first two texts of a request are the namespace and the
-- resource's plural name. `expired` is `ctx.Err() != nil` of the request's overall context, and
-- `get_secret` reads the data of a secret.
pub record Rest (C : Type 0) : Type 0 where
  pub get_cipool_list : String → String → Exec C (List CiPool)
  pub get_cipool : String → String → String → Exec C CiPool
  pub get_cir_list : String → String → Exec C (List CiResource)
  pub get_cir : String → String → String → Exec C CiResource
  pub put_cir : String → String → String → CiResource → Exec C CiResource
  pub get_secret : String → String → Exec C (String → Option String)
  pub expired : Exec C Bool
  pub is_not_found : Error → Bool

abbrev resource_name : String
resource_name = "ciresources"

module _ {C : Type 0} (rest : Rest C) where
  -- `cipoolClient.List`
  unfoldable pub list_cipools : String → Exec C (List CiPool)
  list_cipools ns = rest.get_cipool_list ns "cipools"

  -- `cipoolClient.Get`
  unfoldable pub get_cipool : String → String → Exec C CiPool
  get_cipool ns name = rest.get_cipool ns "cipools" name

  -- `cirClient.List`
  unfoldable pub list_cirs : String → Exec C (List CiResource)
  list_cirs ns = rest.get_cir_list ns resource_name

  -- `cirClient.Get`
  unfoldable pub get_cir : String → String → Exec C CiResource
  get_cir ns name = rest.get_cir ns resource_name name

  -- `cirClient.Update`
  unfoldable pub update_cir : String → CiResource → Exec C CiResource
  update_cir ns cir = rest.put_cir ns resource_name cir.meta.name cir
