-- ===== src/Kube.antt =====
-- The Kubernetes client of the two controllers, a library's: what the code calls of it, on a
-- cluster `C`. The world of a reconciliation is a cluster and what the providers reach.
use ofcir.Prelude.{String, Bool, List, Exec, Error}
use ofcir.Api.{Time, CiResource, CiPool}
use ofcir.Provider.{SecretData, Factories}
use ofcir.Fsm.Machine.{ControllerUtil}

-- An update returns the object that the server answers with. `delete_all_cirs ns label` deletes
-- the resources of a namespace whose label has the value "true".
pub record Client (C : Type 0) : Type 0 where
  pub get_cir : String → String → Exec C CiResource
  pub get_pool : String → String → Exec C CiPool
  pub get_secret : String → String → Exec C SecretData
  pub list_cirs : String → Exec C (List CiResource)
  pub create_cir : CiResource → Exec C (Unit {0})
  pub update_cir : CiResource → Exec C CiResource
  pub update_cir_status : CiResource → Exec C CiResource
  pub update_pool : CiPool → Exec C CiPool
  pub update_pool_status : CiPool → Exec C CiPool
  pub delete_all_cirs : String → String → Exec C (Unit {0})
  -- `errors.IsNotFound` of apimachinery
  pub is_not_found : Error → Bool
  -- `metav1.Now()`
  pub clock : C → Time

pub record World (C P : Type 0) : Type 0 where
  pub cluster : C
  pub outside : P

pub record Env (C P : Type 0) : Type 0 where
  pub client : Client C
  pub factories : Factories P
  pub util : ControllerUtil

abbrev pub on_cluster : {C P A : Type 0} → Exec C A → Exec (World C P) A
on_cluster m s = let (r, c) = m s.cluster in (r, record s { cluster = c })
