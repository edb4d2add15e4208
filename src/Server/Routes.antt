-- ===== src/Server/Routes.antt =====
-- pkg/server/server.go: the routes, and the handlers behind `AuthRequired`.
use ofcir.Prelude.{String, List, Option, none, some, Exec, Error, pure, ◌>>=◌, catch}
use ofcir.Api.{CiResource, type_ci_host}
use ofcir.Server.{msg_of, Response, status_internal_server_error}
use ofcir.Server.Clientset.{Rest}
use ofcir.Server.Access.{Access, granted, denied, auth_required}
use ofcir.Server.Acquire.{acquire, resource_types}
use ofcir.Server.Lookup.{release, status}

-- The routes of the group /v1: GET and DELETE with a resource's name, POST with the query `type`.
pub data Route : Type 0 where
  get_cir_status : String → Route
  acquire_cir : Option String → Route
  release_cir : String → Route

-- `c.DefaultQuery("type", TypeCIHost)`
abbrev pub type_query : Option String → String
type_query none = type_ci_host
type_query (some q) = q

abbrev pub internal_error : Error → Response
internal_error e = record { status = status_internal_server_error; body = msg_of e }

-- The server's part of `OfcirAPI`, with the order that `rand.Shuffle` gives.
pub record OfcirApi (C : Type 0) : Type 0 where
  pub rest : Rest C
  pub namespace : String
  pub shuffle : List CiResource → List CiResource

module _ {C : Type 0} (api : OfcirApi C) where
  -- the command of a handler
  unfoldable pub run_command : Route → Option String → Exec C Response
  run_command (get_cir_status name) validpools = status api.rest api.namespace validpools name
  run_command (acquire_cir query) validpools =
      acquire api.rest api.shuffle api.namespace validpools (resource_types (type_query query))
  run_command (release_cir name) validpools = release api.rest api.namespace validpools name

  -- `handleGetCirStatus`, `handleAcquireCir`, `handleReleaseCir`
  unfoldable pub handle_route : Route → Option String → Exec C Response
  unfolding run_command
  handle_route route validpools =
      catch (run_command route validpools) (λ e. pure (internal_error e))

  abbrev pub behind : Route → Access → Exec C Response
  behind route (denied answer) = pure answer
  behind route (granted pools) = handle_route route (some pools)

  -- a request, with the values of its header `X-Ofcirtoken`
  unfoldable pub serve : List String → Route → Exec C Response
  unfolding auth_required
  serve header route = do access ← auth_required api.rest header; behind route access
