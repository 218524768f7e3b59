-- ===== src/Api/Serve.antt =====
-- internal/api/router.go behind internal/auth/middleware.go: one HTTP request from the headers to the
-- response, as cmd/api/main.go chains them. A decoder gives the JSON body, if it decodes.
pub mod Effects
use vpc_routing.Prelude.{
  ℕ, Bool, true, false, Option, none, some, String, List, map, length, Result, ok, err,
}
use vpc_routing.Model.Entities.{
  Uuid, Vpc, Peering, PeeringEvent, RouteEntry, AppError, err_unauthenticated, err_rate_limited,
  err_invalid_input,
}
use vpc_routing.Store.Page.{ListResult}
use vpc_routing.Auth.Access.{middleware}
use vpc_routing.Auth.RateLimit.{RateLib, RateLimiter, allow}
use vpc_routing.Api.Db.{Db, Externals, Env}
use vpc_routing.Api.VpcHandler.{CreateVpcRequest}
use vpc_routing.Api.VpcHandler
use vpc_routing.Api.PeeringHandler.{
  CreatePeeringRequest, UpdatePeeringRequest, OverrideRouteRequest,
}
use vpc_routing.Api.PeeringHandler
use vpc_routing.Api.Queries
use vpc_routing.Api.Render.{
  Texts, VpcResponse, vpc_to_response, PeeringResponse, peering_to_response, RouteEntryResponse,
  route_to_response, EventResponse, event_to_response, Body, text_body, no_body, Response,
  write_success, write_created, write_list, write_error, write_no_content,
}
use vpc_routing.Api.Router.{
  Method, Endpoint, create_vpc, list_vpcs, get_vpc, delete_vpc, effective_routes, create_peering,
  list_peerings, get_peering, update_peering, delete_peering, accept_peering, reject_peering,
  list_routes, override_route, list_events, Target, serves, Plain, answers, health, redirected,
  not_found, method_not_allowed, invalid_id, route, kind_of,
}

-- encoding/json, and the libraries of the handlers. `parse_id` is `uuid.Parse` on bytes.
pub record Libraries : Type 1 where
  pub externals : Externals
  pub texts : Texts
  pub parse_id : List ℕ → Option Uuid
  pub vpc_body : String → Option CreateVpcRequest
  pub peering_body : String → Option CreatePeeringRequest
  pub update_body : String → Option UpdatePeeringRequest
  pub override_body : String → Option OverrideRouteRequest
  pub rate : RateLib

-- A query parameter that is absent is empty.
pub record Request : Type 0 where
  pub method : Method
  pub path : List ℕ
  pub authorization : List ℕ
  pub region_id : String
  pub vpc_id : String
  pub state : String
  pub body : String

pub data Value : Type 0 where
  vpc_value : VpcResponse → Value
  peering_value : PeeringResponse → Value
  route_value : RouteEntryResponse → Value
  event_value : EventResponse → Value
  status_value : String → Value

-- The handler's error is written, or its answer.
abbrev pub answered {ℓ} :
    {A : Type ℓ} → (A → Response Value) → Db × Result AppError A → Db × Response Value
answered f (db, ok a) = (db, f a)
answered f (db, err e) = (db, write_error e)

-- No store gives a token for a next page.
abbrev pub write_page : {A : Type 0} → (A → Value) → ListResult A → Response Value
write_page f r = write_list (map f r.items) r.total_count

abbrev pub write_routes : Texts → List RouteEntry → Response Value
write_routes t rs = write_list (map (λ re. route_value (route_to_response t re)) rs) (length rs)

module _ (lib : Libraries) where
  open lib use {externals, texts}

  abbrev vpc_of : Vpc → Value
  vpc_of v = vpc_value (vpc_to_response texts v)

  abbrev peering_of : Peering → Value
  peering_of p = peering_value (peering_to_response texts p)

  abbrev event_of : PeeringEvent → Value
  event_of e = event_value (event_to_response texts e)

  -- The handler that an endpoint names, on a request of the account in `env`.
  unfoldable pub handle : Endpoint → Request → Env → Db → Db × Response Value
  handle create_vpc req env db =
      answered (λ v. write_created (vpc_of v))
        (VpcHandler.create externals env (lib.vpc_body req.body) db)
  handle list_vpcs req env db =
      answered (write_page vpc_of) (db, VpcHandler.list env req.region_id db)
  handle (get_vpc id) req env db =
      answered (λ v. write_success (vpc_of v)) (db, VpcHandler.get env id db)
  handle (delete_vpc id) req env db = answered (λ _. write_no_content) (VpcHandler.delete env id db)
  handle (effective_routes id) req env db =
      answered (write_routes texts) (db, Queries.get_effective_routes env id db)
  handle create_peering req env db =
      answered (λ p. write_created (peering_of p))
        (PeeringHandler.create externals env (lib.peering_body req.body) db)
  handle list_peerings req env db =
      answered (write_page peering_of)
        (db, Queries.list externals.parse_uuid env req.vpc_id req.state db)
  handle (get_peering id) req env db =
      answered (λ p. write_success (peering_of p)) (db, Queries.get env id db)
  handle (update_peering id) req env db =
      answered (λ p. write_success (peering_of p))
        (PeeringHandler.update externals env (lib.update_body req.body) id db)
  handle (delete_peering id) req env db =
      answered (λ _. write_no_content) (PeeringHandler.delete env id db)
  handle (accept_peering id) req env db =
      answered (λ p. write_success (peering_of p)) (PeeringHandler.accept env id db)
  handle (reject_peering id) req env db =
      answered (λ p. write_success (peering_of p)) (PeeringHandler.reject env id db)
  handle (list_routes id) req env db =
      answered (write_routes texts) (db, Queries.list_routes env id db)
  handle (override_route id) req env db =
      answered (λ _. write_success (status_value "ok"))
        (PeeringHandler.override_route externals env (lib.override_body req.body) id db)
  handle (list_events id) req env db =
      answered (write_page event_of) (db, Queries.list_events id db)

  -- The stores and the rate limiter of one router.
  pub record Server : Type 0 where
    pub db : Db
    pub limiter : RateLimiter lib.rate

  abbrev pub if_allowed :
      Endpoint → Request → Env → Db → RateLimiter lib.rate × Bool → Server × Response Value
  if_allowed e req env db (rl, false) =
      (record { db = db; limiter = rl }, write_error err_rate_limited)
  if_allowed e req env db (rl, true) =
      let (db', r) = handle e req env db in (record { db = db'; limiter = rl }, r)

  -- `rateLimitMutate` and `rateLimitRead`: the account's bucket of the endpoint's kind is asked first.
  abbrev pub limited : Endpoint → Request → Env → Option Uuid → Server → Server × Response Value
  limited e req env none srv = (srv, write_error err_unauthenticated)
  limited e req env (some id) srv =
      if_allowed e req (record env { ctx = some id }) srv.db
        (allow lib.rate (kind_of e) env.now id srv.limiter)

  -- The body of the redirect is left out.
  abbrev pub plain : Plain → Response Value
  plain health = record { status = 200; body = text_body "{\"status\":\"ok\"}" }
  plain redirected = record { status = 301; body = no_body }
  plain not_found = record { status = 404; body = text_body "404 page not found" }
  plain method_not_allowed = record { status = 405; body = text_body "method not allowed" }
  plain invalid_id = write_error err_invalid_input

  abbrev pub respond : Target → Request → Env → Option Uuid → Server → Server × Response Value
  respond (serves e) req env ctx srv = limited e req env ctx srv
  respond (answers a) req env ctx srv = (srv, plain a)

  -- The middleware's refusal is the text of a JSON error of that code.
  abbrev pub authenticated :
      Request → Env → Server → Result AppError (Option Uuid) → Server × Response Value
  authenticated req env srv (err e) = (srv, write_error e)
  authenticated req env srv (ok ctx) =
      respond (route lib.parse_id req.method req.path) req env ctx srv

  unfoldable pub serve : Request → Env → Server → Server × Response Value
  unfolding middleware route handle allow
  serve req env srv = authenticated req env srv (middleware lib.parse_id req.path req.authorization)
