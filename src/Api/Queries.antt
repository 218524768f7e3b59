-- ===== src/Api/Queries.antt =====
-- internal/api/peering_handler.go, the handlers that only read. They answer with what the response
-- renders; `Render` turns it into the response's texts.
use vpc_routing.Prelude.{
  ℕ, ◌+◌, Option, none, some, String, List, [], ◌∷◌, ◌++◌, if◌then◌else◌, ◌==◌, nat_eq, string_eq,
  length, Result, ok, err, ◌>>=◌, ◌>>◌, pos,
}
use vpc_routing.Model.Policy.{RoutePolicy, PolicyDecision, accept, deny, filtered, evaluate_prefix}
use vpc_routing.Model.Entities.{
  Uuid, Peering, PeeringState, pending_acceptance, provisioning, degraded, failed, rejected,
  expired, state_eq, PeeringEvent, RouteEntry, RouteState, AppError, err_invalid_input,
}
use vpc_routing.Store.Page.{ListParams, ListResult, page_of}
use vpc_routing.Store.Vpcs
use vpc_routing.Store.Peerings
use vpc_routing.Store.Events
use vpc_routing.Store.Routes
use vpc_routing.Auth.Access.{account_from_context, require_vpc_owner}
use vpc_routing.Api.Db.{Db, Env, or_fail}
use vpc_routing.Api.PeeringHandler.{require_peering_auth}

unfoldable pub get : Env → Uuid → Db → Result AppError Peering
get env peering_id db = do
  peering ← Peerings.get db.peerings peering_id
  require_peering_auth env db peering
  ok (record peering { route_count = length (Routes.list_by_peering db.routes peering_id) })

-- `model.PeeringState(s)`, where it is one of the states.
unfoldable pub to_state : String → Option PeeringState
to_state s =
    if s == "pending_acceptance"
    then some pending_acceptance
    else if s == "provisioning"
    then some provisioning
    else if s == "active"
    then some PeeringState.active
    else if s == "degraded"
    then some degraded
    else if s == "deleting"
    then some PeeringState.deleting
    else if s == "failed"
    then some failed
    else if s == "rejected"
    then some rejected
    else if s == "expired"
    then some expired
    else if s == "deleted"
    then some PeeringState.deleted
    else none

abbrev pub first_fifty : ListParams
first_fifty = record { page_size = pos 50; page_token = "" }

-- The query's `vpc_id`; it is empty where there is none.
abbrev pub queried_vpc : (String → Option Uuid) → String → Result AppError (Option Uuid)
queried_vpc parse s =
    if s == "" then ok none else (do id ← or_fail (parse s) err_invalid_input; ok (some id))

-- No peering is in a state that is none of the nine.
abbrev pub in_named_state :
    Db → Uuid → Option Uuid → Option PeeringState → Result AppError (ListResult Peering)
in_named_state db account_id vpc_id none = ok (page_of (λ p. p.created_at) [] first_fifty)
in_named_state db account_id vpc_id (some t) =
    Peerings.list db.peerings account_id vpc_id (some t) first_fifty

abbrev pub in_queried_state :
    Db → Uuid → Option Uuid → String → Result AppError (ListResult Peering)
in_queried_state db account_id vpc_id s =
    if s == ""
    then Peerings.list db.peerings account_id vpc_id none first_fifty
    else in_named_state db account_id vpc_id (to_state s)

-- `vpc_id` and `state` are the query's parameters.
unfoldable pub list :
    (String → Option Uuid)
    → Env
    → (vpc_id state : String) → Db
    → Result AppError (ListResult Peering)
unfolding to_state
list parse env vpc_id state db = do
  account_id ← account_from_context env.ctx
  vpc ← queried_vpc parse vpc_id
  in_queried_state db account_id vpc state

unfoldable pub list_routes : Env → Uuid → Db → Result AppError (List RouteEntry)
list_routes env peering_id db = do
  peering ← Peerings.get db.peerings peering_id
  require_peering_auth env db peering
  ok (Routes.list_by_peering db.routes peering_id)

unfoldable pub list_events : Uuid → Db → Result AppError (ListResult PeeringEvent)
list_events peering_id db = Events.list db.events peering_id first_fifty

-- The loop over the routes of one peering: how many the policy has accepted, and what is shown.
abbrev pub shown : RouteEntry → ℕ × List RouteEntry → PolicyDecision → ℕ × List RouteEntry
shown re (n, out) deny = (n, out)
shown re (n, out) filtered = (n, out ++ record re { state = RouteState.filtered } ∷ [])
shown re (n, out) accept = (n + 1, out ++ re ∷ [])

unfoldable pub show_routes :
    RoutePolicy → List RouteEntry → ℕ × List RouteEntry → ℕ × List RouteEntry
show_routes policy [] w = w
show_routes policy (re ∷ res) w =
    show_routes policy res (shown re w (evaluate_prefix policy re.prefix w.0).0)

unfoldable pub show_peering : Db → Peering → List RouteEntry → List RouteEntry
show_peering db p out =
    if p.state == PeeringState.active
    then (show_routes p.route_policy (Routes.list_by_peering db.routes p.id) (0, out)).1
    else out

unfoldable pub show_peerings : Db → List Peering → List RouteEntry → List RouteEntry
show_peerings db [] out = out
show_peerings db (p ∷ ps) out = show_peerings db ps (show_peering db p out)

abbrev pub items_of : Result AppError (ListResult Peering) → List Peering
items_of (ok r) = r.items
items_of (err e) = []

unfoldable pub get_effective_routes : Env → Uuid → Db → Result AppError (List RouteEntry)
get_effective_routes env vpc_id db = do
  vpc ← Vpcs.get db.vpcs vpc_id
  require_vpc_owner env.ctx vpc
  ok (
      show_peerings db
        (items_of (
          Peerings.list db.peerings vpc.account_id (some vpc_id) none
            (record { page_size = pos 200; page_token = "" })))
        [])
