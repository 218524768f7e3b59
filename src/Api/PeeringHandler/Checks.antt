-- ===== src/Api/PeeringHandler/Checks.antt =====
-- internal/api/peering_handler.go: what the handlers that change a peering check and compute.
use vpc_routing.Prelude.{
  Bool, false, Option, none, some, String, ◌==◌, nat_eq, string_eq, Result, ok, err, ◌>>=◌, ◌>>◌,
  guard, value,
}
use vpc_routing.Model.Netip.{Prefix}
use vpc_routing.Model.Entities.{
  Uuid, nil_uuid, Vpc, Peering, pending_acceptance, state_eq, AppError, err_permission_denied,
  err_invalid_state,
}
use vpc_routing.Store.Vpcs
use vpc_routing.Store.Peerings
use vpc_routing.Store.Peerings.{PeeringStore}
use vpc_routing.Auth.Access.{account_from_context, require_peering_access}
use vpc_routing.Api.Db.{Db, Env}
use vpc_routing.Api.PeeringHandler.Requests.{RoutePolicyRequest, parse_route_policy, to_direction}

abbrev pub account_or_nil : Option Vpc → Uuid
account_or_nil none = nil_uuid
account_or_nil (some vpc) = vpc.account_id

unfoldable pub require_peering_auth : Env → Db → Peering → Result AppError (Unit {0})
require_peering_auth env db peering =
    require_peering_access env.ctx
      (account_or_nil (value (Vpcs.get db.vpcs peering.requester_vpc_id)))
      (account_or_nil (value (Vpcs.get db.vpcs peering.accepter_vpc_id)))

-- `vpc == nil || vpc.AccountID != accountID`, negated.
abbrev pub is_owner : Option Vpc → Uuid → Bool
is_owner none account_id = false
is_owner (some vpc) account_id = vpc.account_id == account_id

abbrev pub redirected : Option String → Peering → Peering
redirected none p = p
redirected (some s) p = record p { direction = to_direction s }

abbrev pub with_policy :
    (String → Option Prefix) → Option RoutePolicyRequest → Peering → Result AppError Peering
with_policy parse none p = ok p
with_policy parse (some req) p = do
  policy ← parse_route_policy parse (some req)
  ok (record p { route_policy = policy })

-- The pending peering that the caller may accept or reject.
unfoldable pub pending_for : Env → Uuid → Db → Result AppError Peering
pending_for env peering_id db = do
  account_id ← account_from_context env.ctx
  peering ← Peerings.get db.peerings peering_id
  guard (peering.state == pending_acceptance) err_invalid_state
  guard (is_owner (value (Vpcs.get db.vpcs peering.accepter_vpc_id)) account_id)
      err_permission_denied
  ok peering

-- The store after a call of `Update` whose result is dropped.
abbrev pub or_unchanged : PeeringStore → Result AppError PeeringStore → PeeringStore
or_unchanged s (ok s') = s'
or_unchanged s (err e) = s
