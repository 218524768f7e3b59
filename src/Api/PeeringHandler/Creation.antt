-- ===== src/Api/PeeringHandler/Creation.antt =====
-- `Create` of internal/api/peering_handler.go, up to its first write.
use vpc_routing.Prelude.{
  ℕ, not, Option, none, if◌then◌else◌, ltb, ◌==◌, ◌!=◌, nat_eq, string_eq, Result, ok, ◌>>=◌, ◌>>◌,
  guard,
}
use vpc_routing.Model.Cidr.{cidrs_overlap}
use vpc_routing.Model.Policy.{RoutePolicy}
use vpc_routing.Model.Entities.{
  Uuid, Vpc, Peering, PeeringDirection, pending_acceptance, provisioning, state_eq, AppError,
  err_invalid_input, err_permission_denied, err_cidr_overlap, err_duplicate_peering,
  err_quota_exceeded,
}
use vpc_routing.Store.Vpcs
use vpc_routing.Store.Peerings
use vpc_routing.Store.Peerings.{PeeringStore}
use vpc_routing.Auth.Access.{account_from_context}
use vpc_routing.Api.Db.{Db, Externals, Env, or_fail, is_none}
use vpc_routing.Api.PeeringHandler.Requests.{
  CreatePeeringRequest, chosen_direction, parse_route_policy,
}

abbrev pub default_max_peerings : ℕ
default_max_peerings = 125

-- The checks of `Create` that read the peerings: no live peering of the pair, and room on both sides.
unfoldable pub admits : PeeringStore → Uuid → Uuid → Result AppError (Unit {0})
admits s requester accepter = do
  existing ← Peerings.find_by_vpcs s requester accepter
  guard (is_none existing) err_duplicate_peering
  req_count ← Peerings.count_by_vpc s requester
  guard (ltb req_count default_max_peerings) err_quota_exceeded
  acc_count ← Peerings.count_by_vpc s accepter
  guard (ltb acc_count default_max_peerings) err_quota_exceeded

abbrev pub new_peering :
    Env → Uuid → Vpc → Vpc → PeeringDirection → RoutePolicy → Uuid → Uuid → Peering
new_peering env account_id requester accepter direction policy requester_id accepter_id = record {
  id = env.new_id;
  account_id = account_id;
  requester_vpc_id = requester_id;
  accepter_vpc_id = accepter_id;
  direction = direction;
  state = if requester.account_id == accepter.account_id then provisioning else pending_acceptance;
  cross_region = requester.region_id != accepter.region_id;
  route_policy = policy;
  route_count = 0;
  created_at = env.now;
  provisioned_at = none;
  deleted_at = none;
}

-- The caller, the decoded body, and the two VPCs that it names.
unfoldable pub endpoints :
    Externals
    → Env
    → Option CreatePeeringRequest
    → Result AppError (Uuid × CreatePeeringRequest × Uuid × Uuid)
endpoints x env body = do
  account_id ← account_from_context env.ctx
  req ← or_fail body err_invalid_input
  requester_id ← or_fail (x.parse_uuid req.requester_vpc_id) err_invalid_input
  accepter_id ← or_fail (x.parse_uuid req.accepter_vpc_id) err_invalid_input
  guard (requester_id != accepter_id) err_invalid_input
  ok (account_id, req, requester_id, accepter_id)

-- The two VPCs: the requester is the caller's, and their blocks do not overlap.
unfoldable pub peers : Db → Uuid → Uuid → Uuid → Result AppError (Vpc × Vpc)
peers db account_id requester_id accepter_id = do
  requester ← Vpcs.get db.vpcs requester_id
  guard (requester.account_id == account_id) err_permission_denied
  accepter ← Vpcs.get db.vpcs accepter_id
  guard (not (cidrs_overlap requester.cidr_blocks accepter.cidr_blocks)) err_cidr_overlap
  ok (requester, accepter)

abbrev pub with_endpoints :
    Externals → Env → Db → Uuid × CreatePeeringRequest × Uuid × Uuid → Result AppError Peering
with_endpoints x env db (account_id, req, requester_id, accepter_id) = do
  (requester, accepter) ← peers db account_id requester_id accepter_id
  admits db.peerings requester_id accepter_id
  direction ← chosen_direction req.direction
  policy ← parse_route_policy x.parse_prefix req.route_policy
  ok (new_peering env account_id requester accepter direction policy requester_id accepter_id)

-- The peering that `Create` stores.
unfoldable pub proposed :
    Externals → Env → Option CreatePeeringRequest → Db → Result AppError Peering
proposed x env body db = do named ← endpoints x env body; with_endpoints x env db named
