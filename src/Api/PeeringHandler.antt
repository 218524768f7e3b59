-- ===== src/Api/PeeringHandler.antt =====
-- internal/api/peering_handler.go, the handlers that change a peering. `PeeringResponse` renders the
-- peering that the handler answers with.
mod Requests
mod Creation
mod Checks
unfoldable pub use Requests.*
unfoldable pub use Creation.*
unfoldable pub use Checks.*
use vpc_routing.Prelude.{
  ℕ, Bool, true, false, ◌||◌, not, Option, none, some, String, List, [], ◌∷◌, if◌then◌else◌, ltb,
  ◌==◌, ◌!=◌, nat_eq, string_eq, Result, ok, err, guard, value, ℤ, pos,
}
use vpc_routing.Model.Netip.{Prefix, invalid_addr}
use vpc_routing.Model.Cidr.{cidrs_overlap}
use vpc_routing.Model.Policy.{RoutePolicy, default_route_policy}
use vpc_routing.Model.Entities.{
  Uuid, nil_uuid, Vpc, Peering, PeeringState, PeeringDirection, bidirectional,
  requester_to_accepter, accepter_to_requester, other_direction, pending_acceptance, provisioning,
  rejected, state_eq, RouteEntry, RouteState, static, preference_for_origin, peering_created,
  peering_accepted, peering_deleted, policy_updated, route_added, route_withdrawn, AppError,
  err_invalid_input, err_invalid_cidr, err_permission_denied, err_cidr_overlap,
  err_duplicate_peering, err_quota_exceeded, err_invalid_state,
}
use vpc_routing.Store.Vpcs
use vpc_routing.Store.Peerings
use vpc_routing.Store.Peerings.{PeeringStore}
use vpc_routing.Store.Routes
use vpc_routing.Auth.Access.{account_from_context, require_peering_access}
use vpc_routing.Api.Db.{Db, Externals, Env, or_fail, is_none}
use vpc_routing.Api.Act.{
  Act, go_on, ◌>>=◌, ◌>>◌, pure, reads, check, modifies, set_peerings, dropping, emits,
}

-- After the checks of `Create`: the store, and the event.
unfoldable pub store_proposed : Env → Peering → Act Peering
store_proposed env peering = do
  set_peerings (λ s. Peerings.create s peering)
  emits env peering.id peering_created
  pure peering

unfoldable pub create : Externals → Env → Option CreatePeeringRequest → Act Peering
unfolding store_proposed
create x env body = do peering ← reads (proposed x env body); store_proposed env peering

unfoldable pub update : Externals → Env → Option UpdatePeeringRequest → Uuid → Act Peering
update x env body peering_id = do
  account_id ← check (account_from_context env.ctx)
  peering ← reads (λ db. Peerings.get db.peerings peering_id)
  reads λ db.
      guard (is_owner (value (Vpcs.get db.vpcs peering.requester_vpc_id)) account_id)
        err_permission_denied
  check (
      guard (peering.state == PeeringState.active || peering.state == provisioning)
        err_invalid_state)
  req ← check (or_fail body err_invalid_input)
  changed ← check (with_policy x.parse_prefix req.route_policy (redirected req.direction peering))
  set_peerings (λ s. Peerings.update s changed)
  emits env peering_id policy_updated
  pure changed

unfoldable pub delete : Env → Uuid → Act (Unit {0})
delete env peering_id = do
  peering ← reads (λ db. Peerings.get db.peerings peering_id)
  reads (λ db. require_peering_auth env db peering)
  set_peerings (λ s. Peerings.delete s peering_id env.now)
  emits env peering_id peering_deleted

unfoldable pub accept : Env → Uuid → Act Peering
accept env peering_id = do
  peering ← reads (pending_for env peering_id)
  let accepted = record peering { state = provisioning }
  set_peerings (λ s. Peerings.update s accepted)
  emits env peering_id peering_accepted
  pure accepted

-- The result of the store's update is dropped, and no event is emitted.
unfoldable pub reject : Env → Uuid → Act Peering
reject env peering_id = do
  peering ← reads (pending_for env peering_id)
  let refused = record peering { state = rejected }
  dropping (set_peerings (λ s. Peerings.update s refused))
  pure refused

abbrev pub static_route : Uuid → Prefix → RouteEntry
static_route peering_id p = record {
  prefix = p;
  origin_vpc_id = nil_uuid;
  peering_id = peering_id;
  next_hop = invalid_addr;
  vni = 0;
  origin = static;
  preference = preference_for_origin static;
  state = RouteState.active;
}

abbrev add_static : Env → Uuid → Prefix → Act (Unit {0})
add_static env peering_id p = do
  modifies (λ db. record db { routes = Routes.upsert db.routes (static_route peering_id p) })
  emits env peering_id route_added

abbrev withdraw : Env → Uuid → Prefix → Act (Unit {0})
withdraw env peering_id p = do
  modifies (λ db. record db { routes = Routes.delete db.routes peering_id p })
  emits env peering_id route_withdrawn

-- The `switch` on the action.
unfoldable pub override : Env → Uuid → String → Prefix → Act (Unit {0})
override env peering_id action p =
    if action == "add_static"
    then add_static env peering_id p
    else if action == "withdraw"
    then withdraw env peering_id p
    else check (err err_invalid_input)

unfoldable pub override_route :
    Externals → Env → Option OverrideRouteRequest → Uuid → Act (Unit {0})
unfolding override
override_route x env body peering_id = do
  peering ← reads (λ db. Peerings.get db.peerings peering_id)
  reads (λ db. require_peering_auth env db peering)
  req ← check (or_fail body err_invalid_input)
  p ← check (or_fail (x.parse_prefix req.prefix) err_invalid_cidr)
  override env peering_id req.action p
