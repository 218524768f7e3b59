-- ===== src/Api/Settled.antt =====
-- The handlers of internal/api that write, as if each checked everything first: an outcome, which is
-- then settled.
pub mod Handlers
use vpc_routing.Prelude.{
  ◌≡◌, refl, inl, inr, Bool-cases, ℕ, ◌||◌, not, Option, String, if◌then◌else◌, ltb, ◌==◌, nat_eq,
  string_eq, Result, ok, err, ◌>>=◌, ◌>>◌, guard, value,
}
use vpc_routing.Model.Netip.{Prefix}
use vpc_routing.Model.Entities.{
  EventType, err_has_active_peerings, Uuid, Peering, PeeringState, provisioning, rejected, state_eq,
  peering_created, peering_accepted, peering_deleted, policy_updated, route_added, route_withdrawn,
  AppError, err_invalid_input, err_invalid_cidr, err_permission_denied, err_invalid_state,
}
use vpc_routing.Store.Vpcs.{VpcStore}
use vpc_routing.Store.Vpcs
use vpc_routing.Store.Peerings
use vpc_routing.Store.Peerings.{PeeringStore}
use vpc_routing.Store.Routes
use vpc_routing.Auth.Access.{account_from_context}
use vpc_routing.Api.Db.{Db, Externals, Env, or_fail, emit_event}
use vpc_routing.Vni.{release}
use vpc_routing.Auth.Access.{require_vpc_owner}
use vpc_routing.Api.PeeringHandler.{
  CreatePeeringRequest, UpdatePeeringRequest, OverrideRouteRequest, proposed, with_policy,
  redirected, is_owner, or_unchanged, pending_for, require_peering_auth, static_route,
}
use vpc_routing.Api.PeeringHandler as Handler
use vpc_routing.Api.VpcHandler
use vpc_routing.Api.Act.{Act, go_on, with_peerings, with_vpcs}

-- Nothing has been written, or the new stores and the answer.
unfoldable pub settle {ℓ} : {A : Type ℓ} → Db → Result AppError (Db × A) → Db × Result AppError A
settle db (err e) = (db, err e)
settle db (ok (db', a)) = (db', ok a)

pub settle-answer :
    {A : Type 0} (db : Db) {w : Db × Result AppError A} (r : Result AppError (Db × A)) (a : A)
    → w ≡ settle db r
    → w.1 ≡ ok a
    → (d : Db) × (r ≡ ok (d, a))
unfolding settle
settle-answer db (err e) a p h = cc
settle-answer db (ok (d, b)) a p h = (d, cc)

abbrev pub try_store : Env → Db → Peering → Result AppError (Db × Peering)
try_store env db peering = do
  peerings ← Peerings.create db.peerings peering
  ok (emit_event env (record db { peerings = peerings }) peering.id peering_created, peering)

unfoldable pub try_create :
    Externals → Env → Option CreatePeeringRequest → Db → Result AppError (Db × Peering)
try_create x env body db = do peering ← proposed x env body db; try_store env db peering

unfoldable pub try_update :
    Externals → Env → Option UpdatePeeringRequest → Uuid → Db → Result AppError (Db × Peering)
try_update x env body peering_id db = do
  account_id ← account_from_context env.ctx
  peering ← Peerings.get db.peerings peering_id
  guard (is_owner (value (Vpcs.get db.vpcs peering.requester_vpc_id)) account_id)
      err_permission_denied
  guard (peering.state == PeeringState.active || peering.state == provisioning) err_invalid_state
  req ← or_fail body err_invalid_input
  changed ← with_policy x.parse_prefix req.route_policy (redirected req.direction peering)
  peerings ← Peerings.update db.peerings changed
  ok (emit_event env (record db { peerings = peerings }) peering_id policy_updated, changed)

unfoldable pub try_delete : Env → Uuid → Db → Result AppError (Db × (Unit {0}))
try_delete env peering_id db = do
  peering ← Peerings.get db.peerings peering_id
  require_peering_auth env db peering
  peerings ← Peerings.delete db.peerings peering_id env.now
  ok (emit_event env (record db { peerings = peerings }) peering_id peering_deleted, tt)

unfoldable pub try_delete_vpc : Env → Uuid → Db → Result AppError (Db × (Unit {0}))
try_delete_vpc env vpc_id db = do
  vpc ← Vpcs.get db.vpcs vpc_id
  require_vpc_owner env.ctx vpc
  count ← Peerings.count_by_vpc db.peerings vpc_id
  guard (not (ltb 0 count)) err_has_active_peerings
  vpcs ← Vpcs.delete db.vpcs vpc_id env.now
  ok (record db { vpcs = vpcs; alloc = release db.alloc vpc.vni }, tt)

unfoldable pub try_accept : Env → Uuid → Db → Result AppError (Db × Peering)
try_accept env peering_id db = do
  peering ← pending_for env peering_id db
  let accepted = record peering { state = provisioning }
  peerings ← Peerings.update db.peerings accepted
  ok (emit_event env (record db { peerings = peerings }) peering_id peering_accepted, accepted)

unfoldable pub try_reject : Env → Uuid → Db → Result AppError (Db × Peering)
try_reject env peering_id db = do
  peering ← pending_for env peering_id db
  let refused = record peering { state = rejected }
  ok (
    record db { peerings = or_unchanged db.peerings (Peerings.update db.peerings refused) },
    refused,
  )

-- The `switch` on the action.
abbrev pub try_override : Env → Db → Uuid → String → Prefix → Result AppError (Db × Unit {0})
try_override env db peering_id action p =
    if action == "add_static"
    then ok (
      emit_event env (record db { routes = Routes.upsert db.routes (static_route peering_id p) })
          peering_id route_added,
      tt,
    )
    else if action == "withdraw"
    then ok (
      emit_event env (record db { routes = Routes.delete db.routes peering_id p }) peering_id
          route_withdrawn,
      tt,
    )
    else err err_invalid_input

unfoldable pub try_override_route :
    Externals → Env → Option OverrideRouteRequest → Uuid → Db → Result AppError (Db × (Unit {0}))
try_override_route x env body peering_id db = do
  peering ← Peerings.get db.peerings peering_id
  require_peering_auth env db peering
  req ← or_fail body err_invalid_input
  p ← or_fail (x.parse_prefix req.prefix) err_invalid_cidr
  try_override env db peering_id req.action p
