-- ===== src/Controller/Provisioner.antt =====
-- internal/controller/provisioner.go, over any BGP service. The log lines are left out.
use vpc_routing.Prelude.{
  ℕ, ◌+◌, Bool, true, false, Option, none, some, List, [], ◌∷◌, if◌then◌else◌, ◌==◌, length, Result,
  ok, err, value,
}
use vpc_routing.Model.Netip.{Prefix, invalid_addr}
use vpc_routing.Model.Entities.{
  Uuid, Vpc, Peering, PeeringState, PeeringDirection, bidirectional, accepter_to_requester,
  provisioning, state_eq, RouteEntry, RouteState, direct, preference_for_origin,
  peering_provisioned, AppError,
}
use vpc_routing.Store.Vpcs
use vpc_routing.Store.Peerings
use vpc_routing.Store.Peerings.{PeeringStore}
use vpc_routing.Store.Routes
use vpc_routing.Bgp.Evpn.{
  EvpnType5Route, build_type5_routes, RtConfig, add_import, remove_import, build_peering_rt_configs,
}
use vpc_routing.Bgp.Service.{Service, BgpError}
use vpc_routing.Api.Db.{Db, Externals, Env, emit_event}

-- The errors of `ProvisionPeering`, by the call that failed.
pub data ProvisionError : Type 0 where
  get_peering : AppError → ProvisionError
  wrong_state : PeeringState → ProvisionError
  get_requester : AppError → ProvisionError
  get_accepter : AppError → ProvisionError
  fabric : BgpError → ProvisionError
  update_peering : AppError → ProvisionError

-- The requester's routes are injected and stored too.
abbrev pub is_two_way : PeeringDirection → Bool
is_two_way bidirectional = true
is_two_way accepter_to_requester = true
is_two_way _ = false

abbrev pub on_accepter :
    Peering → Vpc → Result AppError Vpc → Result ProvisionError (Peering × Vpc × Vpc)
on_accepter peering requester (err e) = err (get_accepter e)
on_accepter peering requester (ok accepter) = ok (peering, requester, accepter)

abbrev pub on_requester :
    Db → Peering → Result AppError Vpc → Result ProvisionError (Peering × Vpc × Vpc)
on_requester db peering (err e) = err (get_requester e)
on_requester db peering (ok requester) =
    on_accepter peering requester (Vpcs.get db.vpcs peering.accepter_vpc_id)

abbrev pub on_peering : Db → Result AppError Peering → Result ProvisionError (Peering × Vpc × Vpc)
on_peering db (err e) = err (get_peering e)
on_peering db (ok peering) =
    if peering.state == provisioning
    then on_requester db peering (Vpcs.get db.vpcs peering.requester_vpc_id)
    else err (wrong_state peering.state)

-- The peering, if it waits for provisioning, with its requester and its accepter.
unfoldable pub ready : Db → Uuid → Result ProvisionError (Peering × Vpc × Vpc)
ready db peering_id = on_peering db (Peerings.get db.peerings peering_id)

abbrev pub vpc_routes : Externals → Vpc → List EvpnType5Route
vpc_routes x v =
    build_type5_routes (x.text v.id) v.region_id (x.text v.account_id) v.cidr_blocks v.vni

-- `p.routes.Upsert` for each block of the VPC.
unfoldable pub store_routes : Uuid → Uuid → List Prefix → List RouteEntry → List RouteEntry
store_routes peering_id vpc_id [] routes = routes
store_routes peering_id vpc_id (cidr ∷ cidrs) routes = store_routes peering_id vpc_id cidrs (
    Routes.upsert routes (record {
      prefix = cidr;
      origin_vpc_id = vpc_id;
      peering_id = peering_id;
      next_hop = invalid_addr;
      vni = 0;
      origin = direct;
      preference = preference_for_origin direct;
      state = RouteState.active;
    }))

-- Step 3: the accepter's blocks, and the requester's if the peering is two-way.
unfoldable pub installed : Uuid → Peering → Vpc → Vpc → List RouteEntry → List RouteEntry
unfolding store_routes
installed peering_id p requester accepter routes =
    let one_way = store_routes peering_id accepter.id accepter.cidr_blocks routes in
    if is_two_way p.direction
    then store_routes peering_id requester.id requester.cidr_blocks one_way
    else one_way

unfoldable pub route_total : Peering → Vpc → Vpc → ℕ
route_total p requester accepter =
    length accepter.cidr_blocks
    + (if is_two_way p.direction then length requester.cidr_blocks else 0)

abbrev pub activated : Env → Peering → ℕ → Peering
activated env p n = record p {
  state = PeeringState.active;
  provisioned_at = some env.now;
  route_count = n;
}

abbrev pub finish :
    Env → Uuid → Db → Result AppError PeeringStore → Db × Result ProvisionError (Unit {0})
finish env peering_id db (err e) = (db, err (update_peering e))
finish env peering_id db (ok peerings) =
    (emit_event env (record db { peerings = peerings }) peering_id peering_provisioned, ok tt)

-- Steps 3 and 4, once the fabric is set.
unfoldable pub commit :
    Env → Uuid → Db → Peering → Vpc → Vpc → Db × Result ProvisionError (Unit {0})
unfolding installed route_total
commit env peering_id db p requester accepter =
    finish env peering_id
      (record db { routes = installed peering_id p requester accepter db.routes })
      (Peerings.update db.peerings (activated env p (route_total p requester accepter)))

-- The service, from here on. Nothing that a step changed is undone where a later one fails.
module _ (svc : Service) where
  open svc use {State, configure_rt, inject_routes, withdraw_routes}

  abbrev and_then {ℓ} :
      {A : Type ℓ}
      → State × Result BgpError A
      → (State → State × Result BgpError (Unit {0}))
      → State × Result BgpError (Unit {0})
  and_then (s, err e) next = (s, err e)
  and_then (s, ok a) next = next s

  -- The loop over the route target configs; it stops at the first error.
  unfoldable pub configure_all : List RtConfig → State → State × Result BgpError (Unit {0})
  configure_all [] s = (s, ok tt)
  configure_all (c ∷ cs) s = and_then (configure_rt c s) (configure_all cs)

  -- Steps 1 and 2.
  unfoldable pub set_fabric :
      Externals → Peering → Vpc → Vpc → State → State × Result BgpError (Unit {0})
  unfolding configure_all
  set_fabric x p requester accepter s =
      and_then
        (configure_all
          (build_peering_rt_configs requester.vrf_name accepter.vrf_name requester.export_rt
            accepter.export_rt add_import)
          s)
        λ s1. and_then (inject_routes (x.text accepter.id) (vpc_routes x accepter) s1) λ s2.
          if is_two_way p.direction
          then and_then (inject_routes (x.text requester.id) (vpc_routes x requester) s2)
              (λ s3. (s3, ok tt))
          else (s2, ok tt)

  abbrev pub on_fabric :
      Env
      → Uuid
      → Db
      → Peering
      → Vpc
      → Vpc
      → State × Result BgpError (Unit {0})
      → Db × State × Result ProvisionError (Unit {0})
  on_fabric env peering_id db p requester accepter (s, err e) = (db, s, err (fabric e))
  on_fabric env peering_id db p requester accepter (s, ok u) =
      let (db', r) = commit env peering_id db p requester accepter in (db', s, r)

  abbrev pub on_ready :
      Externals
      → Env
      → Uuid
      → Db
      → State
      → Result ProvisionError (Peering × Vpc × Vpc)
      → Db × State × Result ProvisionError (Unit {0})
  on_ready x env peering_id db s (err e) = (db, s, err e)
  on_ready x env peering_id db s (ok (p, requester, accepter)) =
      on_fabric env peering_id db p requester accepter (set_fabric x p requester accepter s)

  unfoldable pub provision_peering :
      Externals → Env → Uuid → Db → State → Db × State × Result ProvisionError (Unit {0})
  provision_peering x env peering_id db s = on_ready x env peering_id db s (ready db peering_id)

  -- What is dropped of a call is its result; its change of the state stays.
  abbrev pub state_of {ℓ} : {A : Type ℓ} → State × A → State
  state_of r = r.0

  abbrev withdraw_vpc : Externals → Option Vpc → State → State
  withdraw_vpc x none s = s
  withdraw_vpc x (some v) s = state_of (withdraw_routes (x.text v.id) v.cidr_blocks s)

  -- The loop that drops the errors.
  unfoldable pub configure_each : List RtConfig → State → State
  configure_each [] s = s
  configure_each (c ∷ cs) s = configure_each cs (state_of (configure_rt c s))

  abbrev remove_imports : Option Vpc → Option Vpc → State → State
  remove_imports (some requester) (some accepter) s =
      configure_each
        (build_peering_rt_configs requester.vrf_name accepter.vrf_name requester.export_rt
          accepter.export_rt remove_import)
        s
  remove_imports _ _ s = s

  abbrev on_found :
      Externals → Db → State → Result AppError Peering → State × Result ProvisionError (Unit {0})
  on_found x db s (err e) = (s, err (get_peering e))
  on_found x db s (ok p) =
      let requester = value (Vpcs.get db.vpcs p.requester_vpc_id) in
      let accepter = value (Vpcs.get db.vpcs p.accepter_vpc_id) in
      (
        remove_imports requester accepter (withdraw_vpc x requester (withdraw_vpc x accepter s)),
        ok tt,
      )

  -- The stores stay as they are.
  unfoldable pub deprovision_peering :
      Externals → Uuid → Db → State → State × Result ProvisionError (Unit {0})
  unfolding configure_each
  deprovision_peering x peering_id db s = on_found x db s (Peerings.get db.peerings peering_id)
