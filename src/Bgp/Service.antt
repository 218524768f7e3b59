-- ===== src/Bgp/Service.antt =====
-- internal/bgp/service.go: the `Service` interface and `InMemoryService`. The log lines are left out.
use vpc_routing.Prelude.{
  ℤ, ℕ, Bool, true, false, not, Option, none, some, String, List, [], ◌∷◌, ◌++◌, map, if◌then◌else◌,
  ◌==◌, string_eq, any, keep, count_by, Result, ok, err, length,
}
use vpc_routing.Prelude.Maps.{Map, lookup, insert}
use vpc_routing.Model.Netip.{Prefix, prefix_eq, Addr, invalid_addr}
use vpc_routing.Bgp.Evpn.{
  EvpnType5Route, RtAction, add_import, remove_import, other_action, RtConfig,
}

pub data PeerState : Type 0 where
  idle connect active open_sent open_confirm established : PeerState

pub record PeerInfo : Type 0 where
  pub address : String
  pub asn : ℕ
  pub state : PeerState
  pub uptime_seconds : ℕ
  pub routes_received : ℕ
  pub routes_advertised : ℕ

pub record RouteTableEntry : Type 0 where
  pub prefix : Prefix
  pub next_hop : Addr
  pub vni : ℕ
  pub route_target : String
  pub state : String

pub record Config : Type 0 where
  pub local_asn : ℕ
  pub router_id : String
  pub listen_port : ℤ
  pub route_reflectors : List String

pub data BgpError : Type 0 where
  unknown_rt_action : BgpError
  failed : BgpError

-- The methods of `Service` that the controller calls. A method that fails may have changed the
-- service's state.
pub record Service : Type 1 where
  pub State : Type 0
  pub configure_rt : RtConfig → State → State × Result BgpError (Unit {0})
  pub inject_routes : String → List EvpnType5Route → State → State × Result BgpError ℕ
  pub withdraw_routes : String → List Prefix → State → State × Result BgpError ℕ

pub record InMemoryService : Type 0 where
  pub config : Config
  pub routes : Map String (List EvpnType5Route)
  pub rt_configs : Map String (List String)
  pub route_table : Map String (List RouteTableEntry)
  pub peers : List PeerInfo
  pub running : Bool

unfoldable pub new_in_memory_service : Config → InMemoryService
new_in_memory_service config = record {
  config = config;
  routes = [];
  rt_configs = [];
  route_table = [];
  peers = [];
  running = false;
}

-- A missing key reads as the nil slice.
abbrev pub or_nil {ℓ} : {A : Type ℓ} → Option (List A) → List A
or_nil none = []
or_nil (some xs) = xs

abbrev established_peer : Config → String → PeerInfo
established_peer config rr = record {
  address = rr;
  asn = config.local_asn;
  state = established;
  uptime_seconds = 0;
  routes_received = 0;
  routes_advertised = 0;
}

unfoldable pub start : InMemoryService → InMemoryService
start s = record s {
  running = true;
  peers = map (established_peer s.config) s.config.route_reflectors;
}

unfoldable pub stop : InMemoryService → InMemoryService
stop s = record s { running = false }

unfoldable pub get_peer_status : InMemoryService → List PeerInfo
get_peer_status s = s.peers

unfoldable pub get_imported_rts : InMemoryService → String → List String
get_imported_rts s vrf_name = or_nil (lookup vrf_name s.rt_configs)

-- The loop that cuts out the first occurrence.
unfoldable pub remove_first : String → List String → List String
remove_first rt [] = []
remove_first rt (r ∷ rs) = if r == rt then rs else r ∷ remove_first rt rs

-- The loop writes the map only where it finds the target.
abbrev rts_without : InMemoryService → RtConfig → InMemoryService
rts_without s c =
    let rts = get_imported_rts s c.vrf_name in
    if any (λ rt. rt == c.route_target) rts
    then record s { rt_configs = insert c.vrf_name (remove_first c.route_target rts) s.rt_configs }
    else s

abbrev on_action :
    RtAction → RtConfig → InMemoryService → InMemoryService × Result BgpError (Unit {0})
on_action add_import c s = (
  record s {
    rt_configs =
        insert c.vrf_name (get_imported_rts s c.vrf_name ++ c.route_target ∷ []) s.rt_configs;
  },
  ok tt,
)
on_action remove_import c s = (rts_without s c, ok tt)
on_action (other_action a) c s = (s, err unknown_rt_action)

unfoldable pub configure_rt :
    RtConfig → InMemoryService → InMemoryService × Result BgpError (Unit {0})
unfolding get_imported_rts remove_first
configure_rt c s = on_action c.action c s

abbrev pub table_entry : EvpnType5Route → RouteTableEntry
table_entry r = record {
  prefix = r.prefix;
  next_hop = invalid_addr;
  vni = r.vni;
  route_target = r.route_target;
  state = "active";
}

-- The loop that adds each route to the table of its route distinguisher.
unfoldable pub add_to_table :
    List EvpnType5Route → Map String (List RouteTableEntry) → Map String (List RouteTableEntry)
add_to_table [] t = t
add_to_table (r ∷ rs) t =
    add_to_table rs (insert r.rd (or_nil (lookup r.rd t) ++ table_entry r ∷ []) t)

unfoldable pub get_injected_routes : InMemoryService → String → List EvpnType5Route
get_injected_routes s vpc_id = or_nil (lookup vpc_id s.routes)

unfoldable pub inject_routes :
    String → List EvpnType5Route → InMemoryService → InMemoryService × Result BgpError ℕ
unfolding get_injected_routes add_to_table
inject_routes vpc_id routes s = (
  record s {
    routes = insert vpc_id (get_injected_routes s vpc_id ++ routes) s.routes;
    route_table = add_to_table routes s.route_table;
  },
  ok (length routes),
)

-- The set of prefixes is a list here, read by the same test.
abbrev pub is_withdrawn : List Prefix → EvpnType5Route → Bool
is_withdrawn prefixes r = any (λ p. p == r.prefix) prefixes

unfoldable pub withdraw_routes :
    String → List Prefix → InMemoryService → InMemoryService × Result BgpError ℕ
unfolding get_injected_routes
withdraw_routes vpc_id prefixes s =
    let existing = get_injected_routes s vpc_id in
    (
      record s {
        routes = insert vpc_id (keep (λ r. not (is_withdrawn prefixes r)) existing) s.routes;
      },
      ok (count_by (is_withdrawn prefixes) existing),
    )

unfoldable pub get_route_table : InMemoryService → String → List RouteTableEntry
get_route_table s vrf_name = or_nil (lookup vrf_name s.route_table)

abbrev pub in_memory : Service
in_memory = record {
  State = InMemoryService;
  configure_rt = configure_rt;
  inject_routes = inject_routes;
  withdraw_routes = withdraw_routes;
}
