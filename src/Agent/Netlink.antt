-- ===== src/Agent/Netlink.antt =====
-- internal/agent/netlink.go: the interface to a host's VRFs, routes and firewall, and its in-memory
-- implementation. The log lines are left out.
use vpc_routing.Prelude.{
  ℕ, Bool, true, false, not, Option, none, some, String, List, [], ◌∷◌, ◌++◌, any, keep, ◌==◌, ◌!=◌,
  nat_eq, string_eq, if◌then◌else◌, Result, ok, err, ℤ,
}
use vpc_routing.Prelude.Maps.{Map, lookup, insert, delete, values}
use vpc_routing.Model.Netip.{Prefix, Addr, prefix_eq}

pub record VrfConfig : Type 0 where
  pub name : String
  pub table_id : ℤ
  pub vni : ℕ
  pub vtep_ip : Addr

pub record RouteConfig : Type 0 where
  pub vrf_name : String
  pub prefix : Prefix
  pub next_hop : Addr
  pub vni : ℕ

pub record AclRule : Type 0 where
  pub src_prefix : Prefix
  pub dst_prefix : Prefix
  pub protocol : String
  pub src_port_start : ℤ
  pub src_port_end : ℤ
  pub dst_port_start : ℤ
  pub dst_port_end : ℤ
  pub action : String

pub record AclConfig : Type 0 where
  pub vrf_name : String
  pub peering_id : String
  pub rules : List AclRule

pub data NetlinkError : Type 0 where
  vrf_exists vrf_not_found : String → NetlinkError
  route_exists route_not_found : Prefix → String → NetlinkError
  refused : NetlinkError

-- A call that fails may have changed the host; a listing changes nothing.
pub record NetlinkManager : Type 1 where
  pub State : Type 0
  pub create_vrf : VrfConfig → State → State × Result NetlinkError (Unit {0})
  pub delete_vrf : String → State → State × Result NetlinkError (Unit {0})
  pub add_route : RouteConfig → State → State × Result NetlinkError (Unit {0})
  pub delete_route : String → Prefix → State → State × Result NetlinkError (Unit {0})
  pub list_routes : String → State → Result NetlinkError (List RouteConfig)
  pub program_acl : AclConfig → State → State × Result NetlinkError (Unit {0})
  pub clear_acl : String → String → State → State × Result NetlinkError (Unit {0})
  pub list_vrfs : State → Result NetlinkError (List VrfConfig)

pub record InMemoryNetlink : Type 0 where
  pub vrfs : Map String VrfConfig
  pub routes : Map String (List RouteConfig)
  pub acls : Map String (List AclConfig)

abbrev pub new_in_memory_netlink : InMemoryNetlink
new_in_memory_netlink = record { vrfs = []; routes = []; acls = [] }

-- A missing key reads as the nil slice.
abbrev pub slice_of {ℓ} : {A : Type ℓ} → Option (List A) → List A
slice_of none = []
slice_of (some xs) = xs

-- `_, exists := m[k]`.
abbrev pub exists {ℓ} : {A : Type ℓ} → Option A → Bool
exists none = false
exists (some a) = true

abbrev pub has_vrf : InMemoryNetlink → String → Bool
has_vrf n name = exists (lookup name n.vrfs)

abbrev pub routes_in : InMemoryNetlink → String → List RouteConfig
routes_in n vrf_name = slice_of (lookup vrf_name n.routes)

unfoldable pub create_vrf :
    VrfConfig → InMemoryNetlink → InMemoryNetlink × Result NetlinkError (Unit {0})
create_vrf cfg n =
    if has_vrf n cfg.name
    then (n, err (vrf_exists cfg.name))
    else (record n { vrfs = insert cfg.name cfg n.vrfs }, ok tt)

unfoldable pub delete_vrf :
    String → InMemoryNetlink → InMemoryNetlink × Result NetlinkError (Unit {0})
delete_vrf name n = if not (has_vrf n name) then (n, err (vrf_not_found name)) else (
  record { vrfs = delete name n.vrfs; routes = delete name n.routes; acls = delete name n.acls },
  ok tt,
)

abbrev pub has_prefix : Prefix → RouteConfig → Bool
has_prefix prefix r = r.prefix == prefix

unfoldable pub add_route :
    RouteConfig → InMemoryNetlink → InMemoryNetlink × Result NetlinkError (Unit {0})
add_route cfg n =
    if not (has_vrf n cfg.vrf_name)
    then (n, err (vrf_not_found cfg.vrf_name))
    else if any (has_prefix cfg.prefix) (routes_in n cfg.vrf_name)
    then (n, err (route_exists cfg.prefix cfg.vrf_name))
    else (
      record n { routes = insert cfg.vrf_name (routes_in n cfg.vrf_name ++ cfg ∷ []) n.routes },
      ok tt,
    )

-- `append(routes[:i], routes[i+1:]...)` at the first route with the prefix.
unfoldable pub without_first : Prefix → List RouteConfig → List RouteConfig
without_first prefix [] = []
without_first prefix (r ∷ rs) = if has_prefix prefix r then rs else r ∷ without_first prefix rs

unfoldable pub delete_route :
    String → Prefix → InMemoryNetlink → InMemoryNetlink × Result NetlinkError (Unit {0})
delete_route vrf_name prefix n =
    if any (has_prefix prefix) (routes_in n vrf_name)
    then (
      record n { routes = insert vrf_name (without_first prefix (routes_in n vrf_name)) n.routes },
      ok tt,
    )
    else (n, err (route_not_found prefix vrf_name))

unfoldable pub list_routes : String → InMemoryNetlink → Result NetlinkError (List RouteConfig)
list_routes vrf_name n = ok (routes_in n vrf_name)

abbrev pub acls_in : InMemoryNetlink → String → List AclConfig
acls_in n vrf_name = slice_of (lookup vrf_name n.acls)

-- The loop that leaves out what the peering had.
abbrev pub other_acls : String → List AclConfig → List AclConfig
other_acls peering_id acls = keep (λ a. a.peering_id != peering_id) acls

unfoldable pub program_acl :
    AclConfig → InMemoryNetlink → InMemoryNetlink × Result NetlinkError (Unit {0})
program_acl cfg n = (
  record n {
    acls =
        insert cfg.vrf_name (other_acls cfg.peering_id (acls_in n cfg.vrf_name) ++ cfg ∷ []) n.acls;
  },
  ok tt,
)

unfoldable pub clear_acl :
    String → String → InMemoryNetlink → InMemoryNetlink × Result NetlinkError (Unit {0})
clear_acl vrf_name peering_id n =
    (record n { acls = insert vrf_name (other_acls peering_id (acls_in n vrf_name)) n.acls }, ok tt)

unfoldable pub list_vrfs : InMemoryNetlink → Result NetlinkError (List VrfConfig)
list_vrfs n = ok (values n.vrfs)

unfoldable pub get_acls : InMemoryNetlink → String → List AclConfig
get_acls n vrf_name = acls_in n vrf_name

abbrev pub in_memory_netlink : NetlinkManager
in_memory_netlink = record {
  State = InMemoryNetlink;
  create_vrf = create_vrf;
  delete_vrf = delete_vrf;
  add_route = add_route;
  delete_route = delete_route;
  list_routes = list_routes;
  program_acl = program_acl;
  clear_acl = clear_acl;
  list_vrfs = list_vrfs;
}
