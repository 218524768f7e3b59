-- ===== src/Agent/Calls.antt =====
-- The in-memory host of internal/agent/netlink.go over any sequence of calls.
use vpc_routing.Prelude.{refl, arith, String, List, [], ◌∷◌, Result}
use vpc_routing.Prelude.Maps.{lookup}
use vpc_routing.Model.Netip.{Prefix}
use vpc_routing.Agent.Netlink.{
  VrfConfig, RouteConfig, AclConfig, InMemoryNetlink, NetlinkError, new_in_memory_netlink,
  create_vrf, delete_vrf, add_route, delete_route, program_acl, clear_acl,
}
use vpc_routing.Agent.Upkeep.{
  IsHost, create_vrf-IsHost, delete_vrf-IsHost, add_route-IsHost, delete_route-IsHost,
  program_acl-IsHost, clear_acl-IsHost,
}

pub data NetlinkCall : Type 0 where
  creates : VrfConfig → NetlinkCall
  deletes : String → NetlinkCall
  adds : RouteConfig → NetlinkCall
  removes : String → Prefix → NetlinkCall
  programs : AclConfig → NetlinkCall
  clears : String → String → NetlinkCall

abbrev pub host_call :
    NetlinkCall → InMemoryNetlink → InMemoryNetlink × Result NetlinkError (Unit {0})
host_call (creates v) n = create_vrf v n
host_call (deletes name) n = delete_vrf name n
host_call (adds r) n = add_route r n
host_call (removes name p) n = delete_route name p n
host_call (programs a) n = program_acl a n
host_call (clears name peering_id) n = clear_acl name peering_id n

unfoldable pub run_host : List NetlinkCall → InMemoryNetlink → InMemoryNetlink
run_host [] n = n
run_host (c ∷ cs) n = run_host cs (host_call c n).0

host_call-IsHost : (c : NetlinkCall) (n : InMemoryNetlink) → IsHost n → IsHost (host_call c n).0
host_call-IsHost (creates v) n h = create_vrf-IsHost v n h
host_call-IsHost (deletes name) n h = delete_vrf-IsHost name n h
host_call-IsHost (adds r) n h = add_route-IsHost r n h
host_call-IsHost (removes name p) n h = delete_route-IsHost name p n h
host_call-IsHost (programs a) n h = program_acl-IsHost a n h
host_call-IsHost (clears name q) n h = clear_acl-IsHost name q n h

kept-IsHost : (cs : List NetlinkCall) (n : InMemoryNetlink) → IsHost n → IsHost (run_host cs n)
unfolding run_host
kept-IsHost [] n h = h
kept-IsHost (c ∷ cs) n h = kept-IsHost cs (host_call c n).0 (host_call-IsHost c n h)

-- Over any calls to a fresh in-memory host, every VRF lies under its own name, routes lie in the
-- table that they name and only in those of VRFs that exist, a table has one route for a prefix
-- at most, and a VRF has one firewall entry for a peering at most.
pub run_host-IsHost : (cs : List NetlinkCall) → IsHost (run_host cs new_in_memory_netlink)
unfolding lookup
run_host-IsHost cs = kept-IsHost cs new_in_memory_netlink (record {
  named = tt;
  housed = λ n e. refl;
  placed = λ n. tt;
  unique = λ n p. omega arith;
  one_acl = λ n q. omega arith;
})
