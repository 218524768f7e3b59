-- ===== src/Tests/Hosts.antt =====
-- A host with a VRF that is no longer wanted, and the plan for another.
use vpc_routing.Prelude.{refl, String, List, [], ◌∷◌, string_eq, pos}
use vpc_routing.Model.Netip.{prefix_eq}
use vpc_routing.Prelude.Maps.{lookup}
use vpc_routing.Agent.Netlink.{
  VrfConfig, RouteConfig, InMemoryNetlink, new_in_memory_netlink, in_memory_netlink,
}
use vpc_routing.Agent.Reconciler.{DesiredState, reconcile}
use vpc_routing.Agent.Upkeep.{IsHost}
use vpc_routing.Agent.Calls.{NetlinkCall, creates, adds, removes, run_host, run_host-IsHost}
use vpc_routing.Agent.Pass.{IsPlan, IsSettled, reconcile-IsSettled}
use vpc_routing.Agent.Quiet.{IsQuiet, reconcile-IsQuiet}
use vpc_routing.Tests.Data.{east, west, ten}

abbrev vrf : String → VrfConfig
vrf name = record { name = name; table_id = pos 100; vni = 3145728; vtep_ip = ten.ip }

abbrev east_in : String → RouteConfig
east_in name = record { vrf_name = name; prefix = east; next_hop = ten.ip; vni = 3145728 }

abbrev west_in : String → RouteConfig
west_in name = record { vrf_name = name; prefix = west; next_hop = ten.ip; vni = 3145728 }

-- The table that is wanted has a route too many.
abbrev calls : List NetlinkCall
calls =
    creates (vrf "old")
    ∷ adds (east_in "old")
    ∷ creates (vrf "blue")
    ∷ adds (west_in "blue")
    ∷ adds (west_in "none")
    ∷ removes "old" west
    ∷ []

run_host-IsHost_example : IsHost (run_host calls new_in_memory_netlink)
run_host-IsHost_example = run_host-IsHost calls

abbrev pub wanted : DesiredState
wanted = record {
  vrfs = vrf "blue" ∷ vrf "green" ∷ [];
  routes = ("blue", east_in "blue" ∷ []) ∷ ("green", east_in "green" ∷ west_in "green" ∷ []) ∷ [];
  acls = [];
}

pub wanted-IsPlan : IsPlan wanted.vrfs wanted.routes
unfolding lookup
wanted-IsPlan = (refl, (refl, tt), refl, (refl, (refl, (refl, tt)), refl, tt))

reconcile-IsSettled_example :
    IsSettled wanted (reconcile in_memory_netlink wanted (run_host calls new_in_memory_netlink)).0
reconcile-IsSettled_example =
    reconcile-IsSettled wanted (run_host calls new_in_memory_netlink) wanted-IsPlan
      (run_host-IsHost calls)

abbrev settled : InMemoryNetlink
settled = (reconcile in_memory_netlink wanted (run_host calls new_in_memory_netlink)).0

settled-IsSettled : IsSettled wanted settled
settled-IsSettled =
    reconcile-IsSettled wanted (run_host calls new_in_memory_netlink) wanted-IsPlan
      (run_host-IsHost calls)

reconcile-IsQuiet_example : IsQuiet wanted settled (reconcile in_memory_netlink wanted settled)
reconcile-IsQuiet_example = reconcile-IsQuiet wanted settled wanted-IsPlan settled-IsSettled
