-- ===== src/Agent/Kept.antt =====
-- A pass of internal/agent/reconciler.go over the in-memory host of netlink.go, for any desired state.
use vpc_routing.Prelude.{
  Bool, true, false, not, String, List, [], ◌∷◌, any, string_eq, if◌then◌else◌, Result, ok, err,
}
use vpc_routing.Prelude.Maps.{Map}
use vpc_routing.Model.Netip.{prefix_eq}
use vpc_routing.Agent.Netlink.{
  VrfConfig, RouteConfig, AclConfig, NetlinkError, InMemoryNetlink, in_memory_netlink, has_prefix,
}
use vpc_routing.Agent.Reconciler.{
  DesiredState, ReconcileReport, empty_report, Pass, counted, one_created, one_deleted, one_added,
  one_removed, one_updated, has_name, listed, create_one, create_missing, delete_one, delete_stale,
  add_one, add_missing, remove_one, remove_stale, reconcile_vrf, reconcile_routes, program_each,
  reconcile_acls, reconcile_vrfs, reconcile,
}
use vpc_routing.Agent.Upkeep.{
  IsHost, create_vrf-IsHost, delete_vrf-IsHost, add_route-IsHost, delete_route-IsHost,
  program_acl-IsHost,
}

abbrev Work : Type 0
Work = Pass in_memory_netlink

-- The host that a step of the pass leaves is in order.
abbrev Kept : Work → Type 0
Kept w = IsHost w.0

counted-Kept :
    (one : ReconcileReport → ReconcileReport) (r : InMemoryNetlink × Result NetlinkError (Unit {0}))
    (report : ReconcileReport)
    → IsHost r.0
    → Kept (counted in_memory_netlink one r report)
counted-Kept one (s, ok u) report h = h
counted-Kept one (s, err e) report h = h

-- The test of each loop body guards one call.
guarded-Kept :
    (b : Bool) (one : ReconcileReport → ReconcileReport)
    (r : InMemoryNetlink × Result NetlinkError (Unit {0})) (s : InMemoryNetlink)
    (report : ReconcileReport)
    → IsHost s
    → IsHost r.0
    → Kept (if b then counted in_memory_netlink one r report else (s, report))
guarded-Kept true one r s report h k = counted-Kept one r report k
guarded-Kept false one r s report h k = h

create_missing-Kept :
    (actual vs : List VrfConfig) (w : Work)
    → Kept w
    → Kept (create_missing in_memory_netlink actual vs w)
unfolding create_missing create_one
create_missing-Kept actual [] w h = h
create_missing-Kept actual (v ∷ vs) w h =
    create_missing-Kept actual vs (create_one in_memory_netlink actual v w) (
      guarded-Kept (not (any (has_name v.name) actual)) one_created
        (in_memory_netlink.create_vrf v w.0) w.0 w.1 h (create_vrf-IsHost v w.0 h))

delete_stale-Kept :
    (desired vs : List VrfConfig) (w : Work)
    → Kept w
    → Kept (delete_stale in_memory_netlink desired vs w)
unfolding delete_stale delete_one
delete_stale-Kept desired [] w h = h
delete_stale-Kept desired (v ∷ vs) w h =
    delete_stale-Kept desired vs (delete_one in_memory_netlink desired v w) (
      guarded-Kept (not (any (has_name v.name) desired)) one_deleted
        (in_memory_netlink.delete_vrf v.name w.0) w.0 w.1 h (delete_vrf-IsHost v.name w.0 h))

add_missing-Kept :
    (actual rs : List RouteConfig) (w : Work)
    → Kept w
    → Kept (add_missing in_memory_netlink actual rs w)
unfolding add_missing add_one
add_missing-Kept actual [] w h = h
add_missing-Kept actual (d ∷ rs) w h =
    add_missing-Kept actual rs (add_one in_memory_netlink actual d w) (
      guarded-Kept (not (any (has_prefix d.prefix) actual)) one_added
        (in_memory_netlink.add_route d w.0) w.0 w.1 h (add_route-IsHost d w.0 h))

remove_stale-Kept :
    (n : String) (desired rs : List RouteConfig) (w : Work)
    → Kept w
    → Kept (remove_stale in_memory_netlink n desired rs w)
unfolding remove_stale remove_one
remove_stale-Kept n desired [] w h = h
remove_stale-Kept n desired (a ∷ rs) w h =
    remove_stale-Kept n desired rs (remove_one in_memory_netlink n desired a w) (
      guarded-Kept (not (any (has_prefix a.prefix) desired)) one_removed
        (in_memory_netlink.delete_route n a.prefix w.0) w.0 w.1 h
        (delete_route-IsHost n a.prefix w.0 h))

reconcile_routes-Kept :
    (m : Map String (List RouteConfig)) (w : Work)
    → Kept w
    → Kept (reconcile_routes in_memory_netlink m w)
unfolding reconcile_routes reconcile_vrf
reconcile_routes-Kept [] w h = h
reconcile_routes-Kept ((n, desired) ∷ m) w h =
    let actual = listed (in_memory_netlink.list_routes n w.0) in
    reconcile_routes-Kept m (reconcile_vrf in_memory_netlink n desired w) (
      remove_stale-Kept n desired actual (add_missing in_memory_netlink actual desired w)
        (add_missing-Kept actual desired w h))

program_each-Kept :
    (as' : List AclConfig) (w : Work) → Kept w → Kept (program_each in_memory_netlink as' w)
unfolding program_each
program_each-Kept [] w h = h
program_each-Kept (a ∷ as') w h =
    program_each-Kept as'
      (counted in_memory_netlink one_updated (in_memory_netlink.program_acl a w.0) w.1)
      (counted-Kept one_updated (in_memory_netlink.program_acl a w.0) w.1
        (program_acl-IsHost a w.0 h))

reconcile_acls-Kept :
    (m : Map String (List AclConfig)) (w : Work)
    → Kept w
    → Kept (reconcile_acls in_memory_netlink m w)
unfolding reconcile_acls
reconcile_acls-Kept [] w h = h
reconcile_acls-Kept ((n, acls) ∷ m) w h =
    reconcile_acls-Kept m (program_each in_memory_netlink acls w) (program_each-Kept acls w h)

pub reconcile-IsHost :
    (desired : DesiredState) (s : InMemoryNetlink)
    → IsHost s
    → IsHost (reconcile in_memory_netlink desired s).0
unfolding reconcile reconcile_vrfs
reconcile-IsHost desired s h =
    let actual = listed (in_memory_netlink.list_vrfs s) in
    let w1 = create_missing in_memory_netlink actual desired.vrfs (s, empty_report) in
    let w2 = delete_stale in_memory_netlink desired.vrfs actual w1 in
    reconcile_acls-Kept desired.acls (reconcile_routes in_memory_netlink desired.routes w2) (
      reconcile_routes-Kept desired.routes w2 (
        delete_stale-Kept desired.vrfs actual w1
          (create_missing-Kept actual desired.vrfs (s, empty_report) h)))
