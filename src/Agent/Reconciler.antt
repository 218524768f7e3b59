-- ===== src/Agent/Reconciler.antt =====
-- internal/agent/reconciler.go: the desired state of a host, and one pass that corrects its drift,
-- over any netlink manager. The log line is left out.
use vpc_routing.Prelude.{
  ℕ, ◌+◌, Bool, not, String, List, [], ◌∷◌, ◌++◌, any, ◌==◌, string_eq, if◌then◌else◌, Result, ok,
  err,
}
use vpc_routing.Prelude.Maps.{Map, lookup, insert}
use vpc_routing.Model.Netip.{prefix_eq}
use vpc_routing.Agent.Netlink.{
  VrfConfig, RouteConfig, AclConfig, NetlinkError, NetlinkManager, slice_of, has_prefix,
}

pub record DesiredState : Type 0 where
  pub vrfs : List VrfConfig
  pub routes : Map String (List RouteConfig)
  pub acls : Map String (List AclConfig)

-- What `NewReconciler` starts from.
abbrev pub no_desired_state : DesiredState
no_desired_state = record { vrfs = []; routes = []; acls = [] }

unfoldable pub set_desired_state : DesiredState → DesiredState → DesiredState
set_desired_state state old = state

unfoldable pub add_desired_vrf : VrfConfig → DesiredState → DesiredState
add_desired_vrf vrf d = record d { vrfs = d.vrfs ++ vrf ∷ [] }

unfoldable pub add_desired_routes : String → List RouteConfig → DesiredState → DesiredState
add_desired_routes vrf_name routes d = record d {
  routes = insert vrf_name (slice_of (lookup vrf_name d.routes) ++ routes) d.routes;
}

pub record ReconcileReport : Type 0 where
  pub vrfs_created : ℕ
  pub vrfs_deleted : ℕ
  pub routes_added : ℕ
  pub routes_removed : ℕ
  pub acls_updated : ℕ
  pub errors : List NetlinkError

abbrev pub empty_report : ReconcileReport
empty_report = record {
  vrfs_created = 0;
  vrfs_deleted = 0;
  routes_added = 0;
  routes_removed = 0;
  acls_updated = 0;
  errors = [];
}

abbrev pub one_created : ReconcileReport → ReconcileReport
one_created r = record r { vrfs_created = r.vrfs_created + 1 }

abbrev pub one_deleted : ReconcileReport → ReconcileReport
one_deleted r = record r { vrfs_deleted = r.vrfs_deleted + 1 }

abbrev pub one_added : ReconcileReport → ReconcileReport
one_added r = record r { routes_added = r.routes_added + 1 }

abbrev pub one_removed : ReconcileReport → ReconcileReport
one_removed r = record r { routes_removed = r.routes_removed + 1 }

abbrev pub one_updated : ReconcileReport → ReconcileReport
one_updated r = record r { acls_updated = r.acls_updated + 1 }

abbrev pub has_name : String → VrfConfig → Bool
has_name name v = v.name == name

-- The listing, with its error dropped.
abbrev pub listed {ℓ} : {A : Type ℓ} → Result NetlinkError (List A) → List A
listed (ok xs) = xs
listed (err e) = []

module _ (m : NetlinkManager) where
  open m use {State}

  -- The host and the report so far.
  abbrev pub Pass : Type 0
  Pass = State × ReconcileReport

  abbrev pub counted :
      (ReconcileReport → ReconcileReport)
      → State × Result NetlinkError (Unit {0})
      → ReconcileReport
      → Pass
  counted one (s, ok u) r = (s, one r)
  counted one (s, err e) r = (s, record r { errors = r.errors ++ e ∷ [] })

  -- The loops over the VRFs; a set of names is the list that it was filled from.
  unfoldable pub create_one : List VrfConfig → VrfConfig → Pass → Pass
  create_one actual v (s, r) =
      if not (any (has_name v.name) actual)
      then counted one_created (m.create_vrf v s) r
      else (s, r)

  unfoldable pub create_missing : List VrfConfig → List VrfConfig → Pass → Pass
  create_missing actual [] w = w
  create_missing actual (v ∷ vs) w = create_missing actual vs (create_one actual v w)

  unfoldable pub delete_one : List VrfConfig → VrfConfig → Pass → Pass
  delete_one desired v (s, r) =
      if not (any (has_name v.name) desired)
      then counted one_deleted (m.delete_vrf v.name s) r
      else (s, r)

  unfoldable pub delete_stale : List VrfConfig → List VrfConfig → Pass → Pass
  delete_stale desired [] w = w
  delete_stale desired (v ∷ vs) w = delete_stale desired vs (delete_one desired v w)

  -- The loops over the routes of one VRF.
  unfoldable pub add_one : List RouteConfig → RouteConfig → Pass → Pass
  add_one actual d (s, r) =
      if not (any (has_prefix d.prefix) actual)
      then counted one_added (m.add_route d s) r
      else (s, r)

  unfoldable pub add_missing : List RouteConfig → List RouteConfig → Pass → Pass
  add_missing actual [] w = w
  add_missing actual (d ∷ ds) w = add_missing actual ds (add_one actual d w)

  unfoldable pub remove_one : String → List RouteConfig → RouteConfig → Pass → Pass
  remove_one vrf_name desired a (s, r) =
      if not (any (has_prefix a.prefix) desired)
      then counted one_removed (m.delete_route vrf_name a.prefix s) r
      else (s, r)

  unfoldable pub remove_stale : String → List RouteConfig → List RouteConfig → Pass → Pass
  remove_stale vrf_name desired [] w = w
  remove_stale vrf_name desired (a ∷ as') w =
      remove_stale vrf_name desired as' (remove_one vrf_name desired a w)

  unfoldable pub reconcile_vrf : String → List RouteConfig → Pass → Pass
  reconcile_vrf vrf_name desired w =
      let actual = listed (m.list_routes vrf_name w.0) in
      remove_stale vrf_name desired actual (add_missing actual desired w)

  unfoldable pub reconcile_routes : Map String (List RouteConfig) → Pass → Pass
  reconcile_routes [] w = w
  reconcile_routes ((vrf_name, desired) ∷ rest) w =
      reconcile_routes rest (reconcile_vrf vrf_name desired w)

  unfoldable pub program_each : List AclConfig → Pass → Pass
  program_each [] w = w
  program_each (a ∷ as') (s, r) = program_each as' (counted one_updated (m.program_acl a s) r)

  unfoldable pub reconcile_acls : Map String (List AclConfig) → Pass → Pass
  reconcile_acls [] w = w
  reconcile_acls ((vrf_name, acls) ∷ rest) w = reconcile_acls rest (program_each acls w)

  unfoldable pub reconcile_vrfs : List VrfConfig → Pass → Pass
  reconcile_vrfs desired w =
      let actual = listed (m.list_vrfs w.0) in
      delete_stale desired actual (create_missing actual desired w)

  -- One pass. The snapshot of the desired state is a copy, so it is the state itself here.
  unfoldable pub reconcile : DesiredState → State → Pass
  reconcile desired s =
      reconcile_acls desired.acls
        (reconcile_routes desired.routes (reconcile_vrfs desired.vrfs (s, empty_report)))
