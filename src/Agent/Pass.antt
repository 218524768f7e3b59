-- ===== src/Agent/Pass.antt =====
-- A whole pass of internal/agent/reconciler.go over the in-memory host.
use vpc_routing.Prelude.{
  ◌≡◌, refl, sym, ap, ◌∙◌, arith, true, String, List, [], ◌∷◌, any, All, subst, ◌==◌, string_eq,
  inl, inr, Bool-cases, none, some,
}
use vpc_routing.Prelude.Maps.{Map, lookup}
use vpc_routing.Model.Netip.{Prefix}
use vpc_routing.Agent.Netlink.{
  VrfConfig, RouteConfig, AclConfig, InMemoryNetlink, exists, slice_of, has_vrf, routes_in,
  has_prefix, list_routes, program_acl, in_memory_netlink,
}
use vpc_routing.Agent.Reconciler.{
  DesiredState, empty_report, has_name, add_missing, reconcile_vrf, reconcile_routes, program_each,
  reconcile_acls, reconcile_vrfs, reconcile,
}
use vpc_routing.Agent.Host.{has_route}
use vpc_routing.Agent.Upkeep.{IsHost, program_acl-IsHost}
use vpc_routing.Agent.Convergence.{HostPass, counted-host, reconcile_vrfs-VrfsMatch}
use vpc_routing.Agent.Convergence.Tables.{Same, add_missing-Grown, remove_stale-Pruned, Same-trans}

-- The tables of a plan are for desired VRFs, one for each, and their routes name them.
abbrev pub IsPlan : List VrfConfig → Map String (List RouteConfig) → Type 0
IsPlan vrfs [] = Unit
IsPlan vrfs ((n, rs) ∷ rest) =
    (any (has_name n) vrfs ≡ true)
    × All (λ (r : RouteConfig). r.vrf_name ≡ n) rs
    × (lookup n rest ≡ none)
    × IsPlan vrfs rest

record Table (n : String) (ds : List RouteConfig) (s t : InMemoryNetlink) : Type 0 where
  pub same : Same n s t
  pub table : (p : Prefix) → has_route t n p ≡ any (has_prefix p) ds

reconcile_vrf-Table :
    (n : String) (ds : List RouteConfig) (w : HostPass)
    → IsHost w.0
    → has_vrf w.0 n ≡ true
    → All (λ (r : RouteConfig). r.vrf_name ≡ n) ds
    → Table n ds w.0 (reconcile_vrf in_memory_netlink n ds w).0
unfolding reconcile_vrf list_routes
reconcile_vrf-Table n ds w h v e =
    let actual = routes_in w.0 n in
    let u = add_missing in_memory_netlink actual ds w in
    let a = add_missing-Grown n actual ds w h v e (λ p k. k) in
    let b = remove_stale-Pruned n ds actual u a.same.host in
    record {
      same = Same-trans n w.0 u.0 _ a.same b.same;
      table = λ p. ground (arith, b.table p, a.table p);
    }

-- The tables of the plan have the desired prefixes, and the others are as before.
record Planned (plan : Map String (List RouteConfig)) (s t : InMemoryNetlink) : Type 0 where
  pub host : IsHost t
  pub vrfs : (n : String) → has_vrf t n ≡ has_vrf s n
  pub tables :
      (n : String) (rs : List RouteConfig)
      → lookup n plan ≡ some rs
      → (p : Prefix) → has_route t n p ≡ any (has_prefix p) rs
  pub others : (n : String) → lookup n plan ≡ none → routes_in t n ≡ routes_in s n

reconcile_routes-Planned :
    (vrfs : List VrfConfig) (plan : Map String (List RouteConfig)) (w : HostPass)
    → IsHost w.0
    → ((n : String) → any (has_name n) vrfs ≡ true → has_vrf w.0 n ≡ true)
    → IsPlan vrfs plan
    → Planned plan w.0 (reconcile_routes in_memory_netlink plan w).0
unfolding reconcile_routes lookup
reconcile_routes-Planned vrfs [] w h known q = record {
  host = h;
  vrfs = λ n. refl;
  tables = λ n rs k. cc;
  others = λ n k. refl;
}
reconcile_routes-Planned vrfs ((m, ds) ∷ rest) w h known (d, e, fresh, q) =
    let u = reconcile_vrf in_memory_netlink m ds w in
    let one = reconcile_vrf-Table m ds w h (known m d) e in
    let more =
      reconcile_routes-Planned vrfs rest u one.same.host (λ n k. one.same.vrfs n ∙ known n k) q in
    record {
      host = more.host;
      vrfs = λ n. more.vrfs n ∙ one.same.vrfs n;
      tables = λ n rs k p. elim (Bool-cases (m == n)) [
        | inl t ↦
            (let same : m ≡ n = (string_eq.beq_iff m n).0 t in
              let mine : ds ≡ rs = some-inj (rw t at k) in
              let kept = more.others m fresh in
              subst
                (λ (x : String).
                  has_route (reconcile_routes in_memory_netlink rest u).0 x p
                  ≡ any (has_prefix p) rs)
                same (ap (any (has_prefix p)) kept ∙ one.table p ∙ ap (any (has_prefix p)) mine))
        | inr t ↦ more.tables n rs (rw t at k) p
      ];
      others = λ n k. elim (Bool-cases (m == n)) [
        | inl t ↦ absurd (some-ne-none (rw t at k))
        | inr t ↦ more.others n (rw t at k) ∙ one.same.others n t
      ];
    }
  where
    some-inj : {a b : List RouteConfig} → some a ≡ some b → a ≡ b
    some-inj h = cc

    some-ne-none : {a : List RouteConfig} → some a ≡ none → ⊥
    some-ne-none h = cc

-- The VRFs and the routes are as before.
record Routed (s t : InMemoryNetlink) : Type 0 where
  pub host : IsHost t
  pub vrfs : t.vrfs ≡ s.vrfs
  pub routes : t.routes ≡ s.routes

program_acl-Routed : (a : AclConfig) (s : InMemoryNetlink) → IsHost s → Routed s (program_acl a s).0
program_acl-Routed a s h = record {
  host = program_acl-IsHost a s h;
  vrfs = unfold program_acl in refl;
  routes = unfold program_acl in refl;
}

program_each-Routed :
    (as' : List AclConfig) (w : HostPass)
    → IsHost w.0
    → Routed w.0 (program_each in_memory_netlink as' w).0
unfolding program_each
program_each-Routed [] w h = record { host = h; vrfs = refl; routes = refl }
program_each-Routed (a ∷ as') (s, r) h =
    let one = program_acl-Routed a s h in
    let c = counted-host _ (program_acl a s) r in
    let more = program_each-Routed as' _ (subst IsHost (sym c) one.host) in
    record {
      host = more.host;
      vrfs = more.vrfs ∙ ap (λ (x : InMemoryNetlink). x.vrfs) c ∙ one.vrfs;
      routes = more.routes ∙ ap (λ (x : InMemoryNetlink). x.routes) c ∙ one.routes;
    }

reconcile_acls-Routed :
    (plan : Map String (List AclConfig)) (w : HostPass)
    → IsHost w.0
    → Routed w.0 (reconcile_acls in_memory_netlink plan w).0
unfolding reconcile_acls
reconcile_acls-Routed [] w h = record { host = h; vrfs = refl; routes = refl }
reconcile_acls-Routed ((n, as') ∷ rest) w h =
    let one = program_each-Routed as' w h in
    let more = reconcile_acls-Routed rest (program_each in_memory_netlink as' w) one.host in
    record { host = more.host; vrfs = more.vrfs ∙ one.vrfs; routes = more.routes ∙ one.routes }

-- A host that is as desired: it has the VRFs of these names and no others, and each table of the plan
-- has routes for these prefixes and no others.
pub record IsSettled (desired : DesiredState) (t : InMemoryNetlink) : Type 0 where
  pub host : IsHost t
  pub vrfs : (n : String) → has_vrf t n ≡ any (has_name n) desired.vrfs
  pub tables :
      (n : String) (rs : List RouteConfig)
      → lookup n desired.routes ≡ some rs
      → (p : Prefix) → has_route t n p ≡ any (has_prefix p) rs

-- A pass of the agent over the in-memory host, from any host whose tables are in order, for a
-- plan with one table for each VRF at most, of desired VRFs only and with routes that name it,
-- leaves the host in order, with VRFs of the desired names and no others, and in each table of
-- the plan routes for the desired prefixes and no others.
pub reconcile-IsSettled :
    (desired : DesiredState) (s : InMemoryNetlink)
    → IsPlan desired.vrfs desired.routes
    → IsHost s
    → IsSettled desired (reconcile in_memory_netlink desired s).0
unfolding reconcile
reconcile-IsSettled desired s q h =
    let w1 = reconcile_vrfs in_memory_netlink desired.vrfs (s, empty_report) in
    let a = reconcile_vrfs-VrfsMatch desired.vrfs (s, empty_report) h in
    let w2 = reconcile_routes in_memory_netlink desired.routes w1 in
    let b =
      reconcile_routes-Planned desired.vrfs desired.routes w1 a.host (λ n k. a.vrfs n ∙ k) q in
    let c = reconcile_acls-Routed desired.acls w2 b.host in
    record {
      host = c.host;
      vrfs =
          λ n. ap (λ (m : Map String VrfConfig). exists (lookup n m)) c.vrfs ∙ b.vrfs n ∙ a.vrfs n;
      tables = λ n rs k p.
          ap (λ (m : Map String (List RouteConfig)). any (has_prefix p) (slice_of (lookup n m)))
            c.routes
          ∙ b.tables n rs k p;
    }
