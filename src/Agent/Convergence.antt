-- ===== src/Agent/Convergence.antt =====
-- One pass of internal/agent/reconciler.go over the in-memory host: first the VRFs.
pub mod Tables
use vpc_routing.Prelude.{
  ◌≡◌, refl, sym, ap, ◌∙◌, arith, Bool, true, false, ◌&&◌, ◌||◌, not, String, List, [], ◌∷◌, any,
  Result, ok, err, ◌==◌, string_eq, if◌then◌else◌, inl, inr, Bool-cases,
}
use vpc_routing.Prelude.Maps.{Map, lookup, values}
use vpc_routing.Agent.Netlink.{
  VrfConfig, InMemoryNetlink, NetlinkError, exists, has_vrf, routes_in, create_vrf, delete_vrf,
  list_vrfs, in_memory_netlink,
}
use vpc_routing.Agent.Reconciler.{
  ReconcileReport, Pass, counted, has_name, create_one, create_missing, delete_one, delete_stale,
  reconcile_vrfs,
}
use vpc_routing.Agent.Host.{
  has_vrf-create_vrf, routes_in-create_vrf, has_vrf-delete_vrf, routes_in-delete_vrf,
}
use vpc_routing.Agent.Upkeep.{IsNamed, IsHost, create_vrf-IsHost, delete_vrf-IsHost}

-- A pass over the in-memory host.
abbrev pub HostPass : Type 0
HostPass = InMemoryNetlink × ReconcileReport

pub counted-host :
    (one : ReconcileReport → ReconcileReport) (o : InMemoryNetlink × Result NetlinkError (Unit {0}))
    (r : ReconcileReport)
    → (counted in_memory_netlink one o r).0 ≡ o.0
counted-host one (s, ok u) r = refl
counted-host one (s, err e) r = refl

create_one-host :
    (actual : List VrfConfig) (v : VrfConfig) (w : HostPass)
    → (create_one in_memory_netlink actual v w).0
      ≡ (if any (has_name v.name) actual then w.0 else (create_vrf v w.0).0)
unfolding create_one
create_one-host actual v (s, r) = elim (Bool-cases (any (has_name v.name) actual)) [
  | inl e ↦ rw e refl
  | inr e ↦ rw e (counted-host _ (create_vrf v s) r)
]

delete_one-host :
    (desired : List VrfConfig) (v : VrfConfig) (w : HostPass)
    → (delete_one in_memory_netlink desired v w).0
      ≡ (if any (has_name v.name) desired then w.0 else (delete_vrf v.name w.0).0)
unfolding delete_one
delete_one-host desired v (s, r) = elim (Bool-cases (any (has_name v.name) desired)) [
  | inl e ↦ rw e refl
  | inr e ↦ rw e (counted-host _ (delete_vrf v.name s) r)
]

-- The VRFs `vs` are on the host, with those that were there; the routes are as before.
record Created (vs : List VrfConfig) (s t : InMemoryNetlink) : Type 0 where
  pub host : IsHost t
  pub vrfs : (n : String) → has_vrf t n ≡ (any (has_name n) vs || has_vrf s n)
  pub routes : (n : String) → routes_in t n ≡ routes_in s n

create_one-Created :
    (actual : List VrfConfig) (v : VrfConfig) (s : InMemoryNetlink)
    → IsHost s
    → ((n : String) → any (has_name n) actual ≡ true → has_vrf s n ≡ true)
    → Created (v ∷ []) s (if any (has_name v.name) actual then s else (create_vrf v s).0)
create_one-Created actual v s h known = elim (Bool-cases (any (has_name v.name) actual)) [
  | inl e ↦ rw e (record {
    host = h;
    vrfs = λ n. ground (arith, known v.name e, string_eq.beq_iff v.name n);
    routes = λ n. refl;
  })
  | inr e ↦ rw e (record {
    host = create_vrf-IsHost v s h;
    vrfs = λ n. ground (arith, has_vrf-create_vrf v s n);
    routes = routes_in-create_vrf v s;
  })
]

create_missing-Created :
    (actual vs : List VrfConfig) (w : HostPass)
    → IsHost w.0
    → ((n : String) → any (has_name n) actual ≡ true → has_vrf w.0 n ≡ true)
    → Created vs w.0 (create_missing in_memory_netlink actual vs w).0
unfolding create_missing
create_missing-Created actual [] w h known = record {
  host = h;
  vrfs = λ n. refl;
  routes = λ n. refl;
}
create_missing-Created actual (v ∷ vs) w h known =
    let e = create_one-host actual v w in
    let one : Created (v ∷ []) w.0 (create_one in_memory_netlink actual v w).0 =
      rw e (create_one-Created actual v w.0 h known) in
    let rest =
      create_missing-Created actual vs (create_one in_memory_netlink actual v w) one.host
        (λ n k. ground (arith, one.vrfs n, known n)) in
    record {
      host = rest.host;
      vrfs = λ n. ground (arith, rest.vrfs n, one.vrfs n);
      routes = λ n. rest.routes n ∙ one.routes n;
    }

-- Of the VRFs `vs` those that are not desired are gone; a VRF that is left has its routes.
record Cleared (desired vs : List VrfConfig) (s t : InMemoryNetlink) : Type 0 where
  pub host : IsHost t
  pub vrfs :
      (n : String)
      → has_vrf t n ≡ (has_vrf s n && (any (has_name n) desired || not (any (has_name n) vs)))
  pub routes : (n : String) → has_vrf t n ≡ true → routes_in t n ≡ routes_in s n

delete_one-Cleared :
    (desired : List VrfConfig) (v : VrfConfig) (s : InMemoryNetlink)
    → IsHost s
    → Cleared desired
        (v ∷ [])
        s
        (if any (has_name v.name) desired then s else (delete_vrf v.name s).0)
delete_one-Cleared desired v s h = elim (Bool-cases (any (has_name v.name) desired)) [
  | inl e ↦ rw e (record {
    host = h;
    vrfs = λ n.
        ground (arith, ap (λ (m : String). any (has_name m) desired), string_eq.beq_iff v.name n);
    routes = λ n k. refl;
  })
  | inr e ↦ rw e (record {
    host = delete_vrf-IsHost v.name s h;
    vrfs = λ n. ground (arith, has_vrf-delete_vrf v.name s n, string_eq.beq_iff v.name n);
    routes = λ n k. ground (arith, has_vrf-delete_vrf v.name s n, routes_in-delete_vrf v.name s n);
  })
]

delete_stale-Cleared :
    (desired vs : List VrfConfig) (w : HostPass)
    → IsHost w.0
    → Cleared desired vs w.0 (delete_stale in_memory_netlink desired vs w).0
unfolding delete_stale
delete_stale-Cleared desired [] w h = record {
  host = h;
  vrfs = λ n. ground arith;
  routes = λ n k. refl;
}
delete_stale-Cleared desired (v ∷ vs) w h =
    let e = delete_one-host desired v w in
    let one : Cleared desired (v ∷ []) w.0 (delete_one in_memory_netlink desired v w).0 =
      rw e (delete_one-Cleared desired v w.0 h) in
    let rest =
      delete_stale-Cleared desired vs (delete_one in_memory_netlink desired v w) one.host in
    record {
      host = rest.host;
      vrfs = λ n. ground (arith, rest.vrfs n, one.vrfs n);
      routes = λ n k. rest.routes n k ∙ one.routes n (ground (arith, rest.vrfs n));
    }

pub any-values :
    (m : Map String VrfConfig) (n : String)
    → IsNamed m
    → any (has_name n) (values m) ≡ exists (lookup n m)
unfolding lookup
any-values [] n h = refl
any-values ((j, v) ∷ m) n h = ground (arith, any-values m n h.1, h.0)

-- The VRFs of the host are the desired ones, and those that were there keep their routes.
pub record VrfsMatch (desired : List VrfConfig) (s t : InMemoryNetlink) : Type 0 where
  pub host : IsHost t
  pub vrfs : (n : String) → has_vrf t n ≡ any (has_name n) desired
  pub routes : (n : String) → has_vrf t n ≡ true → routes_in t n ≡ routes_in s n

pub reconcile_vrfs-VrfsMatch :
    (desired : List VrfConfig) (w : HostPass)
    → IsHost w.0
    → VrfsMatch desired w.0 (reconcile_vrfs in_memory_netlink desired w).0
unfolding reconcile_vrfs list_vrfs
reconcile_vrfs-VrfsMatch desired w h =
    let actual = values w.0.vrfs in
    let u = create_missing in_memory_netlink actual desired w in
    let a =
      create_missing-Created actual desired w h (λ n k. sym (any-values w.0.vrfs n h.named) ∙ k) in
    let b = delete_stale-Cleared desired actual u a.host in
    record {
      host = b.host;
      vrfs = λ n. ground (arith, b.vrfs n, a.vrfs n, any-values w.0.vrfs n h.named);
      routes = λ n k. b.routes n k ∙ a.routes n;
    }
