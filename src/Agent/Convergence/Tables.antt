-- ===== src/Agent/Convergence/Tables.antt =====
-- One pass of internal/agent/reconciler.go over the in-memory host: the routes of each VRF.
use vpc_routing.Prelude.{
  ◌≤◌, ◌≡◌, refl, ap, ◌∙◌, arith, true, false, ◌&&◌, ◌||◌, not, String, List, [], ◌∷◌, ◌++◌, any,
  All, subst, count_by, ◌==◌, string_eq, if◌then◌else◌, inl, inr, Bool-cases,
}
use vpc_routing.Prelude.Maps.{Map, lookup}
use vpc_routing.Model.Netip.{Prefix, prefix_eq}
use vpc_routing.Agent.Netlink.{
  VrfConfig, RouteConfig, InMemoryNetlink, exists, has_vrf, routes_in, has_prefix, add_route,
  delete_route, without_first, in_memory_netlink,
}
use vpc_routing.Agent.Reconciler.{add_one, add_missing, remove_one, remove_stale}
use vpc_routing.Agent.Host.{
  has_route, routes_in-add_route, vrfs-add_route, routes_in-delete_route, vrfs-delete_route,
}
use vpc_routing.Agent.Upkeep.{IsHost, add_route-IsHost, delete_route-IsHost}
use vpc_routing.Agent.Convergence.{HostPass, counted-host}

add_one-host :
    (actual : List RouteConfig) (d : RouteConfig) (w : HostPass)
    → (add_one in_memory_netlink actual d w).0
      ≡ (if any (has_prefix d.prefix) actual then w.0 else (add_route d w.0).0)
unfolding add_one
add_one-host actual d (s, r) = elim (Bool-cases (any (has_prefix d.prefix) actual)) [
  | inl e ↦ rw e refl
  | inr e ↦ rw e (counted-host _ (add_route d s) r)
]

remove_one-host :
    (n : String) (desired : List RouteConfig) (a : RouteConfig) (w : HostPass)
    → (remove_one in_memory_netlink n desired a w).0
      ≡ (if any (has_prefix a.prefix) desired then w.0 else (delete_route n a.prefix w.0).0)
unfolding remove_one
remove_one-host n desired a (s, r) = elim (Bool-cases (any (has_prefix a.prefix) desired)) [
  | inl e ↦ rw e refl
  | inr e ↦ rw e (counted-host _ (delete_route n a.prefix s) r)
]

any-append :
    (p : Prefix) (rs : List RouteConfig) (c : RouteConfig)
    → any (has_prefix p) (rs ++ c ∷ []) ≡ (c.prefix == p || any (has_prefix p) rs)
any-append p [] c = ground arith
any-append p (r ∷ rs) c = ground (arith, any-append p rs c)

absent :
    (p : Prefix) (rs : List RouteConfig)
    → count_by (has_prefix p) rs ≤ 0
    → any (has_prefix p) rs ≡ false
absent p [] h = refl
absent p (r ∷ rs) h = ground (arith, absent p rs)

any-without_first :
    (q p : Prefix) (rs : List RouteConfig)
    → count_by (has_prefix p) rs ≤ 1
    → any (has_prefix q) (without_first p rs) ≡ (any (has_prefix q) rs && not (p == q))
unfolding without_first
any-without_first q p [] h = refl
any-without_first q p (r ∷ rs) h = elim (Bool-cases (r.prefix == p)) [
  | inl e ↦
      (let same : r.prefix ≡ p = (prefix_eq.beq_iff r.prefix p).0 e in
        let gone = absent p rs (ground arith) in
        let gone_q = λ (k : p ≡ q). subst (λ (x : Prefix). any (has_prefix x) rs ≡ false) k gone in
        rw e (elim (Bool-cases (p == q)) [
          | inl t ↦ ground (arith, gone_q ((prefix_eq.beq_iff p q).0 t))
          | inr t ↦ ground (arith, ap (λ (x : Prefix). x == q) same)
        ]))
  | inr e ↦ rw e (elim (Bool-cases (p == q)) [
    | inl t ↦ ground (
      arith,
      any-without_first q p rs,
      ap (λ (x : Prefix). r.prefix == x) ((prefix_eq.beq_iff p q).0 t),
    )
    | inr t ↦ ground (arith, any-without_first q p rs)
  ])
]

-- Only the table of `n` has changed.
pub record Same (n : String) (s t : InMemoryNetlink) : Type 0 where
  pub host : IsHost t
  pub vrfs : (m : String) → has_vrf t m ≡ has_vrf s m
  pub others : (m : String) → (n == m) ≡ false → routes_in t m ≡ routes_in s m

pub Same-refl : (n : String) (s : InMemoryNetlink) → IsHost s → Same n s s
Same-refl n s h = record { host = h; vrfs = λ m. refl; others = λ m e. refl }

pub Same-trans : (n : String) (s t u : InMemoryNetlink) → Same n s t → Same n t u → Same n s u
Same-trans n s t u a b = record {
  host = b.host;
  vrfs = λ m. b.vrfs m ∙ a.vrfs m;
  others = λ m e. b.others m e ∙ a.others m e;
}

add_route-Same :
    (n : String) (d : RouteConfig) (s : InMemoryNetlink)
    → IsHost s
    → d.vrf_name ≡ n
    → Same n s (add_route d s).0
add_route-Same n d s h e = record {
  host = add_route-IsHost d s h;
  vrfs = λ m. ap (λ (v : Map String VrfConfig). exists (lookup m v)) (vrfs-add_route d s);
  others = λ m k. ground (arith, routes_in-add_route d s m, ap (λ (x : String). x == m) e);
}

delete_route-Same :
    (n : String) (p : Prefix) (s : InMemoryNetlink) → IsHost s → Same n s (delete_route n p s).0
delete_route-Same n p s h = record {
  host = delete_route-IsHost n p s h;
  vrfs = λ m. ap (λ (v : Map String VrfConfig). exists (lookup m v)) (vrfs-delete_route n p s);
  others = λ m k. ground (arith, routes_in-delete_route n p s m);
}

has_route-add_route :
    (d : RouteConfig) (s : InMemoryNetlink) (p : Prefix)
    → has_vrf s d.vrf_name ≡ true
    → has_route (add_route d s).0 d.vrf_name p ≡ (d.prefix == p || has_route s d.vrf_name p)
has_route-add_route d s p v =
    ap (any (has_prefix p)) (routes_in-add_route d s d.vrf_name)
    ∙ ground (
      arith,
      any-append p (routes_in s d.vrf_name) d,
      string_eq.beq_iff d.vrf_name d.vrf_name,
      prefix_eq.beq_iff d.prefix p,
      ap (λ (x : Prefix). any (has_prefix x) (routes_in s d.vrf_name)),
    )

has_route-delete_route :
    (n : String) (p : Prefix) (s : InMemoryNetlink) (q : Prefix)
    → IsHost s
    → has_route (delete_route n p s).0 n q ≡ (has_route s n q && not (p == q))
has_route-delete_route n p s q h =
    ap (any (has_prefix q)) (routes_in-delete_route n p s n)
    ∙ ground (arith, any-without_first q p (routes_in s n) (h.unique n p), string_eq.beq_iff n n)

-- The table of `n` has the prefixes of `ds` and those that it had.
pub record Grown (n : String) (ds : List RouteConfig) (s t : InMemoryNetlink) : Type 0 where
  pub same : Same n s t
  pub table : (p : Prefix) → has_route t n p ≡ (any (has_prefix p) ds || has_route s n p)

add_one-Grown :
    (n : String) (actual : List RouteConfig) (d : RouteConfig) (s : InMemoryNetlink)
    → IsHost s
    → has_vrf s n ≡ true
    → d.vrf_name ≡ n
    → ((p : Prefix) → any (has_prefix p) actual ≡ true → has_route s n p ≡ true)
    → Grown n (d ∷ []) s (if any (has_prefix d.prefix) actual then s else (add_route d s).0)
add_one-Grown n actual d s h v e known = elim (Bool-cases (any (has_prefix d.prefix) actual)) [
  | inl k ↦ rw k (record {
    same = Same-refl n s h;
    table = λ p. ground (
      arith,
      known d.prefix k,
      prefix_eq.beq_iff d.prefix p,
      ap (λ (x : Prefix). has_route s n x),
    );
  })
  | inr k ↦ rw k (record {
    same = add_route-Same n d s h e;
    table = λ p.
        subst
          (λ (m : String).
            has_vrf s m ≡ true
            → has_route (add_route d s).0 m p ≡ (any (has_prefix p) (d ∷ []) || has_route s m p))
          e (λ w. ground (arith, has_route-add_route d s p w)) v;
  })
]

pub add_missing-Grown :
    (n : String) (actual ds : List RouteConfig) (w : HostPass)
    → IsHost w.0
    → has_vrf w.0 n ≡ true
    → All (λ (d : RouteConfig). d.vrf_name ≡ n) ds
    → ((p : Prefix) → any (has_prefix p) actual ≡ true → has_route w.0 n p ≡ true)
    → Grown n ds w.0 (add_missing in_memory_netlink actual ds w).0
unfolding add_missing
add_missing-Grown n actual [] w h v e known = record { same = Same-refl n w.0 h; table = λ p. refl }
add_missing-Grown n actual (d ∷ ds) w h v e known =
    let u = add_one in_memory_netlink actual d w in
    let one : Grown n (d ∷ []) w.0 u.0 =
      rw (add_one-host actual d w) (add_one-Grown n actual d w.0 h v e.0 known) in
    let rest =
      add_missing-Grown n actual ds u one.same.host (one.same.vrfs n ∙ v) e.1
        (λ p k. ground (arith, one.table p, known p)) in
    record {
      same = Same-trans n w.0 u.0 _ one.same rest.same;
      table = λ p. ground (arith, rest.table p, one.table p);
    }

-- Of the prefixes `as'` those that are not desired have left the table of `n`.
pub record Pruned (n : String) (desired as' : List RouteConfig) (s t : InMemoryNetlink)
    : Type 0 where
  pub same : Same n s t
  pub table :
      (p : Prefix)
      → has_route t n p
        ≡ (has_route s n p && (any (has_prefix p) desired || not (any (has_prefix p) as')))

remove_one-Pruned :
    (n : String) (desired : List RouteConfig) (a : RouteConfig) (s : InMemoryNetlink)
    → IsHost s
    → Pruned n desired
        (a ∷ [])
        s
        (if any (has_prefix a.prefix) desired then s else (delete_route n a.prefix s).0)
remove_one-Pruned n desired a s h = elim (Bool-cases (any (has_prefix a.prefix) desired)) [
  | inl k ↦ rw k (record {
    same = Same-refl n s h;
    table = λ p.
        ground
          (arith, prefix_eq.beq_iff a.prefix p, ap (λ (x : Prefix). any (has_prefix x) desired));
  })
  | inr k ↦ rw k (record {
    same = delete_route-Same n a.prefix s h;
    table = λ p. ground (
      arith,
      has_route-delete_route n a.prefix s p h,
      prefix_eq.beq_iff a.prefix p,
      ap (λ (x : Prefix). any (has_prefix x) desired),
    );
  })
]

pub remove_stale-Pruned :
    (n : String) (desired as' : List RouteConfig) (w : HostPass)
    → IsHost w.0
    → Pruned n desired as' w.0 (remove_stale in_memory_netlink n desired as' w).0
unfolding remove_stale
remove_stale-Pruned n desired [] w h = record {
  same = Same-refl n w.0 h;
  table = λ p. ground arith;
}
remove_stale-Pruned n desired (a ∷ as') w h =
    let u = remove_one in_memory_netlink n desired a w in
    let one : Pruned n desired (a ∷ []) w.0 u.0 =
      rw (remove_one-host n desired a w) (remove_one-Pruned n desired a w.0 h) in
    let rest = remove_stale-Pruned n desired as' u one.same.host in
    record {
      same = Same-trans n w.0 u.0 _ one.same rest.same;
      table = λ p. ground (arith, rest.table p, one.table p);
    }
