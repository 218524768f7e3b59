-- ===== src/Agent/Quiet.antt =====
-- A second pass of internal/agent/reconciler.go over a host that is as desired.
use vpc_routing.Prelude.{
  ℕ, ◌+◌, ◌≡◌, refl, sym, ap, ◌∙◌, arith, true, String, List, [], ◌∷◌, any, any_intro, All, In-All,
  subst, length, ◌==◌, string_eq, beq_refl, if◌then◌else◌, inl, inr, Bool-cases, none, some,
}
use vpc_routing.Prelude.Maps.{Map, lookup, values}
use vpc_routing.Model.Netip.{Prefix, prefix_eq}
use vpc_routing.Agent.Netlink.{
  VrfConfig, RouteConfig, AclConfig, InMemoryNetlink, has_vrf, routes_in, has_prefix, list_routes,
  list_vrfs, program_acl, in_memory_netlink,
}
use vpc_routing.Agent.Reconciler.{
  DesiredState, ReconcileReport, empty_report, has_name, create_one, create_missing, delete_one,
  delete_stale, add_one, add_missing, remove_one, remove_stale, reconcile_vrf, reconcile_routes,
  program_each, reconcile_acls, reconcile_vrfs, reconcile,
}
use vpc_routing.Agent.Host.{has_route}
use vpc_routing.Agent.Upkeep.{IsHost}
use vpc_routing.Agent.Convergence.{HostPass, any-values}
use vpc_routing.Agent.Pass.{IsPlan, IsSettled}

-- Each element's name is among the names.
named_self : (vs : List VrfConfig) → All (λ (v : VrfConfig). any (has_name v.name) vs ≡ true) vs
named_self vs =
    In-All (λ v. any (has_name v.name) vs ≡ true) vs
      (λ v m. any_intro (has_name v.name) vs v m (beq_refl v.name))

prefix_self :
    (rs : List RouteConfig) → All (λ (r : RouteConfig). any (has_prefix r.prefix) rs ≡ true) rs
prefix_self rs =
    In-All (λ r. any (has_prefix r.prefix) rs ≡ true) rs
      (λ r m. any_intro (has_prefix r.prefix) rs r m (beq_refl r.prefix))

All_map :
    {A : Type 0} (P Q : A → Type 0) (xs : List A) → ((x : A) → P x → Q x) → All P xs → All Q xs
All_map P Q [] f a = tt
All_map P Q (x ∷ xs) f a = (f x a.0, All_map P Q xs f a.1)

create_missing_none :
    (actual vs : List VrfConfig) (w : HostPass)
    → All (λ (v : VrfConfig). any (has_name v.name) actual ≡ true) vs
    → create_missing in_memory_netlink actual vs w ≡ w
unfolding create_missing create_one
create_missing_none actual [] w a = refl
create_missing_none actual (v ∷ vs) (s, r) a = rw (a.0) (create_missing_none actual vs (s, r) a.1)

delete_stale_none :
    (desired vs : List VrfConfig) (w : HostPass)
    → All (λ (v : VrfConfig). any (has_name v.name) desired ≡ true) vs
    → delete_stale in_memory_netlink desired vs w ≡ w
unfolding delete_stale delete_one
delete_stale_none desired [] w a = refl
delete_stale_none desired (v ∷ vs) (s, r) a = rw (a.0) (delete_stale_none desired vs (s, r) a.1)

add_missing_none :
    (actual ds : List RouteConfig) (w : HostPass)
    → All (λ (d : RouteConfig). any (has_prefix d.prefix) actual ≡ true) ds
    → add_missing in_memory_netlink actual ds w ≡ w
unfolding add_missing add_one
add_missing_none actual [] w a = refl
add_missing_none actual (d ∷ ds) (s, r) a = rw (a.0) (add_missing_none actual ds (s, r) a.1)

remove_stale_none :
    (n : String) (desired as' : List RouteConfig) (w : HostPass)
    → All (λ (d : RouteConfig). any (has_prefix d.prefix) desired ≡ true) as'
    → remove_stale in_memory_netlink n desired as' w ≡ w
unfolding remove_stale remove_one
remove_stale_none n desired [] w a = refl
remove_stale_none n desired (d ∷ as') (s, r) a =
    rw (a.0) (remove_stale_none n desired as' (s, r) a.1)

reconcile_vrfs_none :
    (desired : List VrfConfig) (w : HostPass)
    → IsHost w.0
    → ((n : String) → has_vrf w.0 n ≡ any (has_name n) desired)
    → reconcile_vrfs in_memory_netlink desired w ≡ w
unfolding reconcile_vrfs list_vrfs
reconcile_vrfs_none desired w h e =
    let actual = values w.0.vrfs in
    let same = λ (n : String). any-values w.0.vrfs n h.named ∙ e n in
    ap (delete_stale in_memory_netlink desired actual) (
      create_missing_none actual desired w
        (All_map _ _ desired (λ v k. same v.name ∙ k) (named_self desired)))
    ∙ delete_stale_none desired actual w
        (All_map _ _ actual (λ v k. sym (same v.name) ∙ k) (named_self actual))

reconcile_vrf_none :
    (n : String) (ds : List RouteConfig) (w : HostPass)
    → ((p : Prefix) → has_route w.0 n p ≡ any (has_prefix p) ds)
    → reconcile_vrf in_memory_netlink n ds w ≡ w
unfolding reconcile_vrf list_routes
reconcile_vrf_none n ds w e =
    let actual = routes_in w.0 n in
    ap (remove_stale in_memory_netlink n ds actual)
      (add_missing_none actual ds w (All_map _ _ ds (λ d k. e d.prefix ∙ k) (prefix_self ds)))
    ∙ remove_stale_none n ds actual w
        (All_map _ _ actual (λ d k. sym (e d.prefix) ∙ k) (prefix_self actual))

reconcile_routes_none :
    (vrfs : List VrfConfig) (plan : Map String (List RouteConfig)) (w : HostPass)
    → IsPlan vrfs plan
    → ((n : String) (rs : List RouteConfig)
        → lookup n plan ≡ some rs
        → (p : Prefix) → has_route w.0 n p ≡ any (has_prefix p) rs)
    → reconcile_routes in_memory_netlink plan w ≡ w
unfolding reconcile_routes lookup
reconcile_routes_none vrfs [] w q e = refl
reconcile_routes_none vrfs ((m, ds) ∷ rest) w (d, l, fresh, q) e =
    ap (reconcile_routes in_memory_netlink rest)
      (reconcile_vrf_none m ds w (e m ds (rw (beq_refl m) refl)))
    ∙ reconcile_routes_none vrfs rest w q (λ n rs k. e n rs (later n rs k))
  where
    later :
        (n : String) (rs : List RouteConfig)
        → lookup n rest ≡ some rs
        → (if m == n then some ds else lookup n rest) ≡ some rs
    later n rs k = elim (Bool-cases (m == n)) [
      | inl t ↦ absurd (
          none-ne-some
            (sym fresh ∙ ap (λ (x : String). lookup x rest) ((string_eq.beq_iff m n).0 t) ∙ k))
      | inr t ↦ rw t k
    ]
      where
        none-ne-some : none ≡ some rs → ⊥
        none-ne-some h = cc

-- How many firewall entries are desired.
abbrev pub acl_total : Map String (List AclConfig) → ℕ
acl_total [] = 0
acl_total ((n, as') ∷ rest) = length as' + acl_total rest

-- The host's VRFs and routes, and the report with `n` more updates of the firewall.
record Counted (n : ℕ) (w u : HostPass) : Type 0 where
  pub vrfs : u.0.vrfs ≡ w.0.vrfs
  pub routes : u.0.routes ≡ w.0.routes
  pub report : u.1 ≡ record (w.1) { acls_updated = w.1.acls_updated + n }

program_each-Counted :
    (as' : List AclConfig) (w : HostPass)
    → Counted (length as') w (program_each in_memory_netlink as' w)
unfolding program_each program_acl
program_each-Counted [] (s, r) = record { vrfs = refl; routes = refl; report = ground arith }
program_each-Counted (a ∷ as') (s, r) =
    let more = program_each-Counted as' _ in
    record { vrfs = more.vrfs; routes = more.routes; report = more.report ∙ ground arith }

reconcile_acls-Counted :
    (plan : Map String (List AclConfig)) (w : HostPass)
    → Counted (acl_total plan) w (reconcile_acls in_memory_netlink plan w)
unfolding reconcile_acls
reconcile_acls-Counted [] (s, r) = record { vrfs = refl; routes = refl; report = ground arith }
reconcile_acls-Counted ((n, as') ∷ rest) w =
    let one = program_each-Counted as' w in
    let more = reconcile_acls-Counted rest (program_each in_memory_netlink as' w) in
    record {
      vrfs = more.vrfs ∙ one.vrfs;
      routes = more.routes ∙ one.routes;
      report =
          more.report
          ∙ ap
              (λ (r : ReconcileReport). record r { acls_updated = r.acls_updated + acl_total rest })
              one.report
          ∙ ground arith;
    }

-- A pass that found nothing to correct: the VRFs and the routes are as they were, and the report
-- counts the firewall entries that it programmed again, nothing else, and no error.
pub record IsQuiet (desired : DesiredState) (s : InMemoryNetlink) (w : HostPass) : Type 0 where
  pub vrfs : w.0.vrfs ≡ s.vrfs
  pub routes : w.0.routes ≡ s.routes
  pub report : w.1 ≡ record empty_report { acls_updated = acl_total desired.acls }

-- A pass of the agent for such a plan, over an in-memory host that already is as desired,
-- changes neither its VRFs nor its routes, and reports no error and nothing but the firewall
-- entries that it programs again.
pub reconcile-IsQuiet :
    (desired : DesiredState) (s : InMemoryNetlink)
    → IsPlan desired.vrfs desired.routes
    → IsSettled desired s
    → IsQuiet desired s (reconcile in_memory_netlink desired s)
unfolding reconcile
reconcile-IsQuiet desired s q t =
    let c = reconcile_acls-Counted desired.acls (s, empty_report) in
    let e =
      ap (reconcile_routes in_memory_netlink desired.routes)
        (reconcile_vrfs_none desired.vrfs (s, empty_report) t.host t.vrfs)
      ∙ reconcile_routes_none desired.vrfs desired.routes (s, empty_report) q t.tables in
    subst (λ (w : HostPass). IsQuiet desired s (reconcile_acls in_memory_netlink desired.acls w))
      (sym e) (record { vrfs = c.vrfs; routes = c.routes; report = c.report ∙ ground arith })
