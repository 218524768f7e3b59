-- ===== src/Agent/Host.antt =====
-- What each call of internal/agent/netlink.go changes on a host, and what every call keeps.
use vpc_routing.Prelude.{
  ◌≡◌, refl, ap, arith, Bool, false, ◌&&◌, ◌||◌, not, String, List, [], ◌∷◌, ◌++◌, any, ◌==◌,
  string_eq, if◌then◌else◌,
}
use vpc_routing.Prelude.Maps.{lookup, lookup-insert, lookup-delete}
use vpc_routing.Model.Netip.{Prefix, prefix_eq}
use vpc_routing.Agent.Netlink.{
  VrfConfig, RouteConfig, AclConfig, InMemoryNetlink, has_vrf, routes_in, acls_in, has_prefix,
  create_vrf, delete_vrf, add_route, delete_route, program_acl, clear_acl, without_first,
  other_acls,
}

-- A route for the prefix lies in the VRF's table.
abbrev pub has_route : InMemoryNetlink → String → Prefix → Bool
has_route s n p = any (has_prefix p) (routes_in s n)

pub has_vrf-create_vrf :
    (v : VrfConfig) (s : InMemoryNetlink) (n : String)
    → has_vrf (create_vrf v s).0 n ≡ (v.name == n || has_vrf s n)
unfolding create_vrf
has_vrf-create_vrf v s n = ground (
  arith,
  lookup-insert v.name n v s.vrfs,
  string_eq.beq_iff v.name n,
  ap (λ (k : String). lookup k s.vrfs),
)

pub routes_in-create_vrf :
    (v : VrfConfig) (s : InMemoryNetlink) (n : String)
    → routes_in (create_vrf v s).0 n ≡ routes_in s n
unfolding create_vrf
routes_in-create_vrf v s n = ground arith

pub has_vrf-delete_vrf :
    (m : String) (s : InMemoryNetlink) (n : String)
    → has_vrf (delete_vrf m s).0 n ≡ (not (m == n) && has_vrf s n)
unfolding delete_vrf
has_vrf-delete_vrf m s n = ground (arith, lookup-delete m n s.vrfs, string_eq.beq_iff m n)

pub routes_in-add_route :
    (c : RouteConfig) (s : InMemoryNetlink) (n : String)
    → routes_in (add_route c s).0 n ≡ (
        if c.vrf_name == n && has_vrf s n && not (has_route s n c.prefix)
        then routes_in s n ++ c ∷ []
        else routes_in s n)
unfolding add_route
routes_in-add_route c s n = ground (
  arith,
  lookup-insert c.vrf_name n (routes_in s c.vrf_name ++ c ∷ []) s.routes,
  string_eq.beq_iff c.vrf_name n,
)

pub vrfs-add_route : (c : RouteConfig) (s : InMemoryNetlink) → (add_route c s).0.vrfs ≡ s.vrfs
unfolding add_route
vrfs-add_route c s = ground arith

without_first-none :
    (p : Prefix) (rs : List RouteConfig) → any (has_prefix p) rs ≡ false → without_first p rs ≡ rs
unfolding without_first
without_first-none p [] h = refl
without_first-none p (r ∷ rs) h = ground (arith, without_first-none p rs)

pub routes_in-delete_route :
    (m : String) (p : Prefix) (s : InMemoryNetlink) (n : String)
    → routes_in (delete_route m p s).0 n
      ≡ (if m == n then without_first p (routes_in s n) else routes_in s n)
unfolding delete_route
routes_in-delete_route m p s n = ground (
  arith,
  lookup-insert m n (without_first p (routes_in s m)) s.routes,
  string_eq.beq_iff m n,
  without_first-none p (routes_in s m),
)

pub vrfs-delete_route :
    (m : String) (p : Prefix) (s : InMemoryNetlink) → (delete_route m p s).0.vrfs ≡ s.vrfs
unfolding delete_route
vrfs-delete_route m p s = ground arith

pub routes_in-delete_vrf :
    (m : String) (s : InMemoryNetlink) (n : String)
    → routes_in (delete_vrf m s).0 n ≡ (if m == n && has_vrf s n then [] else routes_in s n)
unfolding delete_vrf
routes_in-delete_vrf m s n = ground (arith, lookup-delete m n s.routes, string_eq.beq_iff m n)

pub acls_in-delete_vrf :
    (m : String) (s : InMemoryNetlink) (n : String)
    → acls_in (delete_vrf m s).0 n ≡ (if m == n && has_vrf s n then [] else acls_in s n)
unfolding delete_vrf
acls_in-delete_vrf m s n = ground (arith, lookup-delete m n s.acls, string_eq.beq_iff m n)

pub acls_in-program_acl :
    (c : AclConfig) (s : InMemoryNetlink) (n : String)
    → acls_in (program_acl c s).0 n
      ≡ (if c.vrf_name == n then other_acls c.peering_id (acls_in s n) ++ c ∷ [] else acls_in s n)
unfolding program_acl
acls_in-program_acl c s n = ground (
  arith,
  lookup-insert c.vrf_name n (other_acls c.peering_id (acls_in s c.vrf_name) ++ c ∷ []) s.acls,
  string_eq.beq_iff c.vrf_name n,
)

pub acls_in-clear_acl :
    (m q : String) (s : InMemoryNetlink) (n : String)
    → acls_in (clear_acl m q s).0 n ≡ (if m == n then other_acls q (acls_in s n) else acls_in s n)
unfolding clear_acl
acls_in-clear_acl m q s n =
    ground (arith, lookup-insert m n (other_acls q (acls_in s m)) s.acls, string_eq.beq_iff m n)
