-- ===== src/Agent/Upkeep.antt =====
-- What every call of internal/agent/netlink.go keeps of a host.
use vpc_routing.Prelude.{
  ◌≤◌, ◌≡◌, refl, sym, ap, ◌∙◌, subst, inl, inr, arith, false, String, List, [], ◌∷◌, ◌++◌, any,
  count_by, All, ◌==◌, string_eq, if◌then◌else◌, Bool-cases, count_by-append,
}
use vpc_routing.Prelude.Maps.{Map, lookup, insert, delete}
use vpc_routing.Model.Netip.{Prefix, prefix_eq}
use vpc_routing.Agent.Netlink.{
  VrfConfig, RouteConfig, AclConfig, InMemoryNetlink, exists, has_vrf, routes_in, acls_in,
  has_prefix, create_vrf, delete_vrf, add_route, delete_route, program_acl, clear_acl,
  without_first, other_acls,
}
use vpc_routing.Agent.Host.{
  has_vrf-create_vrf, routes_in-create_vrf, has_vrf-delete_vrf, routes_in-delete_vrf,
  acls_in-delete_vrf, routes_in-add_route, vrfs-add_route, routes_in-delete_route,
  vrfs-delete_route, acls_in-program_acl, acls_in-clear_acl,
}

abbrev pub IsNamed : Map String VrfConfig → Type 0
IsNamed = All (λ (e : String × VrfConfig). e.1.name ≡ e.0)

-- Every VRF lies under its own name, routes lie in the table that they name and only in those of VRFs
-- that exist, a table has one route for a prefix at most, and one firewall entry for a peering.
pub record IsHost (s : InMemoryNetlink) : Type 0 where
  pub named : IsNamed s.vrfs
  pub housed : (n : String) → has_vrf s n ≡ false → routes_in s n ≡ []
  pub placed : (n : String) → All (λ (r : RouteConfig). r.vrf_name ≡ n) (routes_in s n)
  pub unique : (n : String) (p : Prefix) → count_by (has_prefix p) (routes_in s n) ≤ 1
  pub one_acl : (n q : String) → count_by (λ a. a.peering_id == q) (acls_in s n) ≤ 1

insert-IsNamed :
    (v : VrfConfig) (m : Map String VrfConfig) → IsNamed m → IsNamed (insert v.name v m)
unfolding insert
insert-IsNamed v [] h = (refl, tt)
insert-IsNamed v ((j, w) ∷ m) h = ground (arith, insert-IsNamed v m h.1, string_eq.beq_iff j v.name)

delete-IsNamed : (k : String) (m : Map String VrfConfig) → IsNamed m → IsNamed (delete k m)
unfolding delete
delete-IsNamed k [] h = tt
delete-IsNamed k ((j, w) ∷ m) h = ground (arith, delete-IsNamed k m h.1)

pub create_vrf-IsHost : (v : VrfConfig) (s : InMemoryNetlink) → IsHost s → IsHost (create_vrf v s).0
create_vrf-IsHost v s h = record {
  named = unfold create_vrf in ground (arith, insert-IsNamed v s.vrfs h.named);
  housed = λ n e.
      rw (routes_in-create_vrf v s n) (h.housed n (ground (arith, has_vrf-create_vrf v s n)));
  placed = λ n. rw (routes_in-create_vrf v s n) (h.placed n);
  unique = λ n p. rw (routes_in-create_vrf v s n) (h.unique n p);
  one_acl = λ n q. unfold create_vrf in ground (arith, h.one_acl n q);
}

pub delete_vrf-IsHost : (m : String) (s : InMemoryNetlink) → IsHost s → IsHost (delete_vrf m s).0
delete_vrf-IsHost m s h = record {
  named = unfold delete_vrf in ground (arith, delete-IsNamed m s.vrfs h.named);
  housed =
      λ n e. rw (routes_in-delete_vrf m s n) (ground (arith, has_vrf-delete_vrf m s n, h.housed n));
  placed = λ n. rw (routes_in-delete_vrf m s n) (ground (arith, h.placed n));
  unique = λ n p. rw (routes_in-delete_vrf m s n) (ground (arith, h.unique n p));
  one_acl = λ n q. rw (acls_in-delete_vrf m s n) (ground (arith, h.one_acl n q));
}

count-none :
    (p : Prefix) (rs : List RouteConfig)
    → any (has_prefix p) rs ≡ false
    → count_by (has_prefix p) rs ≡ 0
count-none p [] h = refl
count-none p (r ∷ rs) h = ground (arith, count-none p rs)

-- A route for a prefix that the table lacks keeps the prefixes apart.
unique-added :
    (c : RouteConfig) (rs : List RouteConfig) (p : Prefix)
    → any (has_prefix c.prefix) rs ≡ false
    → count_by (has_prefix p) rs ≤ 1
    → count_by (has_prefix p) (rs ++ c ∷ []) ≤ 1
unique-added c rs p f u = elim (Bool-cases (c.prefix == p)) [
  | inl e ↦
      (let q : c.prefix ≡ p = (prefix_eq.beq_iff c.prefix p).0 e in
        let z = count-none p rs (subst (λ (x : Prefix). any (has_prefix x) rs ≡ false) q f) in
        ground (arith, count_by-append (has_prefix p) rs (c ∷ []), z))
  | inr e ↦ ground (arith, count_by-append (has_prefix p) rs (c ∷ []))
]

placed-added :
    (n : String) (c : RouteConfig) (rs : List RouteConfig)
    → c.vrf_name ≡ n
    → All (λ (r : RouteConfig). r.vrf_name ≡ n) rs
    → All (λ (r : RouteConfig). r.vrf_name ≡ n) (rs ++ c ∷ [])
placed-added n c [] e a = (e, tt)
placed-added n c (r ∷ rs) e a = (a.0, placed-added n c rs e a.1)

pub add_route-IsHost : (c : RouteConfig) (s : InMemoryNetlink) → IsHost s → IsHost (add_route c s).0
add_route-IsHost c s h = record {
  named = rw (vrfs-add_route c s) h.named;
  housed = λ n e. ground (
    arith,
    routes_in-add_route c s n,
    ap (λ (m : Map String VrfConfig). lookup n m) (vrfs-add_route c s),
    h.housed n,
  );
  placed = λ n. rw (routes_in-add_route c s n) (
      ground (arith, placed-added n c (routes_in s n), h.placed n, string_eq.beq_iff c.vrf_name n));
  unique = λ n p.
      rw (routes_in-add_route c s n)
        (ground (arith, unique-added c (routes_in s n) p, h.unique n p));
  one_acl = λ n q. unfold add_route in ground (arith, h.one_acl n q);
}

without_first-placed :
    (n : String) (p : Prefix) (rs : List RouteConfig)
    → All (λ (r : RouteConfig). r.vrf_name ≡ n) rs
    → All (λ (r : RouteConfig). r.vrf_name ≡ n) (without_first p rs)
unfolding without_first
without_first-placed n p [] a = tt
without_first-placed n p (r ∷ rs) a = ground (arith, without_first-placed n p rs a.1)

without_first-count :
    (q p : Prefix) (rs : List RouteConfig)
    → count_by (has_prefix q) (without_first p rs) ≤ count_by (has_prefix q) rs
unfolding without_first
without_first-count q p [] = omega arith
without_first-count q p (r ∷ rs) = ground (arith, without_first-count q p rs)

pub delete_route-IsHost :
    (m : String) (p : Prefix) (s : InMemoryNetlink) → IsHost s → IsHost (delete_route m p s).0
unfolding without_first
delete_route-IsHost m p s h = record {
  named = rw (vrfs-delete_route m p s) h.named;
  housed = λ n e.
      let k : has_vrf s n ≡ false =
        ap (λ (v : Map String VrfConfig). exists (lookup n v)) (sym (vrfs-delete_route m p s))
        ∙ e in
      rw (routes_in-delete_route m p s n) (rw (h.housed n k) (ground arith));
  placed = λ n.
      rw (routes_in-delete_route m p s n)
        (ground (arith, without_first-placed n p (routes_in s n) (h.placed n), h.placed n));
  unique = λ n q.
      rw (routes_in-delete_route m p s n)
        (ground (arith, without_first-count q p (routes_in s n), h.unique n q));
  one_acl = λ n q. unfold delete_route in ground (arith, h.one_acl n q);
}

other_acls-count :
    (p q : String) (as' : List AclConfig)
    → count_by (λ a. a.peering_id == q) (other_acls p as')
      ≡ (if p == q then 0 else count_by (λ a. a.peering_id == q) as')
other_acls-count p q [] = ground arith
other_acls-count p q (a ∷ as') = ground (
  arith,
  other_acls-count p q as',
  string_eq.beq_iff p q,
  string_eq.beq_iff a.peering_id p,
  string_eq.beq_iff a.peering_id q,
)

pub program_acl-IsHost :
    (c : AclConfig) (s : InMemoryNetlink) → IsHost s → IsHost (program_acl c s).0
program_acl-IsHost c s h = record {
  named = unfold program_acl in h.named;
  housed = unfold program_acl in h.housed;
  placed = unfold program_acl in h.placed;
  unique = unfold program_acl in h.unique;
  one_acl = λ n q. rw (acls_in-program_acl c s n) (
      ground (
        arith,
        h.one_acl n q,
        other_acls-count c.peering_id q (acls_in s n),
        count_by-append (λ (a : AclConfig). a.peering_id == q)
            (other_acls c.peering_id (acls_in s n)) (c ∷ []),
      ));
}

pub clear_acl-IsHost : (m q : String) (s : InMemoryNetlink) → IsHost s → IsHost (clear_acl m q s).0
clear_acl-IsHost m q s h = record {
  named = unfold clear_acl in h.named;
  housed = unfold clear_acl in h.housed;
  placed = unfold clear_acl in h.placed;
  unique = unfold clear_acl in h.unique;
  one_acl = λ n p.
      rw (acls_in-clear_acl m q s n)
        (ground (arith, h.one_acl n p, other_acls-count q p (acls_in s n)));
}
