-- ===== src/Bgp/Stale.antt =====
-- What the route tables of internal/bgp/service.go show after a withdrawal.
use vpc_routing.Prelude.{
  ◌≡◌, refl, sym, inl, inr, some, String, List, [], ◌∷◌, ◌++◌, In, In-append, Bool, true, false,
  ◌==◌, string_eq, subst, beq_eq, beq_refl, if◌then◌else◌,
}
use vpc_routing.Prelude.Maps.{Map, lookup, insert, lookup-insert}
use vpc_routing.Model.Netip.{Prefix}
use vpc_routing.Bgp.Evpn.{EvpnType5Route}
use vpc_routing.Bgp.Service.{
  InMemoryService, RouteTableEntry, or_nil, table_entry, add_to_table, inject_routes,
  withdraw_routes, get_route_table,
}

abbrev Tables : Type 0
Tables = Map String (List RouteTableEntry)

-- The table after one more entry.
abbrev added : EvpnType5Route → Tables → Tables
added r t = insert r.rd (or_nil (lookup r.rd t) ++ table_entry r ∷ []) t

added-kept :
    (e : RouteTableEntry) (k : String) (r : EvpnType5Route) (t : Tables)
    → In e (or_nil (lookup k t))
    → In e (or_nil (lookup k (added r t)))
added-kept e k r t m =
    rw (lookup-insert r.rd k (or_nil (lookup r.rd t) ++ table_entry r ∷ []) t) (at (r.rd == k) refl)
  where
    at :
        (b : Bool)
        → (r.rd == k) ≡ b
        → In e
            (or_nil (if b then some (or_nil (lookup r.rd t) ++ table_entry r ∷ []) else lookup k t))
    at true q =
        (In-append e (or_nil (lookup r.rd t)) (table_entry r ∷ [])).1
          (inl (subst (λ (n : String). In e (or_nil (lookup n t))) (sym (beq_eq r.rd k q)) m))
    at false q = m

added-new :
    (r : EvpnType5Route) (t : Tables) → In (table_entry r) (or_nil (lookup r.rd (added r t)))
added-new r t =
    rw (lookup-insert r.rd r.rd (or_nil (lookup r.rd t) ++ table_entry r ∷ []) t, beq_refl r.rd)
      ((In-append (table_entry r) (or_nil (lookup r.rd t)) (table_entry r ∷ [])).1 (inr (inl refl)))

add_to_table-kept :
    (e : RouteTableEntry) (k : String) (rs : List EvpnType5Route) (t : Tables)
    → In e (or_nil (lookup k t))
    → In e (or_nil (lookup k (add_to_table rs t)))
unfolding add_to_table
add_to_table-kept e k [] t m = m
add_to_table-kept e k (r ∷ rs) t m = add_to_table-kept e k rs (added r t) (added-kept e k r t m)

add_to_table-new :
    (r : EvpnType5Route) (rs : List EvpnType5Route) (t : Tables)
    → In r rs
    → In (table_entry r) (or_nil (lookup r.rd (add_to_table rs t)))
unfolding add_to_table
add_to_table-new r [] t m = absurd m
add_to_table-new r (s ∷ rs) t (inl q) =
    rw q (add_to_table-kept (table_entry s) s.rd rs (added s t) (added-new s t))
add_to_table-new r (s ∷ rs) t (inr m) = add_to_table-new r rs (added s t) m

-- Every route that `InjectRoutes` has taken is an active entry of the table of its route
-- distinguisher, and stays one when `WithdrawRoutes` then takes any prefixes back, its own
-- included.
pub get_route_table-withdraw_routes :
    (s : InMemoryService) (vpc : String) (rs : List EvpnType5Route) (ps : List Prefix)
    (r : EvpnType5Route)
    → In r rs
    → In
        (table_entry r)
        (get_route_table (withdraw_routes vpc ps (inject_routes vpc rs s).0).0 r.rd)
unfolding get_route_table withdraw_routes inject_routes
get_route_table-withdraw_routes s vpc rs ps r m = add_to_table-new r rs s.route_table m
