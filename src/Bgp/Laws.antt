-- ===== src/Bgp/Laws.antt =====
-- What `InMemoryService` keeps of the route targets and the routes that it is given.
use vpc_routing.Prelude.{
  ℕ, ◌+◌, ◌-◌, ◌≡◌, refl, sym, ◌∙◌, ap, ◌↔◌, inl, inr, arith, Bool, true, false, not, ◌&&◌, String,
  List, [], ◌∷◌, if◌then◌else◌, ◌==◌, string_eq, any, keep, count_by, count_by-append, length, ok,
  In, In-keep, Bool-cases, beq_refl, beq_eq, and_true, or_true, ◌||◌, ok-inj, true-ne-false,
}
use vpc_routing.Prelude.Maps.{insert, lookup-insert, lookup-insert_self, bool_nat}
use vpc_routing.Model.Netip.{Prefix, prefix_eq}
use vpc_routing.Bgp.Evpn.{EvpnType5Route, RtAction, add_import, remove_import, RtConfig}
use vpc_routing.Bgp.Service.{
  InMemoryService, get_imported_rts, remove_first, configure_rt, get_injected_routes,
  withdraw_routes, is_withdrawn,
}

-- How often a VRF imports a route target.
abbrev pub imports : InMemoryService → String → String → ℕ
imports s vrf rt = count_by (λ r. r == rt) (get_imported_rts s vrf)

count-remove_first :
    (t rt : String) (rs : List String)
    → any (λ r. r == t) rs ≡ true
    → count_by (λ r. r == rt) (remove_first t rs) + bool_nat (t == rt) ≡ count_by (λ r. r == rt) rs
unfolding remove_first
count-remove_first t rt [] h = cc
count-remove_first t rt (r ∷ rs) h = elim (Bool-cases (r == t)) [
  | inl e ↦ rw (e, beq_eq r t e) (ground arith)
  | inr e ↦ ground (arith, count-remove_first t rt rs)
]

count-none :
    (t : String) (rs : List String) → any (λ r. r == t) rs ≡ false → count_by (λ r. r == t) rs ≡ 0
count-none t [] h = refl
count-none t (r ∷ rs) h = ground (arith, count-none t rs)

-- The config with another action.
abbrev pub with_action : RtAction → RtConfig → RtConfig
with_action a c = record c { action = a }

imports-insert :
    (s : InMemoryService) (vrf v rt : String) (rts : List String)
    → imports (record s { rt_configs = insert vrf rts s.rt_configs }) v rt
      ≡ (if vrf == v then count_by (λ r. r == rt) rts else imports s v rt)
unfolding get_imported_rts
imports-insert s vrf v rt rts = ground (arith, lookup-insert vrf v rts s.rt_configs)

-- Adding an import raises the count of that route target on that VRF by one, and no other count.
pub imports-add :
    (s : InMemoryService) (c : RtConfig) (v rt : String)
    → imports (configure_rt (with_action add_import c) s).0 v rt
      ≡ imports s v rt + bool_nat (c.vrf_name == v && c.route_target == rt)
unfolding configure_rt
imports-add s c v rt = imports-insert s c.vrf_name v rt _ ∙ (elim (Bool-cases (c.vrf_name == v)) [
  | inl e ↦
      rw (e, beq_eq c.vrf_name v e)
        (count_by-append (λ r. r == rt) (get_imported_rts s v) (c.route_target ∷ []) ∙ ground arith)
  | inr e ↦ ground arith
])

-- Removing an import lowers the count of that route target on that VRF by one, if it is not 0,
-- and no other count.
pub imports-remove :
    (s : InMemoryService) (c : RtConfig) (v rt : String)
    → imports (configure_rt (with_action remove_import c) s).0 v rt
      ≡ imports s v rt - bool_nat (c.vrf_name == v && c.route_target == rt)
unfolding configure_rt
imports-remove s c v rt =
    elim (Bool-cases (any (λ r. r == c.route_target) (get_imported_rts s c.vrf_name))) [
      | inl e ↦ rw e (
          imports-insert s c.vrf_name v rt _ ∙ (elim (Bool-cases (c.vrf_name == v)) [
            | inl q ↦ rw q (
                omega (
                  arith,
                  count-remove_first c.route_target rt (get_imported_rts s c.vrf_name) e,
                  ap (λ w. imports s w rt) (beq_eq c.vrf_name v q),
                ))
            | inr q ↦ rw q (omega arith)
          ]))
      | inr e ↦ rw e (elim (Bool-cases (c.vrf_name == v && c.route_target == rt)) [
        | inl q ↦
            (let b = and_true (c.vrf_name == v) (c.route_target == rt) q in
              omega (
                arith,
                ap bool_nat q,
                count-none c.route_target (get_imported_rts s c.vrf_name) e,
                ap (λ w. imports s w c.route_target) (beq_eq c.vrf_name v b.0),
                ap (λ w. imports s v w) (beq_eq c.route_target rt b.1),
              ))
        | inr q ↦ rw q (omega arith)
      ])
    ]

-- Undoing an import by the same config gives each VRF each route target as often as before.
pub imports-remove-add :
    (s : InMemoryService) (c : RtConfig) (v rt : String)
    → imports
        (configure_rt (with_action remove_import c) (configure_rt (with_action add_import c) s).0).0
        v
        rt
      ≡ imports s v rt
imports-remove-add s c v rt = omega (
  arith,
  imports-remove (configure_rt (with_action add_import c) s).0 c v rt,
  imports-add s c v rt,
)

-- The routes of a VPC after a withdrawal are those before it with another prefix than the withdrawn,
-- in their order; the other VPCs keep theirs, and the answer is how many went.
pub record Withdraws (s : InMemoryService) (vpc : String) (ps : List Prefix) : Type 0 where
  pub kept :
      (r : EvpnType5Route)
      → In r (get_injected_routes (withdraw_routes vpc ps s).0 vpc)
        ↔ (In r (get_injected_routes s vpc) × (In r.prefix ps → ⊥))
  pub others :
      (v : String)
      → (vpc == v) ≡ false
      → get_injected_routes (withdraw_routes vpc ps s).0 v ≡ get_injected_routes s v
  pub counted :
      (n : ℕ)
      → (withdraw_routes vpc ps s).1 ≡ ok n
      → n + length (get_injected_routes (withdraw_routes vpc ps s).0 vpc)
        ≡ length (get_injected_routes s vpc)

length-keep-not :
    (p : EvpnType5Route → Bool) (rs : List EvpnType5Route)
    → count_by p rs + length (keep (λ r. not (p r)) rs) ≡ length rs
length-keep-not p [] = omega arith
length-keep-not p (r ∷ rs) = ground (arith, length-keep-not p rs)

remaining :
    (s : InMemoryService) (vpc : String) (ps : List Prefix)
    → get_injected_routes (withdraw_routes vpc ps s).0 vpc
      ≡ keep (λ r. not (is_withdrawn ps r)) (get_injected_routes s vpc)
unfolding withdraw_routes get_injected_routes
remaining s vpc ps = rw (lookup-insert_self vpc _ s.routes)

withdrawn_iff :
    (ps : List Prefix) (r : EvpnType5Route) → (is_withdrawn ps r ≡ true) ↔ In r.prefix ps
withdrawn_iff [] r = (λ h. absurd (true-ne-false (sym h)), λ h. absurd h)
withdrawn_iff (p ∷ ps) r =
    let rest = withdrawn_iff ps r in
    (
      λ h. (elim (or_true (p == r.prefix) (is_withdrawn ps r) h) [
        | inl e ↦ inl (sym (beq_eq p r.prefix e))
        | inr e ↦ inr (rest.0 e)
      ]),
      λ h. (elim h [
        | inl e ↦ rw (e, beq_refl p)
        | inr m ↦ rw (rest.1 m) (or_right (p == r.prefix))
      ]),
    )
  where
    or_right : (b : Bool) → (b || true) ≡ true
    or_right b = ground arith

not_iff : (b : Bool) → (not b ≡ true) ↔ (b ≡ true → ⊥)
not_iff true = (λ h. absurd (true-ne-false (sym h)), λ h. absurd (h refl))
not_iff false = (λ h e. true-ne-false (sym e), λ h. refl)

-- The routes of a VPC after a withdrawal are those before it with another prefix than the
-- withdrawn; the other VPCs keep theirs, and the answer is how many went.
pub withdraw_routes-Withdraws :
    (s : InMemoryService) (vpc : String) (ps : List Prefix) → Withdraws s vpc ps
unfolding withdraw_routes
withdraw_routes-Withdraws s vpc ps = record {
  kept = λ r.
      let k = In-keep (λ x. not (is_withdrawn ps x)) (get_injected_routes s vpc) r in
      let w = withdrawn_iff ps r in
      let n = not_iff (is_withdrawn ps r) in
      (
        λ m. (let q = k.0 (rw (remaining s vpc ps) at m) in (q.0, λ i. n.0 q.1 (w.1 i))),
        λ q. rw (remaining s vpc ps) (k.1 (q.0, n.1 (λ e. q.1 (w.0 e)))),
      );
  others = λ v e. unchanged v e;
  counted = λ n h. omega (
    arith,
    ok-inj h,
    ap length (remaining s vpc ps),
    length-keep-not (is_withdrawn ps) (get_injected_routes s vpc),
  );
}
  where
    unchanged :
        (v : String)
        → (vpc == v) ≡ false
        → get_injected_routes (withdraw_routes vpc ps s).0 v ≡ get_injected_routes s v
    unchanged v e =
        unfold get_injected_routes in
        ground (
          arith,
          lookup-insert vpc v (keep (λ r. not (is_withdrawn ps r)) (get_injected_routes s vpc))
              s.routes,
        )
