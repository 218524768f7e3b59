-- ===== src/Lifecycle/Fabric.antt =====
-- What provisioning by internal/controller/provisioner.go leaves in the in-memory BGP service of
-- internal/bgp/service.go.
use vpc_routing.Prelude.{
  ℕ, ◌+◌, ◌≡◌, refl, sym, ap, ◌∙◌, ◌⊎◌, inl, inr, arith, false, ◌&&◌, String, List, ◌++◌,
  if◌then◌else◌, ◌==◌, string_eq, In, In-map_elim, any, beq_refl, Bool-cases, subst,
}
use vpc_routing.Prelude.Maps.{lookup-insert, bool_nat}
use vpc_routing.Model.Netip.{Prefix}
use vpc_routing.Model.Entities.{Vpc, Peering}
use vpc_routing.Bgp.Evpn.{
  EvpnType5Route, RtConfig, add_import, remove_import, build_peering_rt_configs, build_type5_routes,
  type5_route,
}
use vpc_routing.Bgp.Service.{
  InMemoryService, in_memory, configure_rt, inject_routes, withdraw_routes, get_injected_routes,
  get_imported_rts,
}
use vpc_routing.Bgp.Laws.{imports, with_action, imports-add}
use vpc_routing.Api.Db.{Externals}
use vpc_routing.Controller.Provisioner.{is_two_way, configure_all, set_fabric, vpc_routes}

-- The two route targets that a peering imports, as counts.
abbrev pub own_import : RtConfig → String → String → ℕ
own_import c vrf rt = bool_nat (c.vrf_name == vrf && c.route_target == rt)

abbrev pub to_requester : Vpc → Vpc → RtConfig
to_requester v w = record { vrf_name = v.vrf_name; action = add_import; route_target = w.export_rt }

abbrev pub to_accepter : Vpc → Vpc → RtConfig
to_accepter v w = record { vrf_name = w.vrf_name; action = add_import; route_target = v.export_rt }

imports-inject :
    (k : String) (rs : List EvpnType5Route) (s : InMemoryService) (vrf rt : String)
    → imports (inject_routes k rs s).0 vrf rt ≡ imports s vrf rt
unfolding inject_routes get_imported_rts
imports-inject k rs s vrf rt = refl

pub imports-withdraw :
    (k : String) (ps : List Prefix) (s : InMemoryService) (vrf rt : String)
    → imports (withdraw_routes k ps s).0 vrf rt ≡ imports s vrf rt
unfolding withdraw_routes get_imported_rts
imports-withdraw k ps s vrf rt = refl

injected-inject :
    (k j : String) (rs : List EvpnType5Route) (s : InMemoryService)
    → get_injected_routes (inject_routes k rs s).0 j
      ≡ (if k == j then get_injected_routes s k ++ rs else get_injected_routes s j)
unfolding inject_routes get_injected_routes
injected-inject k j rs s =
    ground (arith, lookup-insert k j (get_injected_routes s k ++ rs) s.routes)

injected-add :
    (c : RtConfig) (s : InMemoryService) (j : String)
    → get_injected_routes (configure_rt (with_action add_import c) s).0 j ≡ get_injected_routes s j
unfolding configure_rt get_injected_routes
injected-add c s j = refl

pub injected-remove :
    (c : RtConfig) (s : InMemoryService) (j : String)
    → get_injected_routes (configure_rt (with_action remove_import c) s).0 j
      ≡ get_injected_routes s j
unfolding configure_rt get_injected_routes
injected-remove c s j =
    elim (Bool-cases (any (λ r. r == c.route_target) (get_imported_rts s c.vrf_name))) [
      | inl e ↦ rw e refl
      | inr e ↦ rw e refl
    ]

-- The blocks of a VPC are the prefixes of its routes.
pub vpc_routes-blocks :
    (x : Externals) (v : Vpc) (r : EvpnType5Route)
    → In r (vpc_routes x v)
    → In r.prefix v.cidr_blocks
unfolding build_type5_routes
vpc_routes-blocks x v r m =
    let (cidr, i, e) = In-map_elim (type5_route _ _ v.vni) r v.cidr_blocks m in
    subst (λ z. In z v.cidr_blocks) (sym (ap (λ z. z.prefix) e)) i

-- What the service holds for the requester and the accepter once the fabric is set.
pub record IsWired (x : Externals) (v w : Vpc) (s t : InMemoryService) : Type 0 where
  pub imported :
      (vrf rt : String)
      → imports t vrf rt
        ≡ imports s vrf rt
          + own_import (to_requester v w) vrf rt
          + own_import (to_accepter v w) vrf rt
  pub accepter :
      get_injected_routes t (x.text w.id) ≡ get_injected_routes s (x.text w.id) ++ vpc_routes x w
  pub requester :
      (get_injected_routes t (x.text v.id) ≡ get_injected_routes s (x.text v.id) ++ vpc_routes x v)
      ⊎ (get_injected_routes t (x.text v.id) ≡ get_injected_routes s (x.text v.id))

-- The service with both imports, and with the accepter's routes.
with_imports : Vpc → Vpc → InMemoryService → InMemoryService
with_imports v w s = (configure_rt (to_accepter v w) (configure_rt (to_requester v w) s).0).0

with_accepter : Externals → Vpc → Vpc → InMemoryService → InMemoryService
with_accepter x v w s = (inject_routes (x.text w.id) (vpc_routes x w) (with_imports v w s)).0

imports-with_imports :
    (v w : Vpc) (s : InMemoryService) (vrf rt : String)
    → imports (with_imports v w s) vrf rt
      ≡ imports s vrf rt
        + own_import (to_requester v w) vrf rt
        + own_import (to_accepter v w) vrf rt
unfolding with_imports
imports-with_imports v w s vrf rt = omega (
  arith,
  imports-add s (to_requester v w) vrf rt,
  imports-add (configure_rt (to_requester v w) s).0 (to_accepter v w) vrf rt,
)

injected-with_imports :
    (v w : Vpc) (s : InMemoryService) (j : String)
    → get_injected_routes (with_imports v w s) j ≡ get_injected_routes s j
unfolding with_imports
injected-with_imports v w s j =
    injected-add (to_accepter v w) (configure_rt (to_requester v w) s).0 j
    ∙ injected-add (to_requester v w) s j

requester_lem :
    (x : Externals) (v w : Vpc) (s : InMemoryService)
    → (x.text w.id == x.text v.id) ≡ false
    → get_injected_routes (with_accepter x v w s) (x.text v.id)
      ≡ get_injected_routes s (x.text v.id)
unfolding with_accepter inject_routes get_injected_routes
requester_lem x v w s n =
    injected-inject (x.text w.id) (x.text v.id) (vpc_routes x w) (with_imports v w s)
    ∙ rw n (injected-with_imports v w s (x.text v.id))

accepter-IsWired :
    (x : Externals) (v w : Vpc) (s : InMemoryService)
    → (x.text w.id == x.text v.id) ≡ false
    → IsWired x v w s (with_accepter x v w s)
unfolding with_accepter
accepter-IsWired x v w s n = record {
  imported = λ vrf rt.
      imports-inject (x.text w.id) (vpc_routes x w) (with_imports v w s) vrf rt
      ∙ imports-with_imports v w s vrf rt;
  accepter =
      injected-inject (x.text w.id) (x.text w.id) (vpc_routes x w) (with_imports v w s)
      ∙ rw (beq_refl (x.text w.id))
          (ap (λ rs. rs ++ vpc_routes x w) (injected-with_imports v w s (x.text w.id)));
  requester = inr (requester_lem x v w s n);
}

both-IsWired :
    (x : Externals) (v w : Vpc) (s : InMemoryService)
    → (x.text w.id == x.text v.id) ≡ false
    → (x.text v.id == x.text w.id) ≡ false
    → IsWired x v w s (inject_routes (x.text v.id) (vpc_routes x v) (with_accepter x v w s)).0
both-IsWired x v w s n m =
    let one = accepter-IsWired x v w s n in
    let t = with_accepter x v w s in
    record {
      imported =
          λ vrf rt. imports-inject (x.text v.id) (vpc_routes x v) t vrf rt ∙ one.imported vrf rt;
      accepter = injected-inject (x.text v.id) (x.text w.id) (vpc_routes x v) t ∙ rw m one.accepter;
      requester = inl (
          injected-inject (x.text v.id) (x.text v.id) (vpc_routes x v) t
          ∙ rw (beq_refl (x.text v.id))
              (ap (λ rs. rs ++ vpc_routes x v) (requester_lem x v w s n)));
    }

pub set_fabric-IsWired :
    (x : Externals) (p : Peering) (v w : Vpc) (s : InMemoryService)
    → (x.text w.id == x.text v.id) ≡ false
    → (x.text v.id == x.text w.id) ≡ false
    → IsWired x v w s (set_fabric in_memory x p v w s).0
unfolding set_fabric configure_all build_peering_rt_configs configure_rt inject_routes with_accepter
    with_imports
set_fabric-IsWired x p v w s n m = elim (Bool-cases (is_two_way p.direction)) [
  | inl e ↦ rw e (both-IsWired x v w s n m)
  | inr e ↦ rw e (accepter-IsWired x v w s n)
]
