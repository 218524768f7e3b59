-- ===== src/Lifecycle/Teardown.antt =====
-- `DeprovisionPeering` of internal/controller/provisioner.go after `ProvisionPeering`, over the
-- in-memory BGP service of internal/bgp/service.go.
use vpc_routing.Prelude.{
  ◌-◌, ◌≡◌, ◌≢◌, refl, sym, ◌∙◌, ◌↔◌, inl, inr, arith, false, String, List, ◌++◌, ◌==◌, string_eq,
  Result, ok, err, In, In-append, subst,
}
use vpc_routing.Model.Netip.{Prefix}
use vpc_routing.Model.Entities.{Uuid, Vpc, Peering}
use vpc_routing.Store.Vpcs
use vpc_routing.Store.Peerings
use vpc_routing.Bgp.Evpn.{EvpnType5Route, remove_import, build_peering_rt_configs}
use vpc_routing.Bgp.Service.{
  InMemoryService, in_memory, configure_rt, withdraw_routes, get_injected_routes, BgpError,
}
use vpc_routing.Bgp.Laws.{imports, with_action, imports-remove, withdraw_routes-Withdraws}
use vpc_routing.Api.Db.{Db, Externals, Env}
use vpc_routing.Controller.Provisioner.{
  configure_each, set_fabric, vpc_routes, deprovision_peering, provision_peering, ready, on_fabric,
}
use vpc_routing.Lifecycle.Fabric.{
  own_import, to_requester, to_accepter, set_fabric-IsWired, imports-withdraw, injected-remove,
  vpc_routes-blocks,
}

-- The service after the withdrawals, and after the imports are removed.
withdrawn : Externals → Vpc → Vpc → InMemoryService → InMemoryService
withdrawn x v w t =
    (withdraw_routes (x.text v.id) v.cidr_blocks
      (withdraw_routes (x.text w.id) w.cidr_blocks t).0).0

without_imports : Vpc → Vpc → InMemoryService → InMemoryService
without_imports v w t =
    (configure_rt (with_action remove_import (to_accepter v w))
      (configure_rt (with_action remove_import (to_requester v w)) t).0).0

deprovision_lem :
    (x : Externals) (k : Uuid) (db : Db) (t : InMemoryService) (q : Peering) (v w : Vpc)
    → Peerings.get db.peerings k ≡ ok q
    → Vpcs.get db.vpcs q.requester_vpc_id ≡ ok v
    → Vpcs.get db.vpcs q.accepter_vpc_id ≡ ok w
    → deprovision_peering in_memory x k db t ≡ (without_imports v w (withdrawn x v w t), ok tt)
unfolding deprovision_peering configure_each build_peering_rt_configs without_imports withdrawn
deprovision_lem x k db t q v w e f g = rw (e, f, g) refl

imports-without_imports :
    (v w : Vpc) (t : InMemoryService) (vrf rt : String)
    → imports (without_imports v w t) vrf rt
      ≡ imports t vrf rt
        - own_import (to_requester v w) vrf rt
        - own_import (to_accepter v w) vrf rt
unfolding without_imports
imports-without_imports v w t vrf rt = omega (
  arith,
  imports-remove t (to_requester v w) vrf rt,
  imports-remove (configure_rt (with_action remove_import (to_requester v w)) t).0 (to_accepter v w)
      vrf rt,
)

injected-without_imports :
    (v w : Vpc) (t : InMemoryService) (j : String)
    → get_injected_routes (without_imports v w t) j ≡ get_injected_routes t j
unfolding without_imports
injected-without_imports v w t j =
    injected-remove (to_accepter v w)
      (configure_rt (with_action remove_import (to_requester v w)) t).0 j
    ∙ injected-remove (to_requester v w) t j

imports-withdrawn :
    (x : Externals) (v w : Vpc) (t : InMemoryService) (vrf rt : String)
    → imports (withdrawn x v w t) vrf rt ≡ imports t vrf rt
unfolding withdrawn
imports-withdrawn x v w t vrf rt =
    imports-withdraw (x.text v.id) v.cidr_blocks (withdraw_routes (x.text w.id) w.cidr_blocks t).0
      vrf rt
    ∙ imports-withdraw (x.text w.id) w.cidr_blocks t vrf rt

-- What a VPC is left with: the routes that it had, less those for its blocks.
abbrev pub LeftWith : List EvpnType5Route → List EvpnType5Route → List Prefix → Type 0
LeftWith after before blocks =
    (r : EvpnType5Route) → In r after ↔ (In r before × (In r.prefix blocks → ⊥))

withdrawn-accepter :
    (x : Externals) (v w : Vpc) (t : InMemoryService)
    → (x.text v.id == x.text w.id) ≡ false
    → LeftWith
        (get_injected_routes (withdrawn x v w t) (x.text w.id))
        (get_injected_routes t (x.text w.id))
        w.cidr_blocks
unfolding withdrawn
withdrawn-accepter x v w t m r =
    rw
      ((withdraw_routes-Withdraws (withdraw_routes (x.text w.id) w.cidr_blocks t).0 (x.text v.id)
          v.cidr_blocks).others
        (x.text w.id) m)
      ((withdraw_routes-Withdraws t (x.text w.id) w.cidr_blocks).kept r)

withdrawn-requester :
    (x : Externals) (v w : Vpc) (t : InMemoryService)
    → (x.text w.id == x.text v.id) ≡ false
    → LeftWith
        (get_injected_routes (withdrawn x v w t) (x.text v.id))
        (get_injected_routes t (x.text v.id))
        v.cidr_blocks
unfolding withdrawn
withdrawn-requester x v w t n r =
    rw (← (withdraw_routes-Withdraws t (x.text w.id) w.cidr_blocks).others (x.text v.id) n) (
      (withdraw_routes-Withdraws (withdraw_routes (x.text w.id) w.cidr_blocks t).0 (x.text v.id)
          v.cidr_blocks).kept
        r)

-- Routes for the blocks, added before, make no difference to what is left.
added-LeftWith :
    (after before added : List EvpnType5Route) (blocks : List Prefix)
    → ((r : EvpnType5Route) → In r added → In r.prefix blocks)
    → LeftWith after (before ++ added) blocks
    → LeftWith after before blocks
added-LeftWith after before added blocks h l r = (
  λ m.
      (let (i, n) = (l r).0 m in
        elim ((In-append r before added).0 i) [ inl j ↦ (j, n) | inr j ↦ absurd (n (h r j)) ]),
  λ c. (l r).1 ((In-append r before added).1 (inl c.0), c.1),
)

-- What is left of a peering that was provisioned and deprovisioned.
pub record IsUndone (x : Externals) (v w : Vpc) (s after : InMemoryService) : Type 0 where
  pub imported : (vrf rt : String) → imports after vrf rt ≡ imports s vrf rt
  pub accepter :
      LeftWith
        (get_injected_routes after (x.text w.id))
        (get_injected_routes s (x.text w.id))
        w.cidr_blocks
  pub requester :
      LeftWith
        (get_injected_routes after (x.text v.id))
        (get_injected_routes s (x.text v.id))
        v.cidr_blocks

on_fabric-state :
    (env : Env) (k : Uuid) (db : Db) (p : Peering) (v w : Vpc)
    (o : InMemoryService × Result BgpError (Unit {0}))
    → (on_fabric in_memory env k db p v w o).1 ≡ o.0
on_fabric-state env k db p v w (s, err e) = refl
on_fabric-state env k db p v w (s, ok u) = refl

provision_peering-state :
    (x : Externals) (env : Env) (k : Uuid) (db : Db) (s : InMemoryService) (p : Peering) (v w : Vpc)
    → ready db k ≡ ok (p, v, w)
    → (provision_peering in_memory x env k db s).1 ≡ (set_fabric in_memory x p v w s).0
unfolding provision_peering
provision_peering-state x env k db s p v w h =
    rw h (on_fabric-state env k db p v w (set_fabric in_memory x p v w s))

differ : (a b : String) → a ≢ b → (a == b) ≡ false
differ a b h = ground (arith, string_eq.beq_iff a b)

undone_lem :
    (x : Externals) (k : Uuid) (db : Db) (s : InMemoryService) (p q : Peering) (v w : Vpc)
    → (x.text w.id == x.text v.id) ≡ false
    → (x.text v.id == x.text w.id) ≡ false
    → Peerings.get db.peerings k ≡ ok q
    → Vpcs.get db.vpcs q.requester_vpc_id ≡ ok v
    → Vpcs.get db.vpcs q.accepter_vpc_id ≡ ok w
    → IsUndone x v w s (deprovision_peering in_memory x k db (set_fabric in_memory x p v w s).0).0
undone_lem x k db s p q v w n m e f g =
    let t = (set_fabric in_memory x p v w s).0 in
    let set = set_fabric-IsWired x p v w s n m in
    let u = withdrawn x v w t in
    subst (λ z. IsUndone x v w s z.0) (sym (deprovision_lem x k db t q v w e f g))
      (record {
        imported = λ vrf rt. omega (
          arith,
          imports-without_imports v w u vrf rt,
          imports-withdrawn x v w t vrf rt,
          set.imported vrf rt,
        );
        accepter =
            subst (λ z. LeftWith z (get_injected_routes s (x.text w.id)) w.cidr_blocks)
              (sym (injected-without_imports v w u (x.text w.id)))
              (added-LeftWith (get_injected_routes u (x.text w.id))
                (get_injected_routes s (x.text w.id)) (vpc_routes x w) w.cidr_blocks
                (vpc_routes-blocks x w)
                (subst (λ z. LeftWith (get_injected_routes u (x.text w.id)) z w.cidr_blocks)
                  set.accepter (withdrawn-accepter x v w t m)));
        requester =
            subst (λ z. LeftWith z (get_injected_routes s (x.text v.id)) v.cidr_blocks)
              (sym (injected-without_imports v w u (x.text v.id)))
              (elim set.requester [
                | inl c ↦
                    added-LeftWith (get_injected_routes u (x.text v.id))
                      (get_injected_routes s (x.text v.id)) (vpc_routes x v) v.cidr_blocks
                      (vpc_routes-blocks x v)
                      (subst (λ z. LeftWith (get_injected_routes u (x.text v.id)) z v.cidr_blocks) c
                        (withdrawn-requester x v w t n))
                | inr c ↦
                    subst (λ z. LeftWith (get_injected_routes u (x.text v.id)) z v.cidr_blocks) c
                      (withdrawn-requester x v w t n)
              ]);
      })

-- Over the in-memory BGP service, and for two VPCs whose identifiers have two texts,
-- `DeprovisionPeering` of a peering that was ready and provisioned, and whose VPCs are as they
-- were, leaves each VRF with each route target as often as before, and each of the two VPCs with
-- the routes that it had before, less all those for its blocks, those that another peering had
-- injected included.
pub deprovision_peering-IsUndone :
    (x : Externals) (env : Env) (k : Uuid) (db later : Db) (s : InMemoryService) (p q : Peering)
    (v w : Vpc)
    → x.text v.id ≢ x.text w.id
    → ready db k ≡ ok (p, v, w)
    → Peerings.get later.peerings k ≡ ok q
    → Vpcs.get later.vpcs q.requester_vpc_id ≡ ok v
    → Vpcs.get later.vpcs q.accepter_vpc_id ≡ ok w
    → IsUndone x v w s
        (deprovision_peering in_memory x k later (provision_peering in_memory x env k db s).1).0
deprovision_peering-IsUndone x env k db later s p q v w d h e f g =
    let n = differ (x.text w.id) (x.text v.id) (λ c. d (sym c)) in
    let m = differ (x.text v.id) (x.text w.id) d in
    subst (λ z. IsUndone x v w s (deprovision_peering in_memory x k later z).0)
      (sym (provision_peering-state x env k db s p v w h))
      (undone_lem x k later s p q v w n m e f g)
