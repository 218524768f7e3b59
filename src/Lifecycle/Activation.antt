-- ===== src/Lifecycle/Activation.antt =====
-- Provisioning over the in-memory BGP service comes to its end.
use vpc_routing.Prelude.{
  ◌≡◌, refl, ap, ◌∙◌, length, inl, inr, arith, some, Result, ok, err, Bool-cases, nat_eq,
}
use vpc_routing.Prelude.Maps.{lookup, insert, lookup-insert_self}
use vpc_routing.Model.Entities.{Uuid, Vpc, Peering, PeeringState}
use vpc_routing.Store.Peerings
use vpc_routing.Store.Peerings.{PeeringStore}
use vpc_routing.Bgp.Evpn.{build_peering_rt_configs}
use vpc_routing.Bgp.Service.{InMemoryService, in_memory, configure_rt, inject_routes, BgpError}
use vpc_routing.Api.Db.{Db, Externals, Env, emit_event}
use vpc_routing.Controller.Provisioner.{
  ProvisionError, is_two_way, activated, route_total, installed, finish, commit, ready,
  configure_all, set_fabric, on_fabric, provision_peering,
}
use vpc_routing.Lifecycle.Installed.{announced, Gains, route_total_lem, installed-Gains}
use vpc_routing.Lifecycle.Stored.{IsStore, IsStore-keyed}
use vpc_routing.Lifecycle.Control.{ready-ok}

-- The in-memory service refuses nothing that provisioning asks of it.
set_fabric-ok :
    (x : Externals) (p : Peering) (v w : Vpc) (s : InMemoryService)
    → (set_fabric in_memory x p v w s).1 ≡ ok tt
unfolding set_fabric configure_all configure_rt inject_routes build_peering_rt_configs
set_fabric-ok x p v w s = elim (Bool-cases (is_two_way p.direction)) [
  | inl e ↦ rw e refl
  | inr e ↦ rw e refl
]

updated :
    (s : PeeringStore) (k : Uuid) (p q : Peering)
    → lookup k s ≡ some p
    → q.id ≡ k
    → Peerings.update s q ≡ ok (insert k q s)
unfolding Peerings.update
updated s k p q l e = ground (arith, ap (λ (i : Uuid). lookup i s) e)

-- What is stored once provisioning has succeeded: the peering, active and with the count of the
-- blocks that it announces, and a route for each of these blocks.
pub record Activates (env : Env) (k : Uuid) (p : Peering) (v w : Vpc) (db db' : Db)
    (r : Result ProvisionError (Unit {0})) : Type 0 where
  pub answer : r ≡ ok tt
  pub stored :
      lookup k db'.peerings
      ≡ some (record p {
        state = PeeringState.active;
        provisioned_at = some env.now;
        route_count = length (announced p.direction v w);
      })
  pub gained : Gains k (announced p.direction v w) db.routes db'.routes

finish-Activates :
    (env : Env) (k : Uuid) (db : Db) (p : Peering) (v w : Vpc) (s : PeeringStore)
    → let r =
        finish env k
          (record db { routes = installed k p v w db.routes })
          (ok (insert k (activated env p (route_total p v w)) s)) in
      Activates env k p v w db r.0 r.1
unfolding emit_event
finish-Activates env k db p v w s = record {
  answer = refl;
  stored =
      lookup-insert_self k (activated env p (route_total p v w)) s
      ∙ ap (λ n. some (activated env p n)) (route_total_lem p v w);
  gained = installed-Gains k p v w db.routes;
}

commit-Activates :
    (env : Env) (k : Uuid) (db : Db) (p : Peering) (v w : Vpc)
    → lookup k db.peerings ≡ some p
    → p.id ≡ k
    → Activates env k p v w db (commit env k db p v w).0 (commit env k db p v w).1
unfolding commit
commit-Activates env k db p v w l e =
    rw (updated db.peerings k p (activated env p (route_total p v w)) l e)
      (finish-Activates env k db p v w db.peerings)

on_fabric-Activates :
    (env : Env) (k : Uuid) (db : Db) (p : Peering) (v w : Vpc)
    → lookup k db.peerings ≡ some p
    → p.id ≡ k
    → (o : InMemoryService × Result BgpError (Unit {0})) → o.1 ≡ ok tt
    → Activates env k p v w db
        (on_fabric in_memory env k db p v w o).0
        (on_fabric in_memory env k db p v w o).2
on_fabric-Activates env k db p v w l e (s, err b) h = cc
on_fabric-Activates env k db p v w l e (s, ok u) h = commit-Activates env k db p v w l e

-- Over the in-memory BGP service, and in a store whose entries lie under their own identifiers,
-- `ProvisionPeering` of a peering that is provisioning and whose VPCs exist succeeds, and leaves
-- the peering active, with the time of its provisioning and the count of the blocks that it
-- announces: the accepter's, and for a bidirectional peering or one from the accepter to the
-- requester also the requester's. A peering has a route for a prefix then exactly where it had
-- one before, or it is this peering and the prefix is such a block.
pub provision_peering-Activates :
    (x : Externals) (env : Env) (k : Uuid) (db : Db) (s : InMemoryService) (p : Peering) (v w : Vpc)
    → IsStore db.peerings
    → ready db k ≡ ok (p, v, w)
    → Activates env k p v w db
        (provision_peering in_memory x env k db s).0
        (provision_peering in_memory x env k db s).2
unfolding provision_peering
provision_peering-Activates x env k db s p v w i h =
    let (l, _) = ready-ok db k (p, v, w) h in
    rw h (
      on_fabric-Activates env k db p v w l (IsStore-keyed db.peerings i k p l)
        (set_fabric in_memory x p v w s) (set_fabric-ok x p v w s))
