-- ===== src/Lifecycle/Tenancy.antt =====
-- Every history keeps the VPCs and the VNI pool in order.
use vpc_routing.Prelude.{string_eq, nat_eq, ◌∙◌, ◌≤◌, ◌≡◌, sym, ap, List, [], ◌∷◌, subst, Pairwise}
use vpc_routing.Prelude.Maps.{lookup, count_values, values, bool_nat}
use vpc_routing.Vni.{Allocator, is_allocated}
use vpc_routing.Store.Vpcs.{VpcStore}
use vpc_routing.Api.Db.{Db, Externals}
use vpc_routing.Bgp.Service.{Service}
use vpc_routing.Lifecycle.Network.{NetInv, uses, Compatible}
use vpc_routing.Lifecycle.Tenants.{create_vpc-NetInv, delete_vpc-NetInv}
use vpc_routing.Lifecycle.Unmoved.{
  net, create-net, update-net, delete-net, accept-net, reject-net, override_route-net,
  reconcile_all-net,
}
use vpc_routing.Lifecycle.History.{
  Op, create_vpc, delete_vpc, create_peering, update_peering, delete_peering, accept_peering,
  reject_peering, override_route, reconcile, World, step, run,
}

NetInv-net : (db db' : Db) → net db' ≡ net db → NetInv db → NetInv db'
NetInv-net db db' e inv = record {
  regions = λ name r h.
      inv.regions name r (ap (λ (a : Allocator). lookup name a.region_map) (sym pool) ∙ h);
  vnis = λ n.
      subst
        (λ (w : VpcStore × Allocator). count_values (uses n) w.0 ≤ bool_nat (is_allocated w.1 n))
        (sym e) (inv.vnis n);
  apart = subst (λ (w : VpcStore × Allocator). Pairwise Compatible (values w.0)) (sym e) inv.apart;
}
  where
    pool : db'.alloc ≡ db.alloc
    pool = ap (λ (w : VpcStore × Allocator). w.1) e

module _ (svc : Service) (x : Externals) where
  step-NetInv : (o : Op) (w : World svc x) → NetInv w.0 → NetInv (step svc x o w).0
  unfolding step
  step-NetInv (create_vpc env body) (db, s) i = create_vpc-NetInv x env body db i
  step-NetInv (delete_vpc env k) (db, s) i = delete_vpc-NetInv env k db i
  step-NetInv (create_peering env body) (db, s) i = NetInv-net db _ (create-net x env body db) i
  step-NetInv (update_peering env body k) (db, s) i = NetInv-net db _ (update-net x env body k db) i
  step-NetInv (delete_peering env k) (db, s) i = NetInv-net db _ (delete-net env k db) i
  step-NetInv (accept_peering env k) (db, s) i = NetInv-net db _ (accept-net env k db) i
  step-NetInv (reject_peering env k) (db, s) i = NetInv-net db _ (reject-net env k db) i
  step-NetInv (override_route env body k) (db, s) i =
      NetInv-net db _ (override_route-net x env body k db) i
  step-NetInv (reconcile now env_of) (db, s) i =
      NetInv-net db _ (reconcile_all-net svc x now env_of db s) i

  -- Over any history of requests and reconciler passes, with any BGP service, the registered
  -- region numbers stay below 16, each VNI is in use by one VPC that is not deleted at most and
  -- then taken in the pool, and no two such VPCs of one account have blocks that overlap.
  pub run-NetInv : (os : List Op) (w : World svc x) → NetInv w.0 → NetInv (run svc x os w).0
  unfolding run
  run-NetInv [] w i = i
  run-NetInv (o ∷ os) w i = run-NetInv os (step svc x o w) (step-NetInv o w i)
