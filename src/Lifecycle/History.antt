-- ===== src/Lifecycle/History.antt =====
-- Every history of requests and reconciler passes, each run to its end before the next begins.
use vpc_routing.Prelude.{ap, ℕ, ◌≡◌, ◌∙◌, refl, Option, List, [], ◌∷◌, Result, ok, err, arith}
use vpc_routing.Model.Entities.{Uuid, Time, AppError, Vpc}
use vpc_routing.Model.Netip.{Prefix}
use vpc_routing.Store.Vpcs.{VpcStore}
use vpc_routing.Store.Vpcs
use vpc_routing.Vni.{Allocator}
use vpc_routing.Bgp.Service.{Service}
use vpc_routing.Api.Settled.{settle, try_delete_vpc}
use vpc_routing.Api.Settled.Handlers.{delete_vpc-settle}
use vpc_routing.Api.Db.{Db, Externals, Env}
use vpc_routing.Api.VpcHandler.{CreateVpcRequest, stored_as, allocated, checked, create_checked}
use vpc_routing.Api.VpcHandler
use vpc_routing.Api.PeeringHandler.{
  CreatePeeringRequest, UpdatePeeringRequest, OverrideRouteRequest,
}
use vpc_routing.Api.PeeringHandler
use vpc_routing.Controller.Reconciler.{reconcile_all}
use vpc_routing.Lifecycle.Change.{stays, Changes, done, next}
use vpc_routing.Lifecycle.Stored.{IsStore-keyed}
use vpc_routing.Lifecycle.Invariant.{Inv, Changes-Inv}
use vpc_routing.Lifecycle.Handlers.{
  accept-Change, reject-Change, update-handler-Change, delete-Change,
}
use vpc_routing.Lifecycle.Creation.{create-Change, override_route-Change}
use vpc_routing.Lifecycle.Passes.{reconcile_all-Changes, Changes-trans}

-- The requests that change the stores, and the reconciler's tick.
pub data Op : Type 0 where
  create_vpc : Env → Option CreateVpcRequest → Op
  delete_vpc : Env → Uuid → Op
  create_peering : Env → Option CreatePeeringRequest → Op
  update_peering : Env → Option UpdatePeeringRequest → Uuid → Op
  delete_peering : Env → Uuid → Op
  accept_peering : Env → Uuid → Op
  reject_peering : Env → Uuid → Op
  override_route : Env → Option OverrideRouteRequest → Uuid → Op
  reconcile : Time → (Uuid → Env) → Op

stored_as-peerings :
    (db : Db) (alloc : Allocator) (v : Vpc) (r : Result AppError VpcStore)
    → (stored_as db alloc v r).0.peerings ≡ db.peerings
stored_as-peerings db alloc v (ok s) = refl
stored_as-peerings db alloc v (err e) = refl

create_vpc-peerings :
    (x : Externals) (env : Env) (body : Option CreateVpcRequest) (db : Db)
    → (VpcHandler.create x env body db).0.peerings ≡ db.peerings
unfolding VpcHandler.create
create_vpc-peerings x env body db = at_checked (checked x env body db)
  where
    at_allocated :
        (acc : Uuid) (req : CreateVpcRequest) (cidrs : List Prefix)
        (r : Result AppError (ℕ × Allocator))
        → (allocated x env db acc req cidrs r).0.peerings ≡ db.peerings
    at_allocated acc req cidrs (ok (v, alloc)) =
        stored_as-peerings db alloc _ (Vpcs.create db.vpcs _)
    at_allocated acc req cidrs (err e) = refl

    at_checked :
        (r : Result AppError (Uuid × CreateVpcRequest × List Prefix))
        → (create_checked x env db r).0.peerings ≡ db.peerings
    at_checked (ok (acc, req, cidrs)) = at_allocated acc req cidrs _
    at_checked (err e) = refl

delete_vpc-peerings :
    (env : Env) (k : Uuid) (db : Db) → (VpcHandler.delete env k db).0.peerings ≡ db.peerings
unfolding settle try_delete_vpc
delete_vpc-peerings env k db =
    ap (λ (w : Db × Result AppError (Unit {0})). w.0.peerings) (delete_vpc-settle env k db)
    ∙ ground arith

module _ (svc : Service) (x : Externals) where
  open svc use {State}

  -- The stores and the fabric.
  abbrev pub World : Type 0
  World = Db × State

  unfoldable pub step : Op → World → World
  step (create_vpc env body) (db, s) = ((VpcHandler.create x env body db).0, s)
  step (delete_vpc env k) (db, s) = ((VpcHandler.delete env k db).0, s)
  step (create_peering env body) (db, s) = ((PeeringHandler.create x env body db).0, s)
  step (update_peering env body k) (db, s) = ((PeeringHandler.update x env body k db).0, s)
  step (delete_peering env k) (db, s) = ((PeeringHandler.delete env k db).0, s)
  step (accept_peering env k) (db, s) = ((PeeringHandler.accept env k db).0, s)
  step (reject_peering env k) (db, s) = ((PeeringHandler.reject env k db).0, s)
  step (override_route env body k) (db, s) = ((PeeringHandler.override_route x env body k db).0, s)
  step (reconcile now env_of) (db, s) = let w = reconcile_all svc x now env_of db s in (w.0, w.1)

  unfoldable pub run : List Op → World → World
  unfolding step
  run [] w = w
  run (o ∷ os) w = run os (step o w)

  pub step-Changes :
      (o : Op) (w : World) → Inv w.0.peerings → Changes w.0.peerings (step o w).0.peerings
  unfolding step
  step-Changes (create_vpc env body) (db, s) i =
      next done (stays (create_vpc-peerings x env body db))
  step-Changes (delete_vpc env k) (db, s) i = next done (stays (delete_vpc-peerings env k db))
  step-Changes (create_peering env body) (db, s) i = next done (create-Change x env body db)
  step-Changes (update_peering env body k) (db, s) i =
      next done (update-handler-Change x env body k db (IsStore-keyed db.peerings i.stored))
  step-Changes (delete_peering env k) (db, s) i =
      next done (delete-Change env k db (IsStore-keyed db.peerings i.stored))
  step-Changes (accept_peering env k) (db, s) i =
      next done (accept-Change env k db (IsStore-keyed db.peerings i.stored))
  step-Changes (reject_peering env k) (db, s) i =
      next done (reject-Change env k db (IsStore-keyed db.peerings i.stored))
  step-Changes (override_route env body k) (db, s) i =
      next done (override_route-Change x env body k db)
  step-Changes (reconcile now env_of) (db, s) i =
      reconcile_all-Changes svc x now env_of db s i.stored

  -- Over any history of requests and reconciler passes that starts from a peering store with
  -- that invariant, with any BGP service, the peering store changes only by adding a peering
  -- that the checks of `Create` admit, or by moving one peering along an edge of the state
  -- diagram.
  pub run-Changes :
      (os : List Op) (w : World) → Inv w.0.peerings → Changes w.0.peerings (run os w).0.peerings
  unfolding run
  run-Changes [] w i = done
  run-Changes (o ∷ os) w i =
      let c = step-Changes o w i in
      Changes-trans w.0.peerings (step o w).0.peerings _ c
        (run-Changes os (step o w) (Changes-Inv w.0.peerings (step o w).0.peerings c i))

  -- Over any history of requests and reconciler passes, with any BGP service, the peering store
  -- keeps its invariant: entries lie under their own identifiers, no two VPCs have more than one
  -- peering that is not deleted, rejected or expired, no VPC has more than 125 of these, and no
  -- peering is degraded, deleting or failed.
  pub run-Inv : (os : List Op) (w : World) → Inv w.0.peerings → Inv (run os w).0.peerings
  run-Inv os w i = Changes-Inv w.0.peerings (run os w).0.peerings (run-Changes os w i) i

pub empty-Inv : Inv []
empty-Inv = record { stored = tt; unique = λ a b. omega arith; quota = λ v. omega arith; used = tt }
