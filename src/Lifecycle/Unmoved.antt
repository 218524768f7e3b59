-- ===== src/Lifecycle/Unmoved.antt =====
-- The handlers of peerings and the passes of the reconciler leave the VPCs and the VNI pool alone.
use vpc_routing.Prelude.{
  ◌≡◌, refl, sym, ◌∙◌, ap, inl, inr, arith, Option, String, List, [], ◌∷◌, Result, ok, err,
  >>=-eq-ok, guard, ◌==◌, ◌||◌, nat_eq, Bool-cases,
}
use vpc_routing.Model.Netip.{Prefix}
use vpc_routing.Model.Entities.{
  Uuid, Time, Vpc, Peering, PeeringState, provisioning, failed, state_eq, AppError,
}
use vpc_routing.Store.Vpcs.{VpcStore}
use vpc_routing.Store.Peerings
use vpc_routing.Store.Peerings.{PeeringStore}
use vpc_routing.Vni.{Allocator}
use vpc_routing.Bgp.Service.{Service, BgpError}
use vpc_routing.Auth.Access.{account_from_context}
use vpc_routing.Api.Db.{Db, Externals, Env, or_fail, emit_event}
use vpc_routing.Api.PeeringHandler as Handler
use vpc_routing.Api.Settled.{
  try_override, settle, try_accept, try_create, try_delete, try_override_route, try_reject,
  try_update,
}
use vpc_routing.Api.Settled.Handlers.{
  accept-settle, create-settle, delete-settle, override_route-settle, reject-settle, update-settle,
}
use vpc_routing.Api.PeeringHandler.{
  CreatePeeringRequest, UpdatePeeringRequest, OverrideRouteRequest, proposed, pending_for,
  require_peering_auth, is_owner, with_policy, redirected, override,
}
use vpc_routing.Controller.Provisioner.{
  ProvisionError, finish, commit, ready, set_fabric, on_fabric, on_ready, provision_peering,
  activated, route_total,
}
use vpc_routing.Controller.Reconciler.{
  ReconcileReport, is_overdue, is_recent, write_state, expire_one, expire_each, provision_one,
  provision_each, deprovision_each, retry_one, retry_each, expiring, empty_report, reconcile_all,
  Pass, in_state, add_provisioned,
}
use vpc_routing.Lifecycle.Handlers.{ok-state}

-- The VPCs and the pool.
abbrev pub net : Db → VpcStore × Allocator
net db = (db.vpcs, db.alloc)

settle-net {ℓ} :
    {A : Type ℓ} (db : Db) {w : Db × Result AppError A} {r : Result AppError (Db × A)}
    → w ≡ settle db r
    → ((db' : Db) (a : A) → r ≡ ok (db', a) → net db' ≡ net db)
    → net w.0 ≡ net db
unfolding settle
settle-net {A = A} db {r = err e} p h = ap (λ (z : Db × Result AppError A). net z.0) p
settle-net {A = A} db {r = ok (db', a)} p h =
    ap (λ (z : Db × Result AppError A). net z.0) p ∙ h db' a refl

pub create-net :
    (x : Externals) (env : Env) (body : Option CreatePeeringRequest) (db : Db)
    → net (Handler.create x env body db).0 ≡ net db
unfolding try_create emit_event
create-net x env body db = settle-net db (create-settle x env body db) λ db' a h.
    let (p, _, h1) = >>=-eq-ok (proposed x env body db) _ h in
    let (_, _, h2) = >>=-eq-ok (Peerings.create db.peerings p) _ h1 in sym (ap net (ok-state h2))

pub update-net :
    (x : Externals) (env : Env) (body : Option UpdatePeeringRequest) (k : Uuid) (db : Db)
    → net (Handler.update x env body k db).0 ≡ net db
unfolding try_update emit_event
update-net x env body k db = settle-net db (update-settle x env body k db) λ db' a h.
    let (acc, _, h1) = >>=-eq-ok (account_from_context env.ctx) _ h in
    let (p, _, h2) = >>=-eq-ok (Peerings.get db.peerings k) _ h1 in
    let (_, _, h3) = >>=-eq-ok (guard (is_owner _ acc) _) _ h2 in
    let (_, _, h4) =
      >>=-eq-ok (guard (p.state == PeeringState.active || p.state == provisioning) _) _ h3 in
    let (req, _, h5) = >>=-eq-ok (or_fail body _) _ h4 in
    let (q, _, h6) =
      >>=-eq-ok (with_policy x.parse_prefix req.route_policy (redirected req.direction p)) _ h5 in
    let (_, _, h7) = >>=-eq-ok (Peerings.update db.peerings q) _ h6 in sym (ap net (ok-state h7))

pub delete-net : (env : Env) (k : Uuid) (db : Db) → net (Handler.delete env k db).0 ≡ net db
unfolding try_delete emit_event
delete-net env k db = settle-net db (delete-settle env k db) λ db' a h.
    let (p, _, h1) = >>=-eq-ok (Peerings.get db.peerings k) _ h in
    let (_, _, h2) = >>=-eq-ok (require_peering_auth env db p) _ h1 in
    let (_, _, h3) = >>=-eq-ok (Peerings.delete db.peerings k env.now) _ h2 in
    sym (ap net (ok-state h3))

pub accept-net : (env : Env) (k : Uuid) (db : Db) → net (Handler.accept env k db).0 ≡ net db
unfolding try_accept emit_event
accept-net env k db = settle-net db (accept-settle env k db) λ db' a h.
    let (p, _, h1) = >>=-eq-ok (pending_for env k db) _ h in
    let (_, _, h2) =
      >>=-eq-ok (Peerings.update db.peerings (record p { state = provisioning })) _ h1 in
    sym (ap net (ok-state h2))

pub reject-net : (env : Env) (k : Uuid) (db : Db) → net (Handler.reject env k db).0 ≡ net db
unfolding try_reject
reject-net env k db =
    settle-net db (reject-settle env k db)
      λ db' a h. let (_, _, h1) = >>=-eq-ok (pending_for env k db) _ h in sym (ap net (ok-state h1))

override-net :
    (env : Env) (db : Db) (k : Uuid) (action : String) (q : Prefix) (db' : Db) (a : Unit {0})
    → try_override env db k action q ≡ ok (db', a)
    → net db' ≡ net db
unfolding emit_event
override-net env db k action q db' a h = ground arith

pub override_route-net :
    (x : Externals) (env : Env) (body : Option OverrideRouteRequest) (k : Uuid) (db : Db)
    → net (Handler.override_route x env body k db).0 ≡ net db
unfolding try_override_route
override_route-net x env body k db =
    settle-net db (override_route-settle x env body k db) λ db' a h.
      let (p, _, h1) = >>=-eq-ok (Peerings.get db.peerings k) _ h in
      let (_, _, h2) = >>=-eq-ok (require_peering_auth env db p) _ h1 in
      let (req, _, h3) = >>=-eq-ok (or_fail body _) _ h2 in
      let (q, _, h4) = >>=-eq-ok (or_fail (x.parse_prefix req.prefix) _) _ h3 in
      override-net env db k req.action q db' a h4

finish-net :
    (env : Env) (k : Uuid) (db : Db) (r : Result AppError PeeringStore)
    → net (finish env k db r).0 ≡ net db
unfolding emit_event
finish-net env k db (ok s) = refl
finish-net env k db (err e) = refl

commit-net :
    (env : Env) (k : Uuid) (db : Db) (p : Peering) (v w : Vpc)
    → net (commit env k db p v w).0 ≡ net db
unfolding commit
commit-net env k db p v w =
    finish-net env k _ (Peerings.update db.peerings (activated env p (route_total p v w)))

write_state-net : (t : PeeringState) (p : Peering) (db : Db) → net (write_state t p db) ≡ net db
unfolding write_state
write_state-net t p db = refl

expire_each-net :
    (now : Time) (ps : List Peering) (w : Db × ReconcileReport)
    → net (expire_each now ps w).0 ≡ net w.0
unfolding expire_each expire_one
expire_each-net now [] w = refl
expire_each-net now (p ∷ ps) (db, r) =
    expire_each-net now ps (expire_one now p (db, r)) ∙ (elim (Bool-cases (is_overdue now p)) [
      | inl e ↦ rw e (write_state-net _ p db)
      | inr e ↦ rw e refl
    ])

module _ (svc : Service) (x : Externals) (now : Time) (env_of : Uuid → Env) where
  open svc use {State}

  on_fabric-net :
      (env : Env) (k : Uuid) (db : Db) (p : Peering) (v w : Vpc)
      (o : State × Result BgpError (Unit {0}))
      → net (on_fabric svc env k db p v w o).0 ≡ net db
  on_fabric-net env k db p v w (s, ok u) = commit-net env k db p v w
  on_fabric-net env k db p v w (s, err e) = refl

  on_ready-net :
      (env : Env) (k : Uuid) (db : Db) (s : State) (r : Result ProvisionError (Peering × Vpc × Vpc))
      → net (on_ready svc x env k db s r).0 ≡ net db
  on_ready-net env k db s (err e) = refl
  on_ready-net env k db s (ok (p, v, w)) = on_fabric-net env k db p v w (set_fabric svc x p v w s)

  provision_one-net :
      (f : ReconcileReport → ReconcileReport) (k : Uuid) (w : Pass svc x now env_of)
      → net (provision_one svc x now env_of f k w).0 ≡ net w.0
  unfolding provision_one provision_peering
  provision_one-net f k (db, s, r) = on_ready-net (env_of k) k db s (ready db k)

  provision_each-net :
      (ps : List Peering) (w : Pass svc x now env_of)
      → net (provision_each svc x now env_of ps w).0 ≡ net w.0
  unfolding provision_each
  provision_each-net [] w = refl
  provision_each-net (p ∷ ps) w =
      provision_each-net ps (provision_one svc x now env_of add_provisioned p.id w)
      ∙ provision_one-net add_provisioned p.id w

  deprovision_each-net :
      (ps : List Peering) (w : Pass svc x now env_of)
      → net (deprovision_each svc x now env_of ps w).0 ≡ net w.0
  unfolding deprovision_each
  deprovision_each-net [] w = refl
  deprovision_each-net (p ∷ ps) (db, s, r) = deprovision_each-net ps _

  retry_one-net :
      (p : Peering) (w : Pass svc x now env_of) → net (retry_one svc x now env_of p w).0 ≡ net w.0
  unfolding retry_one
  retry_one-net p (db, s, r) = elim (Bool-cases (is_recent now p)) [
    | inl e ↦ rw e (provision_one-net _ p.id _ ∙ write_state-net provisioning p db)
    | inr e ↦ rw e refl
  ]

  retry_each-net :
      (ps : List Peering) (w : Pass svc x now env_of)
      → net (retry_each svc x now env_of ps w).0 ≡ net w.0
  unfolding retry_each
  retry_each-net [] w = refl
  retry_each-net (p ∷ ps) w = retry_each-net ps (retry_one svc x now env_of p w) ∙ retry_one-net p w

  expiring-net : (w : Pass svc x now env_of) → net (expiring svc x now env_of w).0 ≡ net w.0
  expiring-net (db, s, r) = expire_each-net now _ (db, r)

  pub reconcile_all-net :
      (db : Db) (s : State) → net (reconcile_all svc x now env_of db s).0 ≡ net db
  unfolding reconcile_all
  reconcile_all-net db s =
      let w0 : Pass svc x now env_of = (db, s, empty_report svc x now env_of) in
      let w1 = provision_each svc x now env_of (in_state svc x now env_of provisioning w0) w0 in
      let w2 =
        deprovision_each svc x now env_of (in_state svc x now env_of PeeringState.deleting w1) w1 in
      let w3 = expiring svc x now env_of w2 in
      retry_each-net (in_state svc x now env_of failed w3) w3
      ∙ expiring-net w2
      ∙ deprovision_each-net (in_state svc x now env_of PeeringState.deleting w1) w1
      ∙ provision_each-net (in_state svc x now env_of provisioning w0) w0
