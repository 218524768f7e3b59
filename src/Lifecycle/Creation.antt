-- ===== src/Lifecycle/Creation.antt =====
-- `Create` of internal/api/peering_handler.go stores only a peering that the store admits, and
-- `OverrideRoute` leaves the peerings alone.
use vpc_routing.Prelude.{
  ◌≡◌, refl, sym, ap, ◌≢◌, ◌⊎◌, inl, inr, arith, Bool, true, false, not, Option, none, some, String,
  ok, ◌==◌, ◌!=◌, nat_eq, nat_beq_iff, >>=-eq-ok, guard, if◌then◌else◌, subst, string_eq,
  Bool-cases, ok-inj,
}
use vpc_routing.Model.Netip.{Prefix}
use vpc_routing.Model.Cidr.{cidrs_overlap}
use vpc_routing.Model.Entities.{
  Uuid, Vpc, Peering, PeeringDirection, pending_acceptance, provisioning, AppError,
  err_invalid_input, err_permission_denied, err_cidr_overlap,
}
use vpc_routing.Model.Policy.{RoutePolicy}
use vpc_routing.Store.Vpcs
use vpc_routing.Store.Peerings
use vpc_routing.Auth.Access.{account_from_context}
use vpc_routing.Api.Db.{Db, Externals, Env, or_fail, emit_event}
use vpc_routing.Api.PeeringHandler.{
  CreatePeeringRequest, OverrideRouteRequest, admits, proposed, chosen_direction,
  parse_route_policy, new_peering, require_peering_auth, endpoints, peers, with_endpoints,
}
use vpc_routing.Api.PeeringHandler as Handler
use vpc_routing.Api.Settled.{try_override, try_create, try_override_route}
use vpc_routing.Api.Settled.Handlers.{create-settle, override_route-settle}
use vpc_routing.Lifecycle.Change.{IsAdmitted, Change, stays, adds}
use vpc_routing.Lifecycle.Handlers.{settle-Change, ok-state}

-- The state of a new peering: nobody is asked where both VPCs have one owner.
abbrev pub Starts : Vpc → Vpc → Peering → Type 0
Starts v w p =
    ((v.account_id ≡ w.account_id) × (p.state ≡ provisioning))
    ⊎ ((v.account_id ≢ w.account_id) × (p.state ≡ pending_acceptance))

-- What `Create` has checked when it stores `p`: the caller owns the requester, both VPCs exist and
-- share no address block, and the store has no live peering of the pair and room on both sides.
pub record IsProposed (env : Env) (db : Db) (p : Peering) : Type 0 where
  pub requester : Vpc
  pub accepter : Vpc
  pub caller : env.ctx ≡ some p.account_id
  pub owned : requester.account_id ≡ p.account_id
  pub requester_found : Vpcs.get db.vpcs p.requester_vpc_id ≡ ok requester
  pub accepter_found : Vpcs.get db.vpcs p.accepter_vpc_id ≡ ok accepter
  pub no_overlap : cidrs_overlap requester.cidr_blocks accepter.cidr_blocks ≡ false
  pub admitted : IsAdmitted db.peerings p
  pub started : Starts requester accepter p

guard-true : (b : Bool) (e : AppError) (u : Unit {0}) → guard b e ≡ ok u → b ≡ true
guard-true true e u h = refl
guard-true false e u h = cc

context-some : (o : Option Uuid) (a : Uuid) → account_from_context o ≡ ok a → o ≡ some a
context-some none a h = cc
context-some (some b) a h = cc

not-true : (b : Bool) → not b ≡ true → b ≡ false
not-true b h = ground arith

initial-state :
    (b : Bool)
    → ((if b then provisioning else pending_acceptance) ≡ pending_acceptance)
      ⊎ ((if b then provisioning else pending_acceptance) ≡ provisioning)
initial-state true = inr refl
initial-state false = inl refl

started-at :
    (a b : Uuid)
    → ((a ≡ b) × ((if a == b then provisioning else pending_acceptance) ≡ provisioning))
      ⊎ ((a ≢ b) × ((if a == b then provisioning else pending_acceptance) ≡ pending_acceptance))
started-at a b = elim (Bool-cases (a == b)) [
  | inl e ↦ inl ((nat_beq_iff a b).0 e, rw e refl)
  | inr e ↦ inr (λ q. ground (arith, nat_beq_iff a b), rw e refl)
]

ids-apart : (i j : Uuid) → (i != j) ≡ true → i ≢ j
ids-apart i j h q = ground (arith, nat_beq_iff i j)

endpoints-ok :
    (x : Externals) (env : Env) (body : Option CreatePeeringRequest)
    (n : Uuid × CreatePeeringRequest × Uuid × Uuid)
    → endpoints x env body ≡ ok n
    → (env.ctx ≡ some n.0) × (n.2 ≢ n.3)
unfolding endpoints
endpoints-ok x env body n h =
    let (acc, c, h1) = >>=-eq-ok (account_from_context env.ctx) _ h in
    let (req, _, h2) = >>=-eq-ok (or_fail body _) _ h1 in
    let (ri, _, h3) = >>=-eq-ok (or_fail (x.parse_uuid req.requester_vpc_id) _) _ h2 in
    let (ai, _, h4) = >>=-eq-ok (or_fail (x.parse_uuid req.accepter_vpc_id) _) _ h3 in
    let (u, d, h5) = >>=-eq-ok (guard (ri != ai) _) _ h4 in
    subst (λ (m : Uuid × CreatePeeringRequest × Uuid × Uuid). (env.ctx ≡ some m.0) × (m.2 ≢ m.3))
      (ok-inj h5) (context-some env.ctx acc c, ids-apart ri ai (guard-true _ err_invalid_input u d))

peers-ok :
    (db : Db) (acc ri ai : Uuid) (v : Vpc × Vpc)
    → peers db acc ri ai ≡ ok v
    → (Vpcs.get db.vpcs ri ≡ ok v.0)
      × (v.0.account_id ≡ acc)
      × (Vpcs.get db.vpcs ai ≡ ok v.1)
      × (cidrs_overlap v.0.cidr_blocks v.1.cidr_blocks ≡ false)
unfolding peers
peers-ok db acc ri ai v h =
    let (r, rf, h1) = >>=-eq-ok (Vpcs.get db.vpcs ri) _ h in
    let (u, o, h2) = >>=-eq-ok (guard (r.account_id == acc) _) _ h1 in
    let (a, af, h3) = >>=-eq-ok (Vpcs.get db.vpcs ai) _ h2 in
    let (w, n, h4) = >>=-eq-ok (guard (not (cidrs_overlap r.cidr_blocks a.cidr_blocks)) _) _ h3 in
    subst
      (λ (z : Vpc × Vpc).
        (Vpcs.get db.vpcs ri ≡ ok z.0)
        × (z.0.account_id ≡ acc)
        × (Vpcs.get db.vpcs ai ≡ ok z.1)
        × (cidrs_overlap z.0.cidr_blocks z.1.cidr_blocks ≡ false))
      (ok-inj h4)
      (
        rf,
        (nat_beq_iff r.account_id acc).0 (guard-true _ err_permission_denied u o),
        af,
        not-true _ (guard-true _ err_cidr_overlap w n),
      )

new-IsProposed :
    (env : Env) (db : Db) (acc ri ai : Uuid) (v : Vpc × Vpc) (dir : PeeringDirection)
    (pol : RoutePolicy)
    → (env.ctx ≡ some acc) × (ri ≢ ai)
    → peers db acc ri ai ≡ ok v
    → admits db.peerings ri ai ≡ ok tt
    → IsProposed env db (new_peering env acc v.0 v.1 dir pol ri ai)
new-IsProposed env db acc ri ai v dir pol e h m =
    let q = peers-ok db acc ri ai v h in
    record {
      requester = v.0;
      accepter = v.1;
      caller = e.0;
      owned = q.1;
      requester_found = q.0;
      accepter_found = q.2;
      no_overlap = q.3;
      admitted = record {
        room = m;
        apart = e.1;
        initial = initial-state (v.0.account_id == v.1.account_id);
      };
      started = started-at v.0.account_id v.1.account_id;
    }

with_endpoints-IsProposed :
    (x : Externals) (env : Env) (db : Db) (n : Uuid × CreatePeeringRequest × Uuid × Uuid)
    (p : Peering)
    → (env.ctx ≡ some n.0) × (n.2 ≢ n.3)
    → with_endpoints x env db n ≡ ok p
    → IsProposed env db p
with_endpoints-IsProposed x env db (acc, req, ri, ai) p e h =
    let (v, q, h1) = >>=-eq-ok (peers db acc ri ai) _ h in
    let (u, m, h2) = >>=-eq-ok (admits db.peerings ri ai) _ h1 in
    let (dir, _, h3) = >>=-eq-ok (chosen_direction req.direction) _ h2 in
    let (pol, _, h4) = >>=-eq-ok (parse_route_policy x.parse_prefix req.route_policy) _ h3 in
    subst (IsProposed env db) (ok-inj h4) (new-IsProposed env db acc ri ai v dir pol e q m)

pub proposed-IsProposed :
    (x : Externals) (env : Env) (body : Option CreatePeeringRequest) (db : Db) (p : Peering)
    → proposed x env body db ≡ ok p
    → IsProposed env db p
unfolding proposed
proposed-IsProposed x env body db p h =
    let (n, e, h1) = >>=-eq-ok (endpoints x env body) _ h in
    with_endpoints-IsProposed x env db n p (endpoints-ok x env body n e) h1

pub create-Change :
    (x : Externals) (env : Env) (body : Option CreatePeeringRequest) (db : Db)
    → Change db.peerings (Handler.create x env body db).0.peerings
unfolding try_create emit_event Peerings.create
create-Change x env body db = settle-Change db (create-settle x env body db) λ db' a h.
    let (p, f, h1) = >>=-eq-ok (proposed x env body db) _ h in
    adds p (proposed-IsProposed x env body db p f).admitted
      (sym (ap (λ (r : Db). r.peerings) (ok-state h1)))

override-peerings :
    (env : Env) (db : Db) (k : Uuid) (action : String) (q : Prefix) (db' : Db) (a : Unit {0})
    → try_override env db k action q ≡ ok (db', a)
    → db'.peerings ≡ db.peerings
unfolding emit_event
override-peerings env db k action q db' a h = ground arith

pub override_route-Change :
    (x : Externals) (env : Env) (body : Option OverrideRouteRequest) (k : Uuid) (db : Db)
    → Change db.peerings (Handler.override_route x env body k db).0.peerings
unfolding try_override_route
override_route-Change x env body k db =
    settle-Change db (override_route-settle x env body k db) λ db' a h.
      let (p, _, h1) = >>=-eq-ok (Peerings.get db.peerings k) _ h in
      let (_, _, h2) = >>=-eq-ok (require_peering_auth env db p) _ h1 in
      let (req, _, h3) = >>=-eq-ok (or_fail body _) _ h2 in
      let (q, _, h4) = >>=-eq-ok (or_fail (x.parse_prefix req.prefix) _) _ h3 in
      stays (override-peerings env db k req.action q db' a h4)
