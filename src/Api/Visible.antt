-- ===== src/Api/Visible.antt =====
-- Who gets an answer from the handlers of internal/api/peering_handler.go, and about what.
use vpc_routing.Prelude.{
  ◌≡◌, ◌≢◌, ◌⊎◌, refl, sym, inl, inr, arith, Bool, true, false, ◌||◌, Option, none, some, List,
  Result, ok, err, ◌>>=◌, ◌>>◌, >>=-eq-ok, guard, value, ◌==◌, nat_eq, Bool-cases,
}
use vpc_routing.Model.Entities.{Uuid, nil_uuid, Vpc, Peering, state_eq, RouteEntry, AppError}
use vpc_routing.Store.Vpcs
use vpc_routing.Store.Peerings
use vpc_routing.Auth.Access.{account_from_context, require_peering_access}
use vpc_routing.Api.Settled.{settle-answer, try_delete, try_override_route}
use vpc_routing.Api.Settled.Handlers.{delete-settle, override_route-settle}
use vpc_routing.Api.Db.{Db, Externals, Env}
use vpc_routing.Api.PeeringHandler as Handler
use vpc_routing.Api.PeeringHandler.{OverrideRouteRequest, require_peering_auth, account_or_nil}
use vpc_routing.Api.Queries
use vpc_routing.Api.Queries.{show_peering, show_peerings, show_routes}

-- The account has the VPC, and it is not deleted.
abbrev pub Owns : Db → Uuid → Uuid → Type 0
Owns db account k = (v : Vpc) × (Vpcs.get db.vpcs k ≡ ok v) × (v.account_id ≡ account)

-- The caller is known, and if its identifier is not the nil one, it owns a side of the peering.
pub record IsParty (env : Env) (db : Db) (p : Peering) : Type 0 where
  pub caller : Uuid
  pub known : env.ctx ≡ some caller
  pub side :
      caller ≢ nil_uuid → Owns db caller p.requester_vpc_id ⊎ Owns db caller p.accepter_vpc_id

-- The identifier names a peering that is not deleted, and the caller is a party to it.
pub record MayAccess (env : Env) (db : Db) (k : Uuid) : Type 0 where
  pub peering : Peering
  pub found : Peerings.get db.peerings k ≡ ok peering
  pub party : IsParty env db peering

owner-Owns :
    (db : Db) (k a : Uuid)
    → a ≢ nil_uuid
    → a ≡ account_or_nil (value (Vpcs.get db.vpcs k))
    → Owns db a k
owner-Owns db k a h e = at (Vpcs.get db.vpcs k) refl e
  where
    at :
        (r : Result AppError Vpc)
        → Vpcs.get db.vpcs k ≡ r
        → a ≡ account_or_nil (value r)
        → Owns db a k
    at (ok v) g q = (v, g, sym q)
    at (err x) g q = absurd (h q)

pub guard-holds : (b : Bool) (e : AppError) (u : Unit {0}) → guard b e ≡ ok u → b ≡ true
guard-holds true e u h = refl
guard-holds false e u h = cc

pub account-known : (o : Option Uuid) (a : Uuid) → account_from_context o ≡ ok a → o ≡ some a
account-known none a h = cc
account-known (some b) a h = cc

require_peering_auth-IsParty :
    (env : Env) (db : Db) (p : Peering) (u : Unit {0})
    → require_peering_auth env db p ≡ ok u
    → IsParty env db p
unfolding require_peering_auth require_peering_access
require_peering_auth-IsParty env db p u h =
    let r = account_or_nil (value (Vpcs.get db.vpcs p.requester_vpc_id)) in
    let t = account_or_nil (value (Vpcs.get db.vpcs p.accepter_vpc_id)) in
    let (a, e, h1) = >>=-eq-ok (account_from_context env.ctx) _ h in
    let g : (a == r || a == t) ≡ true = guard-holds (a == r || a == t) _ u h1 in
    record {
      caller = a;
      known = account-known env.ctx a e;
      side = λ n. elim (Bool-cases (a == r)) [
        | inl q ↦ inl (owner-Owns db p.requester_vpc_id a n ((nat_eq.beq_iff a r).0 q))
        | inr q ↦ inr (owner-Owns db p.accepter_vpc_id a n ((nat_eq.beq_iff a t).0 (ground arith)))
      ];
    }

after_check :
    {B : Type 0} (env : Env) (db : Db) (k : Uuid) (f : Peering → Result AppError B) (b : B)
    → (Peerings.get db.peerings k >>= λ p. require_peering_auth env db p >> f p) ≡ ok b
    → MayAccess env db k
after_check env db k f b h =
    let (p, g, h1) = >>=-eq-ok (Peerings.get db.peerings k) _ h in
    let (u, c, h2) = >>=-eq-ok (require_peering_auth env db p) _ h1 in
    record { peering = p; found = g; party = require_peering_auth-IsParty env db p u c }

-- One of the four handlers that only a party may call has answered without an error.
pub data Answered (x : Externals) (env : Env) (k : Uuid) (body : Option OverrideRouteRequest)
    (db : Db) : Type 0 where
  got : (p : Peering) → Queries.get env k db ≡ ok p → Answered x env k body db
  listed_routes :
      (rs : List RouteEntry) → Queries.list_routes env k db ≡ ok rs → Answered x env k body db
  deleted : (u : Unit {0}) → (Handler.delete env k db).1 ≡ ok u → Answered x env k body db
  overrode :
      (u : Unit {0}) → (Handler.override_route x env body k db).1 ≡ ok u → Answered x env k body db

-- Where `Get`, `ListRoutes`, `Delete` or `OverrideRoute` of a peering answers without an error,
-- the peering exists, the caller has an account, and unless that is the nil account, it owns a
-- VPC of the peering.
pub answer-MayAccess :
    (x : Externals) (env : Env) (k : Uuid) (body : Option OverrideRouteRequest) (db : Db)
    → Answered x env k body db
    → MayAccess env db k
unfolding Queries.get Queries.list_routes try_delete try_override_route
answer-MayAccess x env k body db (got p h) = after_check env db k _ p h
answer-MayAccess x env k body db (listed_routes rs h) = after_check env db k _ rs h
answer-MayAccess x env k body db (deleted u h) =
    let (d, r) = settle-answer db (try_delete env k db) u (delete-settle env k db) h in
    after_check env db k _ (d, u) r
answer-MayAccess x env k body db (overrode u h) =
    let (d, r) =
      settle-answer db (try_override_route x env body k db) u
        (override_route-settle x env body k db) h in
    after_check env db k _ (d, u) r
