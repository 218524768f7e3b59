-- ===== src/Api/Serve/Effects.antt =====
-- What one HTTP request of internal/api/router.go may do to the stores.
use vpc_routing.Prelude.{
  sym, subst, ℕ, ◌≤◌, ◌<◌, ◌≡◌, ◌⊎◌, refl, inl, inr, arith, Bool, true, false, Option, none, some,
  List, Result, ok, err,
}
use vpc_routing.Model.Entities.{Uuid, Vpc, AppError}
use vpc_routing.Model.Netip.{Prefix}
use vpc_routing.Store.Vpcs.{VpcStore}
use vpc_routing.Store.Vpcs
use vpc_routing.Vni.{Allocator}
use vpc_routing.Auth.Access.{middleware}
use vpc_routing.Auth.RateLimit.{RateLimiter}
use vpc_routing.Api.Db.{Db, Externals, Env}
use vpc_routing.Api.Settled.{settle}
use vpc_routing.Api.Settled.Handlers.{
  delete_vpc-settle, create-settle, update-settle, delete-settle, accept-settle, reject-settle,
  override_route-settle,
}
use vpc_routing.Api.VpcHandler.{CreateVpcRequest, checked, create_checked, allocated, stored_as}
use vpc_routing.Api.VpcHandler
use vpc_routing.Api.Render.{Response, write_success, write_created, write_list, write_no_content}
use vpc_routing.Api.Router.{
  Endpoint, create_vpc, list_vpcs, get_vpc, delete_vpc, effective_routes, create_peering,
  list_peerings, get_peering, update_peering, delete_peering, accept_peering, reject_peering,
  list_routes, override_route, list_events, Target, serves, answers, route,
}
use vpc_routing.Api.Serve.{
  Libraries, Request, Value, answered, handle, Server, if_allowed, respond, authenticated, serve,
}

-- The same objects: the VNI pool may differ.
pub record SameObjects (db db' : Db) : Type 0 where
  pub vpcs : db'.vpcs ≡ db.vpcs
  pub peerings : db'.peerings ≡ db.peerings
  pub events : db'.events ≡ db.events
  pub routes : db'.routes ≡ db.routes

same : (db : Db) → SameObjects db db
same db = record { vpcs = refl; peerings = refl; events = refl; routes = refl }

-- An outcome that is a success or changes no object.
abbrev Sound : {A : Type 0} → Db → Db × A → (A → ℕ) → Type 0
Sound db (db', a) status = (status a ≤ 204) ⊎ SameObjects db db'

abbrev Good : {A : Type 0} → (A → Response Value) → Type 0
Good {A} f = (a : A) → (f a).status ≤ 204

module _ {A : Type 0} (f : A → Response Value) (good : Good f) where
  read-Sound : (db : Db) (r : Result AppError A) → Sound db (answered f (db, r)) (λ s. s.status)
  read-Sound db (ok a) = inl (good a)
  read-Sound db (err e) = inr (same db)

  settle-Sound :
      (db : Db) {w : Db × Result AppError A} (r : Result AppError (Db × A))
      → w ≡ settle db r
      → Sound db (answered f w) (λ s. s.status)
  unfolding settle
  settle-Sound db r p = subst (λ z. Sound db (answered f z) (λ s. s.status)) (sym p) (at r)
    where
      at : (r : Result AppError (Db × A)) → Sound db (answered f (settle db r)) (λ s. s.status)
      at (ok (db', a)) = inl (good a)
      at (err e) = inr (same db)

module _ (x : Externals) (env : Env) (db : Db) (f : Vpc → Response Value) (good : Good f) where
  stored_as-Sound :
      (alloc : Allocator) (v : Vpc) (r : Result AppError VpcStore)
      → Sound db (answered f (stored_as db alloc v r)) (λ s. s.status)
  stored_as-Sound alloc v (ok s) = inl (good v)
  stored_as-Sound alloc v (err e) =
      inr (record { vpcs = refl; peerings = refl; events = refl; routes = refl })

  allocated-Sound :
      (acc : Uuid) (req : CreateVpcRequest) (cidrs : List Prefix)
      (r : Result AppError (ℕ × Allocator))
      → Sound db (answered f (allocated x env db acc req cidrs r)) (λ s. s.status)
  allocated-Sound acc req cidrs (ok (v, alloc)) = stored_as-Sound alloc _ (Vpcs.create db.vpcs _)
  allocated-Sound acc req cidrs (err e) = inr (same db)

  create_checked-Sound :
      (r : Result AppError (Uuid × CreateVpcRequest × List Prefix))
      → Sound db (answered f (create_checked x env db r)) (λ s. s.status)
  create_checked-Sound (ok (acc, req, cidrs)) = allocated-Sound acc req cidrs _
  create_checked-Sound (err e) = inr (same db)

module _ (lib : Libraries) where
  handle-Sound :
      (e : Endpoint) (req : Request) (env : Env) (db : Db)
      → Sound db (handle lib e req env db) (λ s. s.status)
  unfolding handle VpcHandler.create write_success write_created write_list write_no_content
  handle-Sound create_vpc req env db =
      create_checked-Sound lib.externals env db _ (λ v. omega arith)
        (checked lib.externals env (lib.vpc_body req.body) db)
  handle-Sound list_vpcs req env db = read-Sound _ (λ v. omega arith) db _
  handle-Sound (get_vpc id) req env db = read-Sound _ (λ v. omega arith) db _
  handle-Sound (delete_vpc id) req env db =
      settle-Sound _ (λ v. omega arith) db _ (delete_vpc-settle env id db)
  handle-Sound (effective_routes id) req env db = read-Sound _ (λ v. omega arith) db _
  handle-Sound create_peering req env db =
      settle-Sound _ (λ v. omega arith) db _
        (create-settle lib.externals env (lib.peering_body req.body) db)
  handle-Sound list_peerings req env db = read-Sound _ (λ v. omega arith) db _
  handle-Sound (get_peering id) req env db = read-Sound _ (λ v. omega arith) db _
  handle-Sound (update_peering id) req env db =
      settle-Sound _ (λ v. omega arith) db _
        (update-settle lib.externals env (lib.update_body req.body) id db)
  handle-Sound (delete_peering id) req env db =
      settle-Sound _ (λ v. omega arith) db _ (delete-settle env id db)
  handle-Sound (accept_peering id) req env db =
      settle-Sound _ (λ v. omega arith) db _ (accept-settle env id db)
  handle-Sound (reject_peering id) req env db =
      settle-Sound _ (λ v. omega arith) db _ (reject-settle env id db)
  handle-Sound (list_routes id) req env db = read-Sound _ (λ v. omega arith) db _
  handle-Sound (override_route id) req env db =
      settle-Sound _ (λ v. omega arith) db _
        (override_route-settle lib.externals env (lib.override_body req.body) id db)
  handle-Sound (list_events id) req env db = read-Sound _ (λ v. omega arith) db _

  limited-Sound :
      (e : Endpoint) (req : Request) (env : Env) (db : Db) (r : RateLimiter lib.rate × Bool)
      → ((if_allowed lib e req env db r).1.status ≤ 204)
        ⊎ SameObjects db (if_allowed lib e req env db r).0.db
  limited-Sound e req env db (rl, true) = handle-Sound e req env db
  limited-Sound e req env db (rl, false) = inr (same db)

  respond-Sound :
      (t : Target) (req : Request) (env : Env) (ctx : Option Uuid) (srv : Server lib)
      → ((respond lib t req env ctx srv).1.status ≤ 204)
        ⊎ SameObjects srv.db (respond lib t req env ctx srv).0.db
  respond-Sound (serves e) req env none srv = inr (same srv.db)
  respond-Sound (serves e) req env (some id) srv = limited-Sound e req _ srv.db _
  respond-Sound (answers a) req env ctx srv = inr (same srv.db)

  -- An HTTP request that is answered with a status above 204 changes no VPC, peering, event or
  -- route.
  pub serve-SameObjects :
      (req : Request) (env : Env) (srv : Server lib)
      → 204 < (serve lib req env srv).1.status
      → SameObjects srv.db (serve lib req env srv).0.db
  unfolding serve
  serve-SameObjects req env srv = at (middleware lib.parse_id req.path req.authorization)
    where
      at :
          (r : Result AppError (Option Uuid))
          → 204 < (authenticated lib req env srv r).1.status
          → SameObjects srv.db (authenticated lib req env srv r).0.db
      at (err e) h = same srv.db
      at (ok ctx) h =
          elim (respond-Sound (route lib.parse_id req.method req.path) req env ctx srv) [
            | inl k ↦ absurd (omega (arith, h, k))
            | inr s ↦ s
          ]
