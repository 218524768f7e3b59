-- ===== src/Lifecycle/Served.antt =====
-- The HTTP server of internal/api/router.go over a history of requests, with the reconciler's ticks
-- between them.
use vpc_routing.Prelude.{
  ℕ, ◌≡◌, ◌⊎◌, refl, sym, ap, ◌∙◌, inl, inr, Bool, true, false, Option, none, some, List, [], ◌∷◌,
  ◌++◌, Result, ok, err,
}
use vpc_routing.Model.Entities.{Uuid, Time, AppError}
use vpc_routing.Auth.Access.{middleware}
use vpc_routing.Auth.Bearer.{IsBearer, middleware-IsBearer}
use vpc_routing.Api.Router.Reached.{IsCall, route-IsCall}
use vpc_routing.Auth.RateLimit.{RateLimiter}
use vpc_routing.Bgp.Service.{Service}
use vpc_routing.Api.Db.{Db, Env}
use vpc_routing.Api.Router.{
  Endpoint, create_vpc, list_vpcs, get_vpc, delete_vpc, effective_routes, create_peering,
  list_peerings, get_peering, update_peering, delete_peering, accept_peering, reject_peering,
  list_routes, override_route, list_events, Target, serves, answers, route,
}
use vpc_routing.Api.Serve.{
  Libraries, Request, Value, answered, handle, Server, if_allowed, respond, authenticated, serve,
}
use vpc_routing.Api.Render.{Response}
use vpc_routing.Controller.Reconciler.{reconcile_all}
use vpc_routing.Lifecycle.History.{Op, World, step, run}

pub data Arrival : Type 0 where
  request : Request → Env → Arrival
  tick : Time → (Uuid → Env) → Arrival

answered-db :
    {A : Type 0} (f : A → Response Value) (w : Db × Result AppError A) → (answered f w).0 ≡ w.0
answered-db f (db, ok a) = refl
answered-db f (db, err e) = refl

module _ (svc : Service) (lib : Libraries) where
  open svc use {State}

  -- The operation of a request's endpoint, if it is one that changes the stores.
  abbrev pub ops_of : Endpoint → Request → Env → List Op
  ops_of create_vpc req env = Op.create_vpc env (lib.vpc_body req.body) ∷ []
  ops_of (delete_vpc id) req env = Op.delete_vpc env id ∷ []
  ops_of create_peering req env = Op.create_peering env (lib.peering_body req.body) ∷ []
  ops_of (update_peering id) req env = Op.update_peering env (lib.update_body req.body) id ∷ []
  ops_of (delete_peering id) req env = Op.delete_peering env id ∷ []
  ops_of (accept_peering id) req env = Op.accept_peering env id ∷ []
  ops_of (reject_peering id) req env = Op.reject_peering env id ∷ []
  ops_of (override_route id) req env = Op.override_route env (lib.override_body req.body) id ∷ []
  ops_of e req env = []

  handle-run :
      (e : Endpoint) (req : Request) (env : Env) (db : Db) (s : State)
      → run svc lib.externals (ops_of e req env) (db, s) ≡ ((handle lib e req env db).0, s)
  unfolding run step handle
  handle-run create_vpc req env db s = ap (λ d. (d, s)) (sym (answered-db _ _))
  handle-run list_vpcs req env db s = ap (λ d. (d, s)) (sym (answered-db _ _))
  handle-run (get_vpc id) req env db s = ap (λ d. (d, s)) (sym (answered-db _ _))
  handle-run (delete_vpc id) req env db s = ap (λ d. (d, s)) (sym (answered-db _ _))
  handle-run (effective_routes id) req env db s = ap (λ d. (d, s)) (sym (answered-db _ _))
  handle-run create_peering req env db s = ap (λ d. (d, s)) (sym (answered-db _ _))
  handle-run list_peerings req env db s = ap (λ d. (d, s)) (sym (answered-db _ _))
  handle-run (get_peering id) req env db s = ap (λ d. (d, s)) (sym (answered-db _ _))
  handle-run (update_peering id) req env db s = ap (λ d. (d, s)) (sym (answered-db _ _))
  handle-run (delete_peering id) req env db s = ap (λ d. (d, s)) (sym (answered-db _ _))
  handle-run (accept_peering id) req env db s = ap (λ d. (d, s)) (sym (answered-db _ _))
  handle-run (reject_peering id) req env db s = ap (λ d. (d, s)) (sym (answered-db _ _))
  handle-run (list_routes id) req env db s = ap (λ d. (d, s)) (sym (answered-db _ _))
  handle-run (override_route id) req env db s = ap (λ d. (d, s)) (sym (answered-db _ _))
  handle-run (list_events id) req env db s = ap (λ d. (d, s)) (sym (answered-db _ _))

  -- What a request does to the stores: nothing, or the operation of its endpoint, by the account of its
  -- token.
  pub record Effect (req : Request) (env : Env) (db db' : Db) (s : State) : Type 0 where
    pub account : Uuid
    pub endpoint : Endpoint
    pub token : List ℕ
    pub is_bearer : IsBearer req.authorization token
    pub is_token : lib.parse_id token ≡ some account
    pub is_call : IsCall lib.parse_id req.method req.path endpoint
    pub is_operation :
        run svc lib.externals (ops_of endpoint req (record env { ctx = some account })) (db, s)
        ≡ (db', s)

  limited-Effect :
      (e : Endpoint) (acc : Uuid) (req : Request) (env : Env) (db : Db) (s : State)
      (r : RateLimiter lib.rate × Bool)
      → middleware lib.parse_id req.path req.authorization ≡ ok (some acc)
      → route lib.parse_id req.method req.path ≡ serves e
      → ((if_allowed lib e req (record env { ctx = some acc }) db r).0.db ≡ db)
        ⊎ Effect req env db (if_allowed lib e req (record env { ctx = some acc }) db r).0.db s
  limited-Effect e acc req env db s (rl, false) a t = inl refl
  limited-Effect e acc req env db s (rl, true) a t =
      let (token, b, r) = middleware-IsBearer lib.parse_id req.path req.authorization acc a in
      inr (record {
        account = acc;
        endpoint = e;
        token = token;
        is_bearer = b;
        is_token = r;
        is_call = route-IsCall lib.parse_id req.method req.path e t;
        is_operation = handle-run e req (record env { ctx = some acc }) db s;
      })

  respond-Effect :
      (t : Target) (ctx : Option Uuid) (req : Request) (env : Env) (srv : Server lib) (s : State)
      → middleware lib.parse_id req.path req.authorization ≡ ok ctx
      → route lib.parse_id req.method req.path ≡ t
      → ((respond lib t req env ctx srv).0.db ≡ srv.db)
        ⊎ Effect req env srv.db (respond lib t req env ctx srv).0.db s
  respond-Effect (serves e) none req env srv s a t = inl refl
  respond-Effect (serves e) (some acc) req env srv s a t =
      limited-Effect e acc req env srv.db s _ a t
  respond-Effect (answers a) ctx req env srv s h t = inl refl

  -- An HTTP request leaves the stores as they are, or its header is the word bearer, in letters
  -- of either case, a space and a token that is read as an account, its method and the words of
  -- its path are those of an endpoint, with the identifier that the path has, and it does to the
  -- stores what the operation of that endpoint does for that account, which for an endpoint that
  -- reads is nothing.
  pub serve-Effect :
      (req : Request) (env : Env) (srv : Server lib) (s : State)
      → ((serve lib req env srv).0.db ≡ srv.db)
        ⊎ Effect req env srv.db (serve lib req env srv).0.db s
  unfolding serve
  serve-Effect req env srv s = at (middleware lib.parse_id req.path req.authorization) refl
    where
      at :
          (r : Result AppError (Option Uuid))
          → middleware lib.parse_id req.path req.authorization ≡ r
          → ((authenticated lib req env srv r).0.db ≡ srv.db)
            ⊎ Effect req env srv.db (authenticated lib req env srv r).0.db s
      at (err e) a = inl refl
      at (ok ctx) a =
          respond-Effect (route lib.parse_id req.method req.path) ctx req env srv s a refl

  -- A server with the fabric that the reconciler drives.
  abbrev pub Running : Type 0
  Running = Server lib × State

  unfoldable pub arrive : Arrival → Running → Running
  arrive (request req env) (srv, s) = ((serve lib req env srv).0, s)
  arrive (tick now env_of) (srv, s) =
      let w = reconcile_all svc lib.externals now env_of srv.db s in (record srv { db = w.0 }, w.1)

  unfoldable pub serve_all : List Arrival → Running → Running
  unfolding arrive
  serve_all [] w = w
  serve_all (a ∷ arrivals) w = serve_all arrivals (arrive a w)

  abbrev pub world : Running → World svc lib.externals
  world (srv, s) = (srv.db, s)

  abbrev Runs : World svc lib.externals → World svc lib.externals → Type 0
  Runs w w' = (os : List Op) × (run svc lib.externals os w ≡ w')

  run-append :
      (os qs : List Op) (w : World svc lib.externals)
      → run svc lib.externals (os ++ qs) w ≡ run svc lib.externals qs (run svc lib.externals os w)
  unfolding run
  run-append [] qs w = refl
  run-append (o ∷ os) qs w = run-append os qs (step svc lib.externals o w)

  Runs-trans : (u v w : World svc lib.externals) → Runs u v → Runs v w → Runs u w
  Runs-trans u v w (os, p) (qs, q) =
      (os ++ qs, run-append os qs u ∙ ap (run svc lib.externals qs) p ∙ q)

  arrive-Runs : (a : Arrival) (w : Running) → Runs (world w) (world (arrive a w))
  unfolding arrive run step
  arrive-Runs (request req env) (srv, s) = elim (serve-Effect req env srv s) [
    | inl e ↦ ([], ap (λ (d : Db). (d, s)) (sym e))
    | inr f ↦ (ops_of f.endpoint req (record env { ctx = some f.account }), f.is_operation)
  ]
  arrive-Runs (tick now env_of) (srv, s) = (Op.reconcile now env_of ∷ [], refl)

  pub serve_all-Runs :
      (arrivals : List Arrival) (w : Running) → Runs (world w) (world (serve_all arrivals w))
  unfolding serve_all
  serve_all-Runs [] w = ([], unfold run in refl)
  serve_all-Runs (a ∷ arrivals) w =
      Runs-trans (world w) (world (arrive a w)) _ (arrive-Runs a w)
        (serve_all-Runs arrivals (arrive a w))
