-- ===== src/Lifecycle/Uptime.antt =====
-- What a running server keeps, over any history of requests and ticks.
use vpc_routing.Prelude.{
  Bool, true, false, Option, none, some, List, [], ◌∷◌, Result, ok, err, subst,
}
use vpc_routing.Model.Entities.{Uuid, AppError}
use vpc_routing.Auth.Access.{middleware}
use vpc_routing.Auth.RateLimit.{RateLimiter, allow}
use vpc_routing.Auth.Buckets.Eviction.{IsBounded, allow-Answers}
use vpc_routing.Bgp.Service.{Service}
use vpc_routing.Api.Db.{Env}
use vpc_routing.Api.Router.{Target, serves, answers, route, kind_of}
use vpc_routing.Api.Serve.{Libraries, Request, Server, if_allowed, respond, authenticated, serve}
use vpc_routing.Lifecycle.History.{World, run-Inv}
use vpc_routing.Lifecycle.Invariant.{Inv}
use vpc_routing.Lifecycle.Network.{NetInv}
use vpc_routing.Lifecycle.Tenancy.{run-NetInv}
use vpc_routing.Lifecycle.Served.{
  Arrival, request, tick, Running, world, arrive, serve_all, serve_all-Runs,
}

module _ (svc : Service) (lib : Libraries) where
  open svc use {State}

  -- The objects of a running server, and its rate limiter.
  pub record IsSound (w : Running svc lib) : Type 0 where
    pub peerings : Inv w.0.db.peerings
    pub network : NetInv w.0.db
    pub limiter : IsBounded lib.rate w.0.limiter

  respond-IsBounded :
      (t : Target) (ctx : Option Uuid) (req : Request) (env : Env) (srv : Server lib)
      → IsBounded lib.rate srv.limiter
      → IsBounded lib.rate (respond lib t req env ctx srv).0.limiter
  respond-IsBounded (serves e) none req env srv w = w
  respond-IsBounded (serves e) (some acc) req env srv w =
      asked (allow lib.rate (kind_of e) env.now acc srv.limiter)
        (allow-Answers lib.rate (kind_of e) env.now acc srv.limiter w).bounded
    where
      asked :
          (r : RateLimiter lib.rate × Bool)
          → IsBounded lib.rate r.0
          → IsBounded lib.rate
              (if_allowed lib e req (record env { ctx = some acc }) srv.db r).0.limiter
      asked (rl, true) h = h
      asked (rl, false) h = h
  respond-IsBounded (answers a) ctx req env srv w = w

  serve-IsBounded :
      (req : Request) (env : Env) (srv : Server lib)
      → IsBounded lib.rate srv.limiter
      → IsBounded lib.rate (serve lib req env srv).0.limiter
  unfolding serve
  serve-IsBounded req env srv w = at (middleware lib.parse_id req.path req.authorization)
    where
      at :
          (r : Result AppError (Option Uuid))
          → IsBounded lib.rate (authenticated lib req env srv r).0.limiter
      at (err e) = w
      at (ok ctx) = respond-IsBounded (route lib.parse_id req.method req.path) ctx req env srv w

  serve_all-IsBounded :
      (arrivals : List Arrival) (w : Running svc lib)
      → IsBounded lib.rate w.0.limiter
      → IsBounded lib.rate (serve_all svc lib arrivals w).0.limiter
  unfolding serve_all arrive
  serve_all-IsBounded [] w h = h
  serve_all-IsBounded (request req env ∷ arrivals) (srv, s) h =
      serve_all-IsBounded arrivals _ (serve-IsBounded req env srv h)
  serve_all-IsBounded (tick now env_of ∷ arrivals) (srv, s) h = serve_all-IsBounded arrivals _ h

  pub serve_all-IsSound :
      (arrivals : List Arrival) (w : Running svc lib)
      → IsSound w
      → IsSound (serve_all svc lib arrivals w)
  serve_all-IsSound arrivals w h =
      let (os, e) = serve_all-Runs svc lib arrivals w in
      record {
        peerings =
            subst (λ (v : World svc lib.externals). Inv v.0.peerings) e
              (run-Inv svc lib.externals os (world svc lib w) h.peerings);
        network =
            subst (λ (v : World svc lib.externals). NetInv v.0) e
              (run-NetInv svc lib.externals os (world svc lib w) h.network);
        limiter = serve_all-IsBounded arrivals w h.limiter;
      }
