-- ===== src/Programs.antt =====
-- The main.go of cmd/api, cmd/controller, cmd/bgp and cmd/agent: what each program starts with.
use vpc_routing.Prelude.{
  pos, ℕ, ◌<◌, ◌≡◌, inl, inr, ltb, Bool-cases, string_eq, arith, some, String, List, [], ◌∷◌,
  Result, ok, err,
}
use vpc_routing.Prelude.Maps.{lookup, lookup-insert}
use vpc_routing.Vni.{Allocator, VniError, new_allocator, register_region}
use vpc_routing.Auth.RateLimit.{default_rate_limit_config, new_rate_limiter}
use vpc_routing.Bgp.Service.{InMemoryService, new_in_memory_service}
use vpc_routing.Bgp.Service
use vpc_routing.Api.Serve.{Libraries, Server}
use vpc_routing.Config.{
  Environment, RegionConfig, load_api_config, load_bgp_config, load_controller_config,
}
use vpc_routing.Agent.Netlink.{InMemoryNetlink, new_in_memory_netlink}
use vpc_routing.Agent.Reconciler.{DesiredState, no_desired_state}
use vpc_routing.Lifecycle.History.{empty-Inv}
use vpc_routing.Lifecycle.Network.{NetInv}
use vpc_routing.Lifecycle.Served.{Arrival, serve_all}
use vpc_routing.Lifecycle.Uptime.{IsSound, serve_all-IsSound}

-- The result of `RegisterRegion` is dropped.
abbrev pub or_same : Allocator → Result VniError Allocator → Allocator
or_same a (ok b) = b
or_same a (err e) = a

abbrev pub register_all : Allocator → List RegionConfig → Allocator
register_all a [] = a
register_all a (r ∷ rs) = register_all (or_same a (register_region a r.name r.id)) rs

-- The handler of cmd/api/main.go: empty stores, the configured regions, and a fresh rate limiter.
unfoldable pub api_server : (lib : Libraries) → Environment → Server lib
unfolding load_api_config register_region
api_server lib env = record {
  db = record {
    vpcs = [];
    peerings = [];
    events = [];
    routes = [];
    alloc = register_all new_allocator (load_api_config env).regions;
  };
  limiter = new_rate_limiter lib.rate default_rate_limit_config;
}

-- The BGP service of cmd/controller/main.go, started; `ListenPort` is left at its zero value.
unfoldable pub controller_service : Environment → InMemoryService
unfolding load_controller_config new_in_memory_service Service.start
controller_service env =
    let bgp = (load_controller_config env).bgp in
    Service.start (
      new_in_memory_service (record {
        local_asn = bgp.local_asn;
        router_id = bgp.router_id;
        listen_port = pos 0;
        route_reflectors = bgp.route_reflectors;
      }))

-- The one of cmd/bgp/main.go.
unfoldable pub bgp_service : Environment → InMemoryService
unfolding load_bgp_config new_in_memory_service Service.start
bgp_service env =
    let bgp = load_bgp_config env in
    Service.start (
      new_in_memory_service (record {
        local_asn = bgp.local_asn;
        router_id = bgp.router_id;
        listen_port = bgp.listen_port;
        route_reflectors = bgp.route_reflectors;
      }))

-- The host and the desired state of cmd/agent/main.go, which nothing sets later.
abbrev pub agent_state : InMemoryNetlink × DesiredState
agent_state = (new_in_memory_netlink, no_desired_state)

abbrev Small : Allocator → Type 0
Small a = (name : String) (r : ℕ) → lookup name a.region_map ≡ some r → r < 16

register_region-Small :
    (a : Allocator) (name : String) (id : ℕ)
    → Small a
    → Small (or_same a (register_region a name id))
unfolding register_region
register_region-Small a name id h = elim (Bool-cases (ltb 15 id)) [
  | inl e ↦ rw e h
  | inr e ↦ rw e (λ n r q. ground (arith, h n r, q, lookup-insert name n id a.region_map, e))
]

register_all-Small : (a : Allocator) (rs : List RegionConfig) → Small a → Small (register_all a rs)
register_all-Small a [] h = h
register_all-Small a (r ∷ rs) h =
    register_all-Small (or_same a (register_region a r.name r.id)) rs
      (register_region-Small a r.name r.id h)

new-Small : Small new_allocator
unfolding lookup
new-Small name r h = cc

module _ (svc : Service.Service) (lib : Libraries) where
  open svc use {State}

  started-NetInv : (env : Environment) → NetInv (api_server lib env).db
  unfolding api_server
  started-NetInv env = record {
    regions = register_all-Small new_allocator (load_api_config env).regions new-Small;
    vnis = λ n. omega arith;
    apart = tt;
  }

  -- The server that cmd/api/main.go starts, over any sequence of HTTP requests and of reconciler
  -- passes over its stores, with any BGP service and any token bucket, keeps the invariant of
  -- the peering store and that of the VPCs and the VNI pool, and its rate limiter holds at most
  -- 10,000 accounts, none twice.
  pub served-IsSound :
      (env : Environment) (arrivals : List Arrival) (s : State)
      → IsSound svc lib (serve_all svc lib arrivals (api_server lib env, s))
  served-IsSound env arrivals s =
      serve_all-IsSound svc lib arrivals (api_server lib env, s)
        (record {
          peerings = unfold api_server in empty-Inv;
          network = started-NetInv env;
          limiter = unfold api_server in record { distinct = tt; size = omega arith };
        })
