-- ===== src/Lib.antt =====
-- VPC routing: the control plane of VPC peering.
--
-- An API (internal/api) creates and deletes VPCs and peerings. A VPC's blocks are checked by
-- internal/model and its VXLAN identifier comes from the pool of internal/vni. A peering starts as
-- pending or as provisioning, and the controller (internal/controller) takes it on: its reconciler
-- lists the peerings by state and has the provisioner set route targets and inject routes through
-- the BGP service (internal/bgp) and mark the peering as active. The stores of internal/store hold
-- the VPCs, the peerings, their events and their routes. In front of the API stand the header check
-- and the rate limiter of internal/auth. An agent (internal/agent) corrects the drift of a host's
-- VRFs, routes and firewall from a desired state.
--
-- - Model.Cidr, Model.Policy, Model.Entities: internal/model. `Model.Netip` holds what the program
--   uses of the standard library's net/netip: `Masked`, `Contains` and `Overlaps` over an address
--   that is a family and a number, and a prefix that keeps its length plus one, 0 for the invalid
--   one. A UUID is its 16 bytes as a number, a time a count of nanoseconds. An error keeps its HTTP
--   status and its code, not its text.
-- - Vni: internal/vni/allocator.go. The shifts wrap at 32 bits. The loops run for the constant
--   numbers of rounds of the source, 1024 sequence numbers and 1024 shards.
-- - Store.Vpcs, Store.Peerings, Store.Events, Store.Routes, Store.Page: internal/store/memory.go. A
--   map is a list of entries, in the order in which `range` visits them; a method is one step, as
--   its lock makes it. Entries of equal times keep their order, where `sort.Slice` leaves it open.
-- - Store.Postgres and its children Vpcs, Peerings and Events: internal/store/postgres.go over the
--   schema of migrations. A table is a parameter (`Table`): its statements act on a state that only
--   they can see, and each is translated from its SQL text to what it says, the conditions on a row,
--   the assignments, the order and the limit. `IsTable` is what PostgreSQL and pgx document of
--   statements that succeed, `IsReliable` that no reading of rows ends early, and `IsPgLib` what
--   net/netip, encoding/json and the driver document; nothing is said of a statement that fails. A
--   state or a direction is a string in the source, so a column holds it as it is; the columns of
--   messages and latencies are left out. VpcRefinement, PeeringRefinement and EventRefinement set
--   the stores beside the in-memory ones: `Agree` says that a map and a table hold the same entries,
--   in the order in which they came. Tests.Databases is a database that meets all of this.
-- - Auth.Access: internal/auth/auth.go and middleware.go. Auth.RateLimit: ratelimit.go, over any token
--   bucket (`RateLib`); the cap is the source's 10,000 accounts, and no rate is 0.
-- - Api.Db, Api.Act, Api.VpcHandler, Api.PeeringHandler, with the request bodies, the checks of `Create`
--   and those of the other handlers in child modules:
--   internal/api/vpc_handler.go and peering_handler.go.
--   A handler is a function of what a request draws (`Env`: the account in its context, the fresh
--   identifiers, the clock), of the decoded body and of the stores (`Db`); one that writes is an
--   `Act`, from the stores before it to those after it, where what it wrote before an error stays
--   written. Api.Settled has the same
--   handlers with every check first, and Api.Settled.Handlers compares the two.
--   github.com/google/uuid, the text of prefixes and SHA-256 are fields of `Externals`, over which
--   every theorem quantifies.
-- - Api.Queries: the handlers of peering_handler.go that only read; Api.Marked describes what
--   `GetEffectiveRoutes` shows in other words. Api.Render: the responses and
--   internal/api/response.go, up to JSON; request identifiers, messages and page tokens are left out.
-- - Api.Router: internal/api/router.go, from a method and a path to an endpoint. A path is its bytes,
--   none percent-encoded; http.ServeMux is what its documentation says: it redirects a path that is
--   not clean, and the longest pattern wins. Api.Serve: one request from its header to its response,
--   through the middleware, the router, the rate limiter and the handler. `Libraries` gathers the
--   parameters: JSON decoding, UUIDs, texts and the token bucket.
-- - Bgp.Evpn, Bgp.Service: internal/bgp. `Service` is the interface that the controller uses, with
--   any state and any failures; `in_memory` is the implementation of service.go.
-- - Controller.Provisioner, Controller.Reconciler: internal/controller, over any `Service`. A step
--   that fails leaves what the earlier ones changed, as the source does.
-- - Agent.Netlink, Agent.Reconciler: internal/agent, one pass over any `NetlinkManager`;
--   `in_memory_netlink` is the implementation of netlink.go.
-- - Loop: `Start` and `Stop` of the two reconcilers, which are the same code: a step is one case that
--   the `select` picks, or what another goroutine does meanwhile. Agent.Loop and Lifecycle.Loop are
--   the two loops.
-- - Config: internal/config/config.go, over any environment. Programs: what each main.go of cmd
--   starts with.
-- - Lifecycle: what the parts give together. `Change` is the state diagram of a peering as a
--   relation between stores, and `History.run` runs requests and reconciler passes in any order.
--   `Served.serve_all` does so from HTTP requests. Teardown follows one peering through the
--   controller's `ProvisionPeering` and `DeprovisionPeering` over the BGP service.
--
-- In these histories a handler and a pass of the reconciler each run to their end before the next
-- begins, though the source holds its locks for one store call only. Lifecycle.Races takes the two
-- halves of creating a peering apart; no other interleaving of two requests is modelled, nor is it
-- that a rate limiter's bucket is asked after the lock of its map is released, or that two calls of
-- one method on a PostgreSQL store have another statement between them. Not modelled either: what a
-- database does with a statement that fails, the passing of time within one pass of the controller's
-- reconciler, a desired state of the agent whose maps are nil, JSON, the times of tickers, signals
-- and listening of the programs, and log lines. The handlers and the controller are modelled over the in-memory
-- stores. The API's program and the controller's each start with in-memory stores of their own; a
-- history here has both work on the same stores, as they would over one database.
pub mod Prelude
pub mod Model
pub mod Vni
pub mod Store
pub mod Auth
pub mod Api
pub mod Bgp
pub mod Controller
pub mod Agent
pub mod Lifecycle
pub mod Loop
pub mod Config
pub mod Programs
pub mod Tests
