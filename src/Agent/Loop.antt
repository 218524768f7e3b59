-- ===== src/Agent/Loop.antt =====
-- The loop of internal/agent/reconciler.go over the in-memory host, with its desired state changed
-- meanwhile.
use vpc_routing.Prelude.{String, List, []}
use vpc_routing.Agent.Netlink.{
  VrfConfig, RouteConfig, InMemoryNetlink, in_memory_netlink, new_in_memory_netlink,
}
use vpc_routing.Agent.Reconciler.{
  DesiredState, no_desired_state, set_desired_state, add_desired_vrf, add_desired_routes, reconcile,
}
use vpc_routing.Agent.Upkeep.{IsHost}
use vpc_routing.Agent.Calls.{run_host, run_host-IsHost}
use vpc_routing.Agent.Kept.{reconcile-IsHost}
use vpc_routing.Agent.Pass.{IsPlan, IsSettled, reconcile-IsSettled}
use vpc_routing.Loop.{Running, Reach, IsLoop, Reach-IsLoop, start}

-- The desired state, and the host.
abbrev pub World : Type 0
World = DesiredState × InMemoryNetlink

-- The pass of a tick.
unfoldable pub pass : Unit {0} → World → World
pass t (desired, host) = (desired, (reconcile in_memory_netlink desired host).0)

-- The calls that change the desired state, each under the lock.
pub data Changed : World → World → Type 0 where
  sets :
      (state desired : DesiredState) (host : InMemoryNetlink)
      → Changed (desired, host) (set_desired_state state desired, host)
  adds_vrf :
      (vrf : VrfConfig) (desired : DesiredState) (host : InMemoryNetlink)
      → Changed (desired, host) (add_desired_vrf vrf desired, host)
  adds_routes :
      (n : String) (routes : List RouteConfig) (desired : DesiredState) (host : InMemoryNetlink)
      → Changed (desired, host) (add_desired_routes n routes desired, host)

-- What `NewReconciler` starts from, over a fresh host.
abbrev pub fresh : World
fresh = (no_desired_state, new_in_memory_netlink)

abbrev pub Reached : Running World → Type 0
Reached s = Reach pass Changed (start fresh) s

Changed-IsHost : (v w : World) → Changed v w → IsHost v.1 → IsHost w.1
Changed-IsHost _ _ (sets state desired host) h = h
Changed-IsHost _ _ (adds_vrf vrf desired host) h = h
Changed-IsHost _ _ (adds_routes n routes desired host) h = h

fresh-IsHost : IsHost new_in_memory_netlink
unfolding run_host
fresh-IsHost = run_host-IsHost []

pub Reached-IsLoop : (s : Running World) → Reached s → IsLoop pass Changed (λ w. IsHost w.1) s
unfolding pass
Reached-IsLoop s r =
    Reach-IsLoop pass Changed (λ w. IsHost w.1) (λ t w h. reconcile-IsHost w.0 w.1 h) Changed-IsHost
      fresh fresh-IsHost s r

-- In every state that the agent's loop reaches from a fresh host, through ticks, calls of `Stop`
-- and changes of the desired state in any order, the next tick leaves the host as a desired
-- state asks that is a plan: with VRFs of the desired names and no others, and in each table of
-- the plan routes for the desired prefixes and no others.
pub next_pass-IsSettled :
    (s : Running World)
    → Reached s
    → IsPlan s.world.0.vrfs s.world.0.routes
    → IsSettled s.world.0 (pass tt s.world).1
unfolding pass
next_pass-IsSettled s r p = reconcile-IsSettled s.world.0 s.world.1 p (Reached-IsLoop s r).world
