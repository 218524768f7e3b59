-- ===== src/Tests/Loops.antt =====
-- The two loops, stopped between two ticks.
use vpc_routing.Prelude.{◌≡◌, refl, some, true, string_eq}
use vpc_routing.Model.Netip.{prefix_eq}
use vpc_routing.Agent.Loop
use vpc_routing.Agent.Loop.{Changed, fresh, sets, next_pass-IsSettled}
use vpc_routing.Agent.Reconciler.{set_desired_state}
use vpc_routing.Agent.Pass.{IsPlan, IsSettled}
use vpc_routing.Loop.{
  Running, Reach, IsLoop, here, there, ticks, changes, calls_stop, sees_stop, start, stop,
  closed_channel, Stopper,
}
use vpc_routing.Lifecycle.Loop as ControllerLoop
use vpc_routing.Lifecycle.Loop.{pass-IsLoop}
use vpc_routing.Lifecycle.Invariant.{Inv}
use vpc_routing.Lifecycle.History.{World, Op, create_vpc, empty-Inv, step}
use vpc_routing.Bgp.Service.{in_memory, new_in_memory_service}
use vpc_routing.Tests.Data.{no_objects, outside, env_for, bgp_config, east_request}
use vpc_routing.Tests.Hosts.{wanted, wanted-IsPlan}

-- The agent: a desired state is set, a tick, then a call of `Stop`.
abbrev after_set : Running Loop.World
after_set = record (start fresh) { world = (set_desired_state wanted fresh.0, fresh.1) }

abbrev after_tick : Running Loop.World
after_tick = record after_set { world = Loop.pass tt after_set.world }

abbrev stopped : Stopper
stopped = record { stop_ch = closed_channel; stop_once = true }

abbrev after_stop : Running Loop.World
after_stop = record after_tick { stopper = stopped }

new-stop : stop (start fresh).stopper ≡ some stopped
unfolding stop
new-stop = refl

after_stop-Reach : Reach Loop.pass Changed (start fresh) after_stop
after_stop-Reach =
    there after_tick after_stop
      (there after_set after_tick
        (there (start fresh) after_set here
          (changes (start fresh) after_set.world (sets wanted fresh.0 fresh.1)))
        (ticks after_set tt refl))
      (calls_stop after_tick stopped new-stop)

stopped-IsPlan : IsPlan after_stop.world.0.vrfs after_stop.world.0.routes
unfolding Loop.pass set_desired_state
stopped-IsPlan = wanted-IsPlan

next_pass-IsSettled_example : IsSettled after_stop.world.0 (Loop.pass tt after_stop.world).1
next_pass-IsSettled_example = next_pass-IsSettled after_stop after_stop-Reach stopped-IsPlan

-- The controller: a VPC is created, a tick, `Stop`, and the loop returns.
abbrev FabricWorld : Type 0
FabricWorld = World in_memory outside

abbrev at_first : FabricWorld
at_first = (no_objects, new_in_memory_service bgp_config)

abbrev asked : Op
asked = create_vpc (env_for 11) east_request

abbrev with_vpc : Running FabricWorld
with_vpc = record (start at_first) { world = step in_memory outside asked at_first }

abbrev tick : ControllerLoop.Tick
tick = (2000, env_for)

abbrev ticked : Running FabricWorld
ticked = record with_vpc { world = ControllerLoop.pass in_memory outside tick with_vpc.world }

abbrev told : Running FabricWorld
told = record ticked { stopper = stopped }

abbrev ended : Running FabricWorld
ended = record told { returned = true }

ended-Reach :
    Reach
      (ControllerLoop.pass in_memory outside)
      (ControllerLoop.Requested in_memory outside)
      (start at_first)
      ended
ended-Reach =
    there told ended
      (there ticked told
        (there with_vpc ticked
          (there (start at_first) with_vpc here
            (changes (start at_first) with_vpc.world (asked, refl)))
          (ticks with_vpc tick refl))
        (calls_stop ticked stopped new-stop))
      (sees_stop told refl refl)

pass-IsLoop_example :
    IsLoop
      (ControllerLoop.pass in_memory outside)
      (ControllerLoop.Requested in_memory outside)
      (λ w. Inv w.0.peerings)
      ended
pass-IsLoop_example = pass-IsLoop in_memory outside at_first ended empty-Inv ended-Reach
