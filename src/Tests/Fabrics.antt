-- ===== src/Tests/Fabrics.antt =====
-- The in-memory BGP service after concrete calls.
use vpc_routing.Prelude.{[], ◌∷◌}
use vpc_routing.Bgp.Evpn.{EvpnType5Route, type5_route, RtConfig, add_import, build_type5_routes}
use vpc_routing.Bgp.Service.{
  InMemoryService, new_in_memory_service, start, configure_rt, inject_routes,
}
use vpc_routing.Bgp.Laws.{Withdraws, withdraw_routes-Withdraws}
use vpc_routing.Tests.Data.{east, west, bgp_config}

abbrev import_east : RtConfig
import_east = record { vrf_name = "west"; action = add_import; route_target = "target:east" }

-- A service in which the western VRF imports the east once, and the east has two routes.
abbrev fabric : InMemoryService
fabric =
    (inject_routes "east" (build_type5_routes "east" "eu" "one" (east ∷ west ∷ []) 4096)
      (configure_rt import_east (start (new_in_memory_service bgp_config))).0).0

withdraw_routes-Withdraws_example : Withdraws fabric "east" (west ∷ [])
withdraw_routes-Withdraws_example = withdraw_routes-Withdraws fabric "east" (west ∷ [])

abbrev east_route : EvpnType5Route
east_route = type5_route "eu:east" "target:one" 4096 east
