-- ===== src/Bgp/Evpn.antt =====
-- internal/bgp/evpn.go: the routes and the route targets of a peering.
use Prim.Native.String.{slice, len, ◌++◌}
use vpc_routing.Prelude.{ℕ, String, List, [], ◌∷◌, map, leb, if◌then◌else◌}
use vpc_routing.Model.Netip.{Prefix, Addr, ip4, bits}

pub record EvpnType5Route : Type 0 where
  pub rd : String
  pub prefix : Prefix
  pub prefix_len : ℕ
  pub ethernet_tag : ℕ
  pub gateway_ip : Addr
  pub vni : ℕ
  pub route_target : String

-- 0.0.0.0.
abbrev pub ipv4_unspecified : Addr
ipv4_unspecified = record { family = ip4; number = 0 }

-- The first `n` bytes.
unfoldable pub truncate : String → ℕ → String
truncate s n = if leb (len s) n then s else slice s 0 n

abbrev pub type5_route : String → String → ℕ → Prefix → EvpnType5Route
type5_route rd rt vni cidr = record {
  rd = rd;
  prefix = cidr;
  prefix_len = bits cidr;
  ethernet_tag = 0;
  gateway_ip = ipv4_unspecified;
  vni = vni;
  route_target = rt;
}

unfoldable pub build_type5_routes : String → String → String → List Prefix → ℕ → List EvpnType5Route
build_type5_routes vpc_id region_id account_id cidrs vni =
    let rd = region_id ++ ":" ++ truncate vpc_id 8 in
    let rt = "target:" ++ truncate account_id 8 ++ ":" ++ truncate vpc_id 8 in
    map (type5_route rd rt vni) cidrs

-- An action is a string in the source: the two that mean something, and any other.
pub data RtAction : Type 0 where
  add_import remove_import : RtAction
  other_action : String → RtAction

pub record RtConfig : Type 0 where
  pub vrf_name : String
  pub action : RtAction
  pub route_target : String

-- Each VRF imports the other one's export target.
unfoldable pub build_peering_rt_configs :
    String → String → String → String → RtAction → List RtConfig
build_peering_rt_configs vrf_a vrf_b export_a export_b action =
    record { vrf_name = vrf_a; action = action; route_target = export_b }
    ∷ record { vrf_name = vrf_b; action = action; route_target = export_a }
    ∷ []
