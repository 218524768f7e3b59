-- ===== src/Tests/Data.antt =====
-- Two accounts, their VPCs and what their requests bring.
use vpc_routing.Prelude.{
  pos, ℕ, Option, none, some, String, [], ◌∷◌, if◌then◌else◌, ◌==◌, nat_eq, string_eq, arith,
}
use vpc_routing.Model.Netip.{Prefix, IsPrefix}
use vpc_routing.Model.Cidr.{network}
use vpc_routing.Model.Entities.{Uuid, Vpc, VpcState}
use vpc_routing.Vni.{Allocator}
use vpc_routing.Api.Db.{Db, Externals, Env}
use vpc_routing.Api.VpcHandler.{CreateVpcRequest}
use vpc_routing.Api.PeeringHandler.{CreatePeeringRequest}
use vpc_routing.Bgp.Service.{Config}

abbrev pub east : Prefix
east = network 10 1 16

abbrev pub west : Prefix
west = network 10 2 16

abbrev pub ten : Prefix
ten = network 10 0 8

pub east-IsPrefix : IsPrefix east
east-IsPrefix = record {
  known = λ q. cc;
  valid = omega arith;
  short = omega arith;
  fits = omega arith;
}

pub west-IsPrefix : IsPrefix west
west-IsPrefix = record {
  known = λ q. cc;
  valid = omega arith;
  short = omega arith;
  fits = omega arith;
}

pub ten-IsPrefix : IsPrefix ten
ten-IsPrefix = record {
  known = λ q. cc;
  valid = omega arith;
  short = omega arith;
  fits = omega arith;
}

abbrev pub parse_id : String → Option Uuid
parse_id s = if s == "a" then some 11 else if s == "b" then some 12 else none

abbrev pub parse_block : String → Option Prefix
parse_block s = if s == "east" then some east else if s == "west" then some west else none

abbrev pub outside : Externals
outside = record {
  parse_uuid = parse_id;
  text = λ id. if id == 11 then "aaaaaaaa-0001" else "bbbbbbbb-0002";
  parse_prefix = parse_block;
  shard_hash = λ id. id;
}

-- A request of account 1.
abbrev pub env_for : Uuid → Env
env_for id = record { ctx = some 1; new_id = id; event_id = 500; now = 1000 }

abbrev pub pool : Allocator
pool = record { allocated = []; region_map = ("eu", 3) ∷ [] }

abbrev pub no_objects : Db
no_objects = record { vpcs = []; peerings = []; events = []; routes = []; alloc = pool }

abbrev pub east_request : Option CreateVpcRequest
east_request = some (record { name = "first"; region_id = "eu"; cidr_blocks = "east" ∷ [] })

abbrev pub west_request : Option CreateVpcRequest
west_request = some (record { name = "second"; region_id = "eu"; cidr_blocks = "west" ∷ [] })

abbrev pub peering_request : Option CreatePeeringRequest
peering_request =
    some (record {
      requester_vpc_id = "a";
      accepter_vpc_id = "b";
      direction = "";
      route_policy = none;
    })

-- A VPC of account 1 with one block.
abbrev pub vpc_of : Uuid → String → Prefix → ℕ → Vpc
vpc_of id name block vni = record {
  id = id;
  account_id = 1;
  region_id = "eu";
  name = name;
  cidr_blocks = block ∷ [];
  vni = vni;
  vrf_name = name;
  rd = name;
  export_rt = name;
  state = VpcState.active;
  peering_count = 0;
  created_at = 900;
  deleted_at = none;
}

abbrev pub two_vpcs : Db
two_vpcs = record no_objects {
  vpcs = (11, vpc_of 11 "first" east 3145728) ∷ (12, vpc_of 12 "second" west 3145729) ∷ [];
}

abbrev pub bgp_config : Config
bgp_config = record {
  local_asn = 65000;
  router_id = "10.0.0.1";
  listen_port = pos 179;
  route_reflectors = "rr" ∷ [];
}
