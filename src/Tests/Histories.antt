-- ===== src/Tests/Histories.antt =====
-- Histories of two VPCs of one account and a peering between them.
use vpc_routing.Prelude.{
  ℕ, ◌<◌, ◌≡◌, ◌≢◌, none, refl, some, String, List, [], ◌∷◌, ok, string_eq, nat_eq, arith,
}
use vpc_routing.Prelude.Maps.{lookup, count_values}
use vpc_routing.Model.Entities.{Peering, bidirectional, state_eq}
use vpc_routing.Store.Vpcs
use vpc_routing.Store.Peerings.{find_by_vpcs, count_by_vpc}
use vpc_routing.Api.Db.{Db}
use vpc_routing.Api.VpcHandler
use vpc_routing.Api.PeeringHandler.{
  proposed, endpoints, peers, admits, chosen_direction, parse_route_policy, new_peering,
}
use vpc_routing.Model.Policy.{default_route_policy}
use vpc_routing.Model.Cidr.{cidrs_overlap, prefixes_overlap}
use vpc_routing.Model.Netip.{overlaps, addr_prefix}
use vpc_routing.Bgp.Service.{InMemoryService, in_memory, new_in_memory_service}
use vpc_routing.Controller.Provisioner.{provision_peering, ready}
use vpc_routing.Store.Peerings
use vpc_routing.Lifecycle.Tenancy.{run-NetInv}
use vpc_routing.Lifecycle.Activation.{Activates, provision_peering-Activates}
use vpc_routing.Lifecycle.Change.{Changes}
use vpc_routing.Lifecycle.Invariant.{Inv}
use vpc_routing.Lifecycle.Stored.{IsStore}
use vpc_routing.Lifecycle.Created.{Creates, create-Creates}
use vpc_routing.Api.PeeringHandler as Handler
use vpc_routing.Store.Peerings
use vpc_routing.Tests.Data.{east-IsPrefix, west-IsPrefix}
use vpc_routing.Lifecycle.Races.{stored_later, stored_later_twice}
use vpc_routing.Store.Peerings.{is_between}
use vpc_routing.Lifecycle.Network.{NetInv}
use vpc_routing.Lifecycle.Tenants.{create_vpc-NetInv}
use vpc_routing.Lifecycle.History.{
  Op, create_vpc, create_peering, delete_peering, reconcile, run, run-Inv, run-Changes, empty-Inv,
}
use vpc_routing.Tests.Data.{
  outside, env_for, no_objects, two_vpcs, vpc_of, east, west, east_request, west_request,
  peering_request, bgp_config,
}

abbrev requests : List Op
requests =
    create_vpc (env_for 11) east_request
    ∷ create_vpc (env_for 12) west_request
    ∷ create_peering (env_for 20) peering_request
    ∷ reconcile 2000 env_for
    ∷ create_peering (env_for 21) peering_request
    ∷ delete_peering (env_for 0) 20
    ∷ []

abbrev pub fresh : InMemoryService
fresh = new_in_memory_service bgp_config

run-Inv_example : Inv (run in_memory outside requests (no_objects, fresh)).0.peerings
run-Inv_example = run-Inv in_memory outside requests (no_objects, fresh) empty-Inv

run-Changes_example : Changes [] (run in_memory outside requests (no_objects, fresh)).0.peerings
run-Changes_example = run-Changes in_memory outside requests (no_objects, fresh) empty-Inv

-- The peering that the third request stores.
abbrev pub between : Peering
between =
    new_peering (env_for 20) 1 (vpc_of 11 "first" east 3145728) (vpc_of 12 "second" west 3145729)
      bidirectional default_route_policy 11 12

between-proposed : proposed outside (env_for 20) peering_request two_vpcs ≡ ok between
unfolding proposed endpoints peers admits chosen_direction parse_route_policy lookup cidrs_overlap
    prefixes_overlap overlaps addr_prefix Vpcs.get find_by_vpcs count_by_vpc
between-proposed = refl

created : (Handler.create outside (env_for 20) peering_request two_vpcs).1 ≡ ok between
unfolding Handler.create Handler.store_proposed proposed endpoints peers admits chosen_direction
    parse_route_policy lookup cidrs_overlap prefixes_overlap overlaps addr_prefix Vpcs.get
    find_by_vpcs count_by_vpc Peerings.create
created = refl

create-Creates_example :
    Creates
      (env_for 20)
      two_vpcs
      (Handler.create outside (env_for 20) peering_request two_vpcs).0
      between
create-Creates_example =
    create-Creates outside (env_for 20) peering_request two_vpcs between
      ((east-IsPrefix, tt), ((west-IsPrefix, tt), tt)) created

abbrev pub with_peering : Db
with_peering = record two_vpcs { peerings = (20, between) ∷ [] }

with_peering-IsStore : IsStore with_peering.peerings
unfolding lookup
with_peering-IsStore = (refl, refl, tt)

no_objects-NetInv : NetInv no_objects
unfolding lookup
no_objects-NetInv = record {
  regions = λ name r h. small name r h;
  vnis = λ n. omega arith;
  apart = tt;
}
  where
    small : (name : String) (r : ℕ) → lookup name (("eu", 3) ∷ []) ≡ some r → r < 16
    small name r h = ground arith

abbrev after_east : Db
after_east = (VpcHandler.create outside (env_for 11) east_request no_objects).0

after_east-NetInv : NetInv after_east
after_east-NetInv = create_vpc-NetInv outside (env_for 11) east_request no_objects no_objects-NetInv

run-NetInv_example : NetInv (run in_memory outside requests (no_objects, fresh)).0
run-NetInv_example = run-NetInv in_memory outside requests (no_objects, fresh) no_objects-NetInv

pub with_peering-ready :
    ready with_peering 20
    ≡ ok (between, vpc_of 11 "first" east 3145728, vpc_of 12 "second" west 3145729)
unfolding ready lookup Vpcs.get Peerings.get
with_peering-ready = refl

provision_peering-Activates_example :
    Activates
      (env_for 0)
      20
      between
      (vpc_of 11 "first" east 3145728)
      (vpc_of 12 "second" west 3145729)
      with_peering
      (provision_peering in_memory outside (env_for 0) 20 with_peering fresh).0
      (provision_peering in_memory outside (env_for 0) 20 with_peering fresh).2
provision_peering-Activates_example =
    provision_peering-Activates outside (env_for 0) 20 with_peering fresh between
      (vpc_of 11 "first" east 3145728) (vpc_of 12 "second" west 3145729) with_peering-IsStore
      with_peering-ready

abbrev again : Peering
again = record between { id = 21 }

again-proposed : proposed outside (env_for 21) peering_request two_vpcs ≡ ok again
unfolding proposed endpoints peers admits chosen_direction parse_route_policy lookup cidrs_overlap
    prefixes_overlap overlaps addr_prefix Vpcs.get find_by_vpcs count_by_vpc
again-proposed = refl

-- Neither identifier is in use.
no_peering : (k : ℕ) → lookup k two_vpcs.peerings ≡ none
unfolding lookup
no_peering k = refl

two_ids : between.id ≢ again.id
two_ids e = ground arith

stored_later_twice_example :
    count_values
      (is_between 11 12)
      (stored_later (env_for 21) again (stored_later (env_for 20) between two_vpcs)).peerings
    ≡ 2
stored_later_twice_example =
    stored_later_twice outside (env_for 20) (env_for 21) peering_request peering_request two_vpcs
      between again between-proposed again-proposed refl refl two_ids (no_peering 20)
      (no_peering 21)
