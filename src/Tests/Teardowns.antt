-- ===== src/Tests/Teardowns.antt =====
-- A peering that is provisioned and then torn down.
use vpc_routing.Prelude.{◌≡◌, ◌≢◌, refl, sym, [], ◌∷◌, ok, true-ne-false, nat_eq, string_eq}
use vpc_routing.Prelude.Maps.{lookup}
use vpc_routing.Model.Entities.{Peering, PeeringState}
use vpc_routing.Store.Vpcs
use vpc_routing.Store.Peerings
use vpc_routing.Bgp.Service.{in_memory}
use vpc_routing.Api.Db.{Db}
use vpc_routing.Controller.Provisioner.{provision_peering, deprovision_peering}
use vpc_routing.Lifecycle.Teardown.{IsUndone, deprovision_peering-IsUndone}
use vpc_routing.Tests.Data.{east, west, outside, env_for, two_vpcs, vpc_of}
use vpc_routing.Tests.Histories.{between, fresh, with_peering, with_peering-ready}

-- The peering on its way out, with both its VPCs still there.
abbrev leaving : Peering
leaving = record between { state = PeeringState.deleting }

abbrev later : Db
later = record two_vpcs { peerings = (20, leaving) ∷ [] }

leaving-found : Peerings.get later.peerings 20 ≡ ok leaving
unfolding Peerings.get lookup
leaving-found = refl

requester-found : Vpcs.get later.vpcs 11 ≡ ok (vpc_of 11 "first" east 3145728)
unfolding Vpcs.get lookup
requester-found = refl

accepter-found : Vpcs.get later.vpcs 12 ≡ ok (vpc_of 12 "second" west 3145729)
unfolding Vpcs.get lookup
accepter-found = refl

two_texts : outside.text 11 ≢ outside.text 12
two_texts e = true-ne-false (sym ((string_eq.beq_iff (outside.text 11) (outside.text 12)).1 e))

deprovision_peering-IsUndone_example :
    IsUndone outside
      (vpc_of 11 "first" east 3145728)
      (vpc_of 12 "second" west 3145729)
      fresh
      (deprovision_peering in_memory outside 20 later
        (provision_peering in_memory outside (env_for 0) 20 with_peering fresh).1).0
deprovision_peering-IsUndone_example =
    deprovision_peering-IsUndone outside (env_for 0) 20 with_peering later fresh between leaving
      (vpc_of 11 "first" east 3145728) (vpc_of 12 "second" west 3145729) two_texts
      with_peering-ready leaving-found requester-found accepter-found
