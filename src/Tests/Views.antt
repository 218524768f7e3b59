-- ===== src/Tests/Views.antt =====
-- What is seen of a peering's routes.
use vpc_routing.Prelude.{◌≡◌, refl, inl, none, List, [], ◌∷◌, ok, ℤ}
use vpc_routing.Prelude.Maps.{lookup}
use vpc_routing.Model.Netip.{invalid_addr}
use vpc_routing.Model.Policy.{RoutePolicy, default_route_policy, evaluate_prefix}
use vpc_routing.Model.Entities.{Peering, PeeringState, RouteEntry, RouteState, direct}
use vpc_routing.Store.Page.{page_of, newest_first, put_in_order}
use vpc_routing.Store.Vpcs
use vpc_routing.Store.Peerings
use vpc_routing.Store.Routes
use vpc_routing.Auth.Access.{require_vpc_owner, require_peering_access}
use vpc_routing.Api.Db.{Db}
use vpc_routing.Api.PeeringHandler.{require_peering_auth}
use vpc_routing.Api.Queries
use vpc_routing.Api.Queries.{show_routes, show_peering, show_peerings, get_effective_routes}
use vpc_routing.Api.Gathered.{effective, show_peerings-effective}
use vpc_routing.Api.Visible.{got, MayAccess, answer-MayAccess}
use vpc_routing.Api.Answers.{IsClean, IsAnswer, get_effective_routes-IsAnswer}
use vpc_routing.Tests.Data.{east, west, east-IsPrefix, two_vpcs, env_for, outside}
use vpc_routing.Tests.Histories.{between}

abbrev live : Peering
live = record between { state = PeeringState.active }

abbrev learned : RouteEntry
learned = record {
  prefix = east;
  origin_vpc_id = 11;
  peering_id = 20;
  next_hop = invalid_addr;
  vni = 3145728;
  origin = direct;
  preference = 100;
  state = RouteState.active;
}

abbrev network : Db
network = record two_vpcs { peerings = (20, live) ∷ []; routes = learned ∷ [] }

seen : Queries.get (env_for 0) 20 network ≡ ok (record live { route_count = 1 })
unfolding Queries.get Peerings.get Vpcs.get lookup require_peering_auth require_peering_access
    Routes.list_by_peering
seen = refl

answer-MayAccess_example : MayAccess (env_for 0) network 20
answer-MayAccess_example = answer-MayAccess outside (env_for 0) 20 none network (got _ seen)

network-IsClean : IsClean network
network-IsClean = record {
  policies = (record { denied = tt; allowed = tt }, tt);
  routes = (east-IsPrefix, tt);
}

shown : get_effective_routes (env_for 0) 11 network ≡ ok (learned ∷ [])
unfolding get_effective_routes Peerings.list Vpcs.get lookup require_vpc_owner
    Routes.list_by_peering page_of newest_first put_in_order show_routes show_peering show_peerings
    evaluate_prefix
shown = refl

get_effective_routes-IsAnswer_example : IsAnswer (env_for 0) network 11 learned
get_effective_routes-IsAnswer_example =
    get_effective_routes-IsAnswer (env_for 0) 11 network (learned ∷ []) network-IsClean shown
      learned (inl refl)

abbrev one_prefix : RoutePolicy
one_prefix = record default_route_policy { max_prefixes = ℤ.pos 1 }

abbrev two_routes : List RouteEntry
two_routes = learned ∷ record learned { prefix = west } ∷ []

abbrev limited : Db
limited = record network {
  peerings = (20, record live { route_policy = one_prefix }) ∷ [];
  routes = two_routes;
}

show_peerings-effective_example :
    show_peerings limited (record live { route_policy = one_prefix } ∷ live ∷ []) []
    ≡ effective limited (record live { route_policy = one_prefix } ∷ live ∷ [])
show_peerings-effective_example =
    show_peerings-effective limited (record live { route_policy = one_prefix } ∷ live ∷ [])
