-- ===== src/Api/PeeringHandler/Requests.antt =====
-- internal/api/peering_handler.go: the bodies of the requests, and what the handlers read off them.
use vpc_routing.Prelude.{
  Bool, true, false, Option, none, some, String, List, [], ◌∷◌, if◌then◌else◌, ◌==◌, nat_eq,
  string_eq, Result, ok, err, ◌>>=◌, ℤ, pos,
}
use vpc_routing.Model.Netip.{Prefix}
use vpc_routing.Model.Policy.{RoutePolicy, default_route_policy}
use vpc_routing.Model.Entities.{
  PeeringDirection, bidirectional, requester_to_accepter, accepter_to_requester, other_direction,
  state_eq, AppError, err_invalid_input, err_invalid_cidr,
}
use vpc_routing.Api.Db.{or_fail}

pub record RoutePolicyRequest : Type 0 where
  pub allowed_prefixes : List String
  pub denied_prefixes : List String
  pub max_prefixes : Option ℤ
  pub bandwidth_limit_mbps : Option ℤ

pub record CreatePeeringRequest : Type 0 where
  pub requester_vpc_id : String
  pub accepter_vpc_id : String
  pub direction : String
  pub route_policy : Option RoutePolicyRequest

pub record UpdatePeeringRequest : Type 0 where
  pub direction : Option String
  pub route_policy : Option RoutePolicyRequest

pub record OverrideRouteRequest : Type 0 where
  pub action : String
  pub prefix : String

-- `model.PeeringDirection(s)`.
abbrev pub to_direction : String → PeeringDirection
to_direction s =
    if s == "bidirectional"
    then bidirectional
    else if s == "requester_to_accepter"
    then requester_to_accepter
    else if s == "accepter_to_requester"
    then accepter_to_requester
    else other_direction s

abbrev pub is_valid_direction : PeeringDirection → Bool
is_valid_direction (other_direction s) = false
is_valid_direction _ = true

-- The loops that parse the prefixes of a policy.
abbrev pub parse_prefixes : (String → Option Prefix) → List String → Result AppError (List Prefix)
parse_prefixes parse [] = ok []
parse_prefixes parse (s ∷ ss) = do
  p ← or_fail (parse s) err_invalid_cidr
  ps ← parse_prefixes parse ss
  ok (p ∷ ps)

abbrev pub limit_or_default : Option ℤ → ℤ
limit_or_default none = pos 100
limit_or_default (some n) = n

unfoldable pub parse_route_policy :
    (String → Option Prefix) → Option RoutePolicyRequest → Result AppError RoutePolicy
parse_route_policy parse none = ok default_route_policy
parse_route_policy parse (some req) = do
  allowed ← parse_prefixes parse req.allowed_prefixes
  denied ← parse_prefixes parse req.denied_prefixes
  ok (record {
    allowed_prefixes = allowed;
    denied_prefixes = denied;
    max_prefixes = limit_or_default req.max_prefixes;
    bandwidth_limit_mbps = req.bandwidth_limit_mbps;
  })

-- An empty direction is bidirectional.
unfoldable pub chosen_direction : String → Result AppError PeeringDirection
chosen_direction s =
    if s == ""
    then ok bidirectional
    else if is_valid_direction (to_direction s)
    then ok (to_direction s)
    else err err_invalid_input
