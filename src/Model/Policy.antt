-- ===== src/Model/Policy.antt =====
-- internal/model/policy.go: which prefixes a peering's route policy lets through.
pub mod Decision
pub mod Specified
use vpc_routing.Prelude.{
  ℕ, Bool, true, false, ◌&&◌, ◌||◌, not, Option, none, some, String, List, [], ◌∷◌, if◌then◌else◌,
  ltb, leb, any, length, ℤ, pos, is_positive, at_least, ◌==◌,
}
use vpc_routing.Model.Netip.{Prefix, prefix_eq, contains}

pub record RoutePolicy : Type 0 where
  pub allowed_prefixes : List Prefix
  pub denied_prefixes : List Prefix
  pub max_prefixes : ℤ
  pub bandwidth_limit_mbps : Option ℤ

abbrev pub default_route_policy : RoutePolicy
default_route_policy = record {
  allowed_prefixes = [];
  denied_prefixes = [];
  max_prefixes = pos 100;
  bandwidth_limit_mbps = none;
}

pub data PolicyDecision : Type 0 where
  accept deny filtered : PolicyDecision

-- `Bits` is compared, and both sides are the length plus one less 1.
unfoldable pub prefix_contains : Prefix → Prefix → Bool
prefix_contains outer inner =
    if outer == inner
    then true
    else leb outer.bits_plus_one inner.bits_plus_one && contains outer inner.ip

unfoldable pub evaluate_prefix : RoutePolicy → Prefix → ℕ → PolicyDecision × String
evaluate_prefix policy prefix current_count =
    if any (λ denied. prefix_contains denied prefix) policy.denied_prefixes
    then (deny, "prefix matches denied list")
    else if ltb 0 (length policy.allowed_prefixes)
        && not (any (λ allowed. prefix_contains allowed prefix) policy.allowed_prefixes)
    then (filtered, "prefix not in allowed list")
    else if is_positive policy.max_prefixes && at_least current_count policy.max_prefixes
    then (filtered, "max_prefix_limit_reached")
    else (accept, "")
