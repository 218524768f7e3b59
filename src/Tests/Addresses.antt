-- ===== src/Tests/Addresses.antt =====
-- Validation and policies at concrete prefixes.
use vpc_routing.Prelude.{
  some, refl, refl, ◌≤◌, ◌≡◌, ◌↔◌, ◌⊎◌, ok, true, List, [], ◌∷◌, none, pos, map, All, Pairwise, In,
}
use vpc_routing.Model.Netip.{Prefix, masked, addr_prefix, contains}
use vpc_routing.Model.Cidr.{validate_cidr, validate_cidr_blocks, cidrs_overlap, is_rfc1918}
use vpc_routing.Model.Cidr.Private.{IsVpcBlock, validate_cidr_iff}
use vpc_routing.Model.Cidr.Blocks.{Share, Disjoint, cidrs_overlap_iff, validate_cidr_blocks_iff}
use vpc_routing.Model.Policy.{RoutePolicy, accept, evaluate_prefix}
use vpc_routing.Model.Policy.Specified.{Fr52, IsLoosened, evaluate_prefix-Fr52}
use vpc_routing.Model.Policy.Decision.{SomeCovers, BelowLimit}
use vpc_routing.Tests.Data.{east, west, ten, east-IsPrefix, west-IsPrefix, ten-IsPrefix}

abbrev blocks : List Prefix
blocks = east ∷ west ∷ []

validate_cidr_iff_example :
    (validate_cidr east ≡ ok east) ↔ ((east ≡ masked east) × IsVpcBlock east)
validate_cidr_iff_example = validate_cidr_iff east east east-IsPrefix

east-valid : validate_cidr east ≡ ok east
unfolding validate_cidr masked addr_prefix is_rfc1918 contains
east-valid = refl

validate_cidr_blocks_iff_example : (validate_cidr_blocks blocks ≡ ok blocks) ↔ (
    (1 ≤ 2)
    × (2 ≤ 5)
    × (blocks ≡ map masked blocks)
    × All IsVpcBlock blocks
    × Pairwise Disjoint blocks)
validate_cidr_blocks_iff_example =
    validate_cidr_blocks_iff blocks blocks (east-IsPrefix, (west-IsPrefix, tt))

cidrs_overlap_iff_example :
    (cidrs_overlap (ten ∷ []) blocks ≡ true)
    ↔ ((p : Prefix) × In p (ten ∷ []) × ((q : Prefix) × In q blocks × Share p q))
cidrs_overlap_iff_example =
    cidrs_overlap_iff (ten ∷ []) blocks (ten-IsPrefix, tt) (east-IsPrefix, (west-IsPrefix, tt))

-- Ten is allowed, the west of it denied, three prefixes at most.
abbrev policy : RoutePolicy
policy = record {
  allowed_prefixes = ten ∷ [];
  denied_prefixes = west ∷ [];
  max_prefixes = pos 3;
  bandwidth_limit_mbps = none;
}

evaluate_prefix-Fr52_example :
    (((evaluate_prefix policy east 2).0 ≡ accept) ↔ (
      (SomeCovers (west ∷ []) east → ⊥)
      × (((ten ∷ []) ≡ []) ⊎ SomeCovers (ten ∷ []) east)
      × BelowLimit policy 2))
    × (Fr52 (some (ten ∷ [])) policy east 2 ↔ (
        ((evaluate_prefix policy east 2).0 ≡ accept) × (IsLoosened (some (ten ∷ [])) policy → ⊥)))
evaluate_prefix-Fr52_example =
    evaluate_prefix-Fr52 policy east 2 (west-IsPrefix, tt) (ten-IsPrefix, tt) east-IsPrefix
      (some (ten ∷ [])) refl
