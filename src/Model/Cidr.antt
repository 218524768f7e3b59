-- ===== src/Model/Cidr.antt =====
-- internal/model/cidr.go: which CIDR blocks a VPC may have. The text of an error is left out; its
-- kind and the values that it names are kept.
pub mod Private
pub mod Blocks
use vpc_routing.Prelude.{
  ℕ, ◌+◌, ◌-◌, ◌*◌, ◌^◌, Bool, true, false, ◌||◌, not, Option, none, some, List, [], ◌∷◌,
  if◌then◌else◌, ltb, ◌==◌, nat_eq, suc, any, length, Result, ok, err, ◌>>=◌, ◌>>◌, guard,
}
use vpc_routing.Model.Netip.{ip4, Addr, Prefix, is_valid, is4, bits, masked, contains, overlaps}

pub data CidrError : Type 0 where
  invalid_cidr not_ipv4 : CidrError
  bad_length : ℕ → CidrError
  not_private : CidrError
  bad_count : ℕ → CidrError
  blocks_overlap : Prefix → Prefix → CidrError

-- The network a.b.0.0/bits.
abbrev pub network : ℕ → ℕ → ℕ → Prefix
network a b n = record {
  ip = record { family = ip4; number = a * 2 ^ 24 + b * 2 ^ 16 };
  bits_plus_one = suc n;
}

abbrev pub rfc1918_ranges : List Prefix
rfc1918_ranges = network 10 0 8 ∷ network 172 16 12 ∷ network 192 168 16 ∷ []

unfoldable pub is_rfc1918 : Prefix → Bool
is_rfc1918 cidr = any (λ r. contains r cidr.ip) rfc1918_ranges

unfoldable pub validate_cidr : Prefix → Result CidrError Prefix
validate_cidr cidr = do
  guard (is_valid cidr) invalid_cidr
  let c = masked cidr
  guard (is4 c.ip) not_ipv4
  guard (not (ltb (bits c) 16 || ltb 28 (bits c))) (bad_length (bits c))
  guard (is_rfc1918 c) not_private
  ok c

unfoldable pub prefixes_overlap : Prefix → Prefix → Bool
prefixes_overlap a b = overlaps a b

unfoldable pub cidrs_overlap : List Prefix → List Prefix → Bool
unfolding prefixes_overlap
cidrs_overlap a b = any (λ pa. any (λ pb. prefixes_overlap pa pb) b) a

-- The loop that normalises each block, and stops at the first error.
pub normalize_all : List Prefix → Result CidrError (List Prefix)
normalize_all [] = ok []
normalize_all (c ∷ cs) = do n ← validate_cidr c; ns ← normalize_all cs; ok (n ∷ ns)

-- The inner loop of the overlap check: block `p` against those that follow it.
pub overlap_with : Prefix → List Prefix → Result CidrError (Unit {0})
unfolding prefixes_overlap
overlap_with p [] = ok tt
overlap_with p (q ∷ qs) =
    if prefixes_overlap p q then err (blocks_overlap p q) else overlap_with p qs

-- The outer loop.
pub overlap_check : List Prefix → Result CidrError (Unit {0})
unfolding overlap_with
overlap_check [] = ok tt
overlap_check (p ∷ ps) = do overlap_with p ps; overlap_check ps

unfoldable pub validate_cidr_blocks : List Prefix → Result CidrError (List Prefix)
unfolding normalize_all overlap_check
validate_cidr_blocks cidrs = do
  guard (not ((length cidrs == 0) || ltb 5 (length cidrs))) (bad_count (length cidrs))
  normalized ← normalize_all cidrs
  overlap_check normalized
  ok normalized
