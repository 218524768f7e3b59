-- ===== src/Model/Cidr/Private.antt =====
-- What `ValidateCIDR` accepts, in terms of addresses.
use vpc_routing.Prelude.{
  ◌≤◌, ◌≡◌, sym, ◌∙◌, ◌↔◌, ap, true, In, inl, inr, any_elim, any_intro, ok, arith,
}
use vpc_routing.Model.Netip.{ip4, Addr, Prefix, bits, masked, contains, IsPrefix}
use vpc_routing.Model.Netip.Overlap.{
  contains_trans, contains_self, masked-IsPrefix, contains-masked, bits-masked, family-masked,
  masked_idem,
}
use vpc_routing.Model.Cidr.{validate_cidr, is_rfc1918, rfc1918_ranges}

-- An address is private when it lies in one of the three ranges.
abbrev pub IsPrivate : Addr → Type 0
IsPrivate a = (r : Prefix) × In r rfc1918_ranges × (contains r a ≡ true)

-- A prefix that a VPC may have: IPv4, /16 to /28, and every one of its addresses private.
pub record IsVpcBlock (p : Prefix) : Type 0 where
  pub four : p.ip.family ≡ ip4
  pub low : 16 ≤ bits p
  pub high : bits p ≤ 28
  pub private : (a : Addr) → contains p a ≡ true → IsPrivate a

range_ok : (r : Prefix) → In r rfc1918_ranges → IsPrefix r × (bits r ≤ 16)
range_ok r (inl e) = rw e (
  record { known = λ q. cc; valid = omega arith; short = omega arith; fits = omega arith },
  omega arith,
)
range_ok r (inr (inl e)) = rw e (
  record { known = λ q. cc; valid = omega arith; short = omega arith; fits = omega arith },
  omega arith,
)
range_ok r (inr (inr (inl e))) = rw e (
  record { known = λ q. cc; valid = omega arith; short = omega arith; fits = omega arith },
  omega arith,
)
range_ok r (inr (inr (inr e))) = absurd e

-- The check of the network address alone covers every address of a prefix of /16 or longer.
is_rfc1918-IsPrivate :
    (p : Prefix) (a : Addr)
    → IsPrefix p
    → 16 ≤ bits p
    → is_rfc1918 p ≡ true
    → contains p a ≡ true
    → IsPrivate a
unfolding is_rfc1918
is_rfc1918-IsPrivate p a u l h k =
    let (r, m, c) = any_elim (λ r. contains r p.ip) rfc1918_ranges h in
    let (v, s) = range_ok r m in (r, m, contains_trans r p a v u (omega arith) c k)

private-is_rfc1918 : (p : Prefix) → IsPrivate p.ip → is_rfc1918 p ≡ true
unfolding is_rfc1918
private-is_rfc1918 p (r, m, c) = any_intro (λ r. contains r p.ip) rfc1918_ranges r m c

validate_shape :
    (c : Prefix) (n : Prefix)
    → validate_cidr c ≡ ok n
    → (n ≡ masked c)
      × ((masked c).ip.family ≡ ip4)
      × (16 ≤ bits (masked c))
      × (bits (masked c) ≤ 28)
      × (is_rfc1918 (masked c) ≡ true)
unfolding validate_cidr
validate_shape c n h = ground arith

shape_validates :
    (c : Prefix)
    → IsPrefix c
    → (masked c).ip.family ≡ ip4
    → 16 ≤ bits (masked c)
    → bits (masked c) ≤ 28
    → is_rfc1918 (masked c) ≡ true
    → validate_cidr c ≡ ok (masked c)
unfolding validate_cidr
shape_validates c u f l h r = ground (arith, u.valid)

validate-IsVpcBlock : (c n : Prefix) → IsPrefix c → validate_cidr c ≡ ok n → IsVpcBlock c
validate-IsVpcBlock c n u h =
    let s = validate_shape c n h in
    record {
      four = sym (family-masked c u) ∙ s.1;
      low = omega (arith, s.2, bits-masked c u);
      high = omega (arith, s.3, bits-masked c u);
      private = λ a k.
          is_rfc1918-IsPrivate (masked c) a (masked-IsPrefix c u) s.2 s.4
            (contains-masked c a u ∙ k);
    }

IsVpcBlock-validates : (c : Prefix) → IsPrefix c → IsVpcBlock c → validate_cidr c ≡ ok (masked c)
IsVpcBlock-validates c u b =
    shape_validates c u (family-masked c u ∙ b.four) (omega (arith, b.low, bits-masked c u))
      (omega (arith, b.high, bits-masked c u))
      (private-is_rfc1918 (masked c) (
        b.private (masked c).ip (
          sym (contains-masked c (masked c).ip u)
          ∙ contains_self (masked c) (masked-IsPrefix c u))))

-- For a prefix as `ParsePrefix` gives it, `ValidateCIDR` returns `n` without an error exactly
-- when `n` is the prefix with its host bits cleared, and the prefix is IPv4, /16 to /28, and has
-- no address outside the three RFC 1918 ranges.
pub validate_cidr_iff :
    (c n : Prefix) → IsPrefix c → (validate_cidr c ≡ ok n) ↔ ((n ≡ masked c) × IsVpcBlock c)
validate_cidr_iff c n u = (
  λ h. ((validate_shape c n h).0, validate-IsVpcBlock c n u h),
  λ r. IsVpcBlock-validates c u r.1 ∙ ap ok (sym r.0),
)

masked-IsVpcBlock : (c : Prefix) → IsPrefix c → IsVpcBlock c → IsVpcBlock (masked c)
masked-IsVpcBlock c u b = record {
  four = family-masked c u ∙ b.four;
  low = omega (arith, b.low, bits-masked c u);
  high = omega (arith, b.high, bits-masked c u);
  private = λ a k. b.private a (sym (contains-masked c a u) ∙ k);
}

-- For a prefix as `ParsePrefix` gives it, what `ValidateCIDR` returned, it accepts and returns
-- again.
pub validate_cidr_stable :
    (c n : Prefix) → IsPrefix c → validate_cidr c ≡ ok n → validate_cidr n ≡ ok n
validate_cidr_stable c n u h =
    let s = (validate_cidr_iff c n u).0 h in
    rw (s.0) (
      IsVpcBlock-validates (masked c) (masked-IsPrefix c u) (masked-IsVpcBlock c u s.1)
      ∙ ap ok (masked_idem c u))
