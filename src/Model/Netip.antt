-- ===== src/Model/Netip.antt =====
-- What the program uses of the standard library's net/netip: addresses, prefixes, `Masked`,
-- `Contains` and `Overlaps`. A `Prefix` keeps its length plus one, so that 0 is the invalid prefix.
pub mod Overlap
use vpc_routing.Prelude.{
  ℕ, suc, ◌+◌, ◌-◌, ◌*◌, ◌^◌, ◌≤◌, ◌<◌, ◌≡◌, refl, ◌↔◌, ◌≢◌, Bool, true, false, ◌&&◌, ◌||◌, not,
  Option, none, some, arith, if◌then◌else◌, ltb, leb, nat_beq, nat_beq_iff, Eq, ◌==◌, min,
}
use vpc_routing.Prelude.Arith.{block}

-- The `z` tag of an address: the zero `Addr`, an IPv4 or an IPv6 address.
pub data Family : Type 0 where
  zero_addr ip4 ip6 : Family

abbrev pub family_beq : Family → Family → Bool
family_beq zero_addr zero_addr = true
family_beq ip4 ip4 = true
family_beq ip6 ip6 = true
family_beq _ _ = false

pub family_beq_iff : (a b : Family) → (family_beq a b ≡ true) ↔ (a ≡ b)
family_beq_iff zero_addr b = ground arith
family_beq_iff ip4 b = ground arith
family_beq_iff ip6 b = ground arith

-- `BitLen`.
abbrev pub bit_len : Family → ℕ
bit_len zero_addr = 0
bit_len ip4 = 32
bit_len ip6 = 128

pub record Addr : Type 0 where
  pub family : Family
  pub number : ℕ

pub record Prefix : Type 0 where
  pub ip : Addr
  pub bits_plus_one : ℕ

abbrev pub addr_beq : Addr → Addr → Bool
addr_beq a b = family_beq a.family b.family && nat_beq a.number b.number

pub addr_beq_iff : (a b : Addr) → (addr_beq a b ≡ true) ↔ (a ≡ b)
addr_beq_iff a b = (
  λ h. ground (arith, family_beq_iff a.family b.family),
  λ h. ground (arith, family_beq_iff a.family b.family),
)

abbrev pub prefix_beq : Prefix → Prefix → Bool
prefix_beq p q = addr_beq p.ip q.ip && nat_beq p.bits_plus_one q.bits_plus_one

pub prefix_beq_iff : (p q : Prefix) → (prefix_beq p q ≡ true) ↔ (p ≡ q)
prefix_beq_iff p q = (
  λ h. ground (arith, family_beq_iff p.ip.family q.ip.family),
  λ h. ground (arith, family_beq_iff p.ip.family q.ip.family),
)

instance abbrev pub addr_eq : Eq Addr
addr_eq = record { beq = addr_beq; beq_iff = addr_beq_iff }

instance abbrev pub prefix_eq : Eq Prefix
prefix_eq = record { beq = prefix_beq; beq_iff = prefix_beq_iff }

abbrev pub invalid_addr : Addr
invalid_addr = record { family = zero_addr; number = 0 }

abbrev pub invalid_prefix : Prefix
invalid_prefix = record { ip = invalid_addr; bits_plus_one = 0 }

-- `IsValid`.
abbrev pub is_valid : Prefix → Bool
is_valid p = ltb 0 p.bits_plus_one

-- `Bits`, of a valid prefix.
abbrev pub bits : Prefix → ℕ
bits p = p.bits_plus_one - 1

-- `Is4`.
abbrev pub is4 : Addr → Bool
is4 a = family_beq a.family ip4

abbrev pub cleared : Addr → ℕ → Prefix
cleared a b = record {
  ip = record {
    family = a.family;
    number = block (bit_len a.family) b a.number * 2 ^ (bit_len a.family - b);
  };
  bits_plus_one = suc b;
}

-- `Addr.Prefix(b)`: the host bits are cleared; `none` is its error.
unfoldable pub addr_prefix : Addr → ℕ → Option Prefix
addr_prefix a b = elim a.family [
  | zero_addr ↦ some invalid_prefix
  | ip4 ↦ if leb b 32 then some (cleared a b) else none
  | ip6 ↦ if leb b 128 then some (cleared a b) else none
]

-- `Masked`: the result of `Addr.Prefix`, or the zero prefix on its error.
unfoldable pub masked : Prefix → Prefix
unfolding addr_prefix
masked p =
    if is_valid p
    then (elim (addr_prefix p.ip (bits p)) [ some q ↦ q | none ↦ invalid_prefix ])
    else invalid_prefix

-- `Contains`.
unfoldable pub contains : Prefix → Addr → Bool
contains p a =
    is_valid p
    && not (family_beq p.ip.family zero_addr)
    && family_beq p.ip.family a.family
    && nat_beq (block (bit_len p.ip.family) (bits p) a.number)
        (block (bit_len p.ip.family) (bits p) p.ip.number)

abbrev bool_beq : Bool → Bool → Bool
bool_beq true b = b
bool_beq false b = not b

abbrev same_masked : Option Prefix → Option Prefix → Bool
same_masked (some p) (some q) = addr_beq p.ip q.ip
same_masked (some p) none = false
same_masked none q = false

-- `Overlaps`.
unfoldable pub overlaps : Prefix → Prefix → Bool
unfolding addr_prefix
overlaps p q =
    if not (is_valid p) || not (is_valid q)
    then false
    else if prefix_beq p q
    then true
    else if not (bool_beq (is4 p.ip) (is4 q.ip))
    then false
    else let least = min (bits p) (bits q) in
      if nat_beq least 0
      then true
      else same_masked (addr_prefix p.ip least) (addr_prefix q.ip least)

-- What `PrefixFrom` and `ParsePrefix` give of every valid prefix.
pub record IsPrefix (p : Prefix) : Type 0 where
  pub known : p.ip.family ≢ zero_addr
  pub valid : 0 < p.bits_plus_one
  pub short : bits p ≤ bit_len p.ip.family
  pub fits : p.ip.number < 2 ^ bit_len p.ip.family
