-- ===== src/Model/Netip/Overlap.antt =====
-- Prefixes as sets of addresses: what `Masked`, `Contains` and `Overlaps` mean.
use vpc_routing.Prelude.{
  ℕ, suc, ◌-◌, ◌*◌, ◌^◌, ◌/◌, ◌≤◌, ◌<◌, ◌≡◌, refl, sym, ap, ◌∙◌, ◌↔◌, inl, inr, ◌≢◌, true, some,
  arith, Bool-cases, min, leb, bool_ext,
}
use native.Mathlib.Nat.{div-eq_of_lt, div-mul-le_self}
use vpc_routing.Prelude.Arith.{block, block-masked, block_mono}
use vpc_routing.Model.Netip.{
  zero_addr, family_beq_iff, bit_len, Addr, Prefix, prefix_beq_iff, bits, cleared, addr_prefix,
  masked, contains, overlaps, IsPrefix,
}

abbrev blk : Prefix → ℕ → ℕ
blk p x = block (bit_len p.ip.family) (bits p) x

pub addr_prefix_ok :
    (a : Addr) (b : ℕ)
    → a.family ≢ zero_addr
    → b ≤ bit_len a.family
    → addr_prefix a b ≡ some (cleared a b)
unfolding addr_prefix
addr_prefix_ok a b k h = ground arith

pub masked_ok : (p : Prefix) → IsPrefix p → masked p ≡ cleared p.ip (bits p)
unfolding masked
masked_ok p w = ground (arith, addr_prefix_ok p.ip (bits p))

-- Membership in a prefix: the same family, and the same leading bits.
pub contains_iff :
    (p : Prefix) (a : Addr)
    → IsPrefix p
    → (contains p a ≡ true) ↔ ((p.ip.family ≡ a.family) × (blk p a.number ≡ blk p p.ip.number))
unfolding contains
contains_iff p a w = (
  λ h. ground (arith, family_beq_iff p.ip.family a.family, family_beq_iff p.ip.family zero_addr),
  λ h. ground (arith, family_beq_iff p.ip.family a.family, family_beq_iff p.ip.family zero_addr),
)

abbrev least : Prefix → Prefix → ℕ
least p q = min (bits p) (bits q)

-- Two prefixes agree when their addresses share the leading bits of the shorter one.
abbrev Agree : Prefix → Prefix → Type 0
Agree p q =
    (p.ip.family ≡ q.ip.family)
    × (block (bit_len p.ip.family) (least p q) p.ip.number
        ≡ block (bit_len p.ip.family) (least p q) q.ip.number)

block-unmask :
    (w b x y : ℕ)
    → block w b x * 2 ^ (w - b) ≡ block w b y * 2 ^ (w - b)
    → block w b x ≡ block w b y
block-unmask w b x y h = sym (block-masked w b x) ∙ ap (block w b) h ∙ block-masked w b y

block-zero : (w x : ℕ) → x < 2 ^ w → block w 0 x ≡ 0
block-zero w x h = ap (λ k. x / 2 ^ k) (sub0 w) ∙ div-eq_of_lt h
  where
    sub0 : (k : ℕ) → k - 0 ≡ k
    sub0 k = omega arith

overlaps-Agree : (p q : Prefix) → IsPrefix p → IsPrefix q → overlaps p q ≡ true → Agree p q
unfolding overlaps
overlaps-Agree p q u v h = ground (
  arith,
  family_beq_iff p.ip.family q.ip.family,
  prefix_beq_iff p q,
  addr_prefix_ok p.ip (least p q),
  addr_prefix_ok q.ip (least p q),
  block-unmask (bit_len p.ip.family) (least p q) p.ip.number q.ip.number,
  block-zero (bit_len p.ip.family) p.ip.number,
  block-zero (bit_len p.ip.family) q.ip.number,
)

Agree-overlaps : (p q : Prefix) → IsPrefix p → IsPrefix q → Agree p q → overlaps p q ≡ true
unfolding overlaps
Agree-overlaps p q u v h = ground (
  arith,
  family_beq_iff p.ip.family q.ip.family,
  prefix_beq_iff p q,
  addr_prefix_ok p.ip (least p q),
  addr_prefix_ok q.ip (least p q),
)

Agree-meet :
    (p q : Prefix)
    → IsPrefix p
    → IsPrefix q
    → Agree p q
    → (a : Addr) × (contains p a ≡ true) × (contains q a ≡ true)
Agree-meet p q u v h = elim (Bool-cases (leb (bits p) (bits q))) [
  | inl e ↦
      (q.ip, (contains_iff p q.ip u).1 (h.0, ground arith), (contains_iff q q.ip v).1 (refl, refl))
  | inr e ↦ (
    p.ip,
    (contains_iff p p.ip u).1 (refl, refl),
    (contains_iff q p.ip v).1 (sym h.0, ground arith),
  )
]

meet-Agree :
    (p q : Prefix) (a : Addr)
    → IsPrefix p
    → IsPrefix q
    → contains p a ≡ true
    → contains q a ≡ true
    → Agree p q
meet-Agree p q a u v h k =
    let x = (contains_iff p a u).0 h in
    let y = (contains_iff q a v).0 k in
    let same : p.ip.family ≡ q.ip.family = x.0 ∙ sym y.0 in
    let w : ℕ = bit_len p.ip.family in
    let y' : block w (bits q) a.number ≡ block w (bits q) q.ip.number = rw same y.1 in
    let s : bits q ≤ w = rw same v.short in
    (
      same,
      sym (block_mono w (least p q) (bits p) a.number p.ip.number (omega arith) u.short x.1)
          ∙ block_mono w (least p q) (bits q) a.number q.ip.number (omega arith) s y',
    )

-- `Overlaps` says whether two prefixes share an address.
pub overlaps_iff :
    (p q : Prefix)
    → IsPrefix p
    → IsPrefix q
    → (overlaps p q ≡ true) ↔ ((a : Addr) × (contains p a ≡ true) × (contains q a ≡ true))
overlaps_iff p q u v = (
  λ h. Agree-meet p q u v (overlaps-Agree p q u v h),
  λ r. Agree-overlaps p q u v (meet-Agree p q r.0 u v r.1 r.2),
)

-- A prefix that is no shorter and starts inside another lies inside it.
pub contains_trans :
    (p q : Prefix) (a : Addr)
    → IsPrefix p
    → IsPrefix q
    → bits p ≤ bits q
    → contains p q.ip ≡ true
    → contains q a ≡ true
    → contains p a ≡ true
contains_trans p q a u v l h k =
    let x = (contains_iff p q.ip u).0 h in
    let y = (contains_iff q a v).0 k in
    (contains_iff p a u).1 (
      x.0 ∙ y.0,
      block_mono (bit_len p.ip.family) (bits p) (bits q) a.number q.ip.number l (rw x.0 v.short)
            (rw x.0 y.1)
          ∙ x.1,
    )

pub contains_self : (p : Prefix) → IsPrefix p → contains p p.ip ≡ true
contains_self p u = (contains_iff p p.ip u).1 (refl, refl)

masked_lt : (w b x : ℕ) → x < 2 ^ w → block w b x * 2 ^ (w - b) < 2 ^ w
masked_lt w b x h = omega (arith, div-mul-le_self x (2 ^ (w - b)))

pub masked-IsPrefix : (p : Prefix) → IsPrefix p → IsPrefix (masked p)
masked-IsPrefix p u = rw (masked_ok p u) (record {
  known = u.known;
  valid = omega arith;
  short = ground (arith, u.short);
  fits = masked_lt (bit_len p.ip.family) (bits p) p.ip.number u.fits;
})

suc-sub-one : (n : ℕ) → suc n - 1 ≡ n
suc-sub-one n = omega arith

-- Masking changes neither the length nor the addresses.
pub contains-masked : (p : Prefix) (a : Addr) → IsPrefix p → contains (masked p) a ≡ contains p a
contains-masked p a u =
    let n = masked-IsPrefix p u in
    bool_ext (contains (masked p) a) (contains p a)
      (λ h. (contains_iff p a u).1 (there ((contains_iff (masked p) a n).0 h)))
      (λ h. (contains_iff (masked p) a n).1 (back ((contains_iff p a u).0 h)))
  where
    keeps :
        block (bit_len p.ip.family) (bits p) (cleared p.ip (bits p)).ip.number ≡ blk p p.ip.number
    keeps = block-masked (bit_len p.ip.family) (bits p) p.ip.number

    there :
        ((masked p).ip.family ≡ a.family)
          × (blk (masked p) a.number ≡ blk (masked p) (masked p).ip.number)
        → (p.ip.family ≡ a.family) × (blk p a.number ≡ blk p p.ip.number)
    there r = let s = rw (masked_ok p u, suc-sub-one (bits p)) at r in (s.0, s.1 ∙ keeps)

    back :
        (p.ip.family ≡ a.family) × (blk p a.number ≡ blk p p.ip.number)
        → ((masked p).ip.family ≡ a.family)
          × (blk (masked p) a.number ≡ blk (masked p) (masked p).ip.number)
    back r = rw (masked_ok p u, suc-sub-one (bits p)) (r.0, r.1 ∙ sym keeps)

pub bits-masked : (p : Prefix) → IsPrefix p → bits (masked p) ≡ bits p
bits-masked p u = rw (masked_ok p u) (suc-sub-one (bits p))

pub family-masked : (p : Prefix) → IsPrefix p → (masked p).ip.family ≡ p.ip.family
family-masked p u = rw (masked_ok p u)

-- A masked prefix stays as it is.
pub masked_idem : (p : Prefix) → IsPrefix p → masked (masked p) ≡ masked p
masked_idem p u =
    masked_ok (masked p) (masked-IsPrefix p u)
    ∙ rw (masked_ok p u) (
        rw (suc-sub-one (bits p)) (
          ap
            (λ n. record {
              ip = record { family = p.ip.family; number = n * 2 ^ (bit_len p.ip.family - bits p) };
              bits_plus_one = suc (bits p);
            })
            (block-masked (bit_len p.ip.family) (bits p) p.ip.number)))
