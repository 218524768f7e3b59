-- ===== src/Model/Policy/Decision.antt =====
-- The decisions of `EvaluatePrefix`, in terms of the addresses of the prefixes.
use native.Mathlib.Nat.{add-div_left, div-eq_of_lt-le, pow-suc, pow-le-pow_right, mul-div_left}
use vpc_routing.Prelude.{
  ℕ, suc, ◌+◌, ◌-◌, ◌*◌, ◌/◌, ◌^◌, ◌≤◌, ◌<◌, ◌≡◌, refl, sym, ap, ◌∙◌, ◌↔◌, ◌⊎◌, inl, inr, Bool,
  true, false, ◌&&◌, not, List, [], ◌∷◌, ltb, leb, any, any_elim, any_intro, In, All, All-In,
  length, ℤ, pos, is_positive, pos_part, at_least, arith, Bool-cases, true-ne-false,
}
use vpc_routing.Prelude.Arith.{block, two-pow-pos}
use vpc_routing.Model.Netip.{
  Addr, Prefix, prefix_beq, prefix_beq_iff, prefix_eq, bits, bit_len, contains, IsPrefix,
}
use vpc_routing.Model.Netip.Overlap.{contains_iff, contains_trans, contains_self}
use vpc_routing.Model.Policy.{RoutePolicy, accept, deny, prefix_contains, evaluate_prefix}

-- Every address of `inner` is one of `outer`.
abbrev pub Covers : Prefix → Prefix → Type 0
Covers outer inner = (a : Addr) → contains inner a ≡ true → contains outer a ≡ true

-- Two addresses of one block that a longer prefix tells apart: its first, and one `2 ^ j` further.
far_apart : (x j : ℕ) → (2 ^ j + x) / 2 ^ j ≡ x / 2 ^ j + 1
far_apart x j = add-div_left x (two-pow-pos j)

two-pow-lt : (j k : ℕ) → j < k → 2 ^ j < 2 ^ k
two-pow-lt j k h = omega (
  arith,
  pow-suc 2 j,
  pow-le-pow_right {n = 2} (omega arith) {i = suc j} {j = k} h,
  two-pow-pos j,
)

still_inside : (b j k : ℕ) → j < k → (2 ^ j + b * 2 ^ k) / 2 ^ k ≡ b
still_inside b j k h = div-eq_of_lt-le (2 ^ k) (omega arith) (omega (arith, two-pow-lt j k h))

prefix_contains-Covers :
    (p q : Prefix) → IsPrefix p → IsPrefix q → prefix_contains p q ≡ true → Covers p q
unfolding prefix_contains
prefix_contains-Covers p q u v h a k = elim (Bool-cases (prefix_beq p q)) [
  | inl e ↦ rw ((prefix_beq_iff p q).0 e) k
  | inr e ↦ contains_trans p q a u v (ground (arith, u.valid, v.valid)) (ground arith) k
]

-- A prefix that covers another is no longer than it.
Covers-bits : (p q : Prefix) → IsPrefix p → IsPrefix q → Covers p q → bits p ≤ bits q
Covers-bits p q u v c = elim (Bool-cases (leb (bits p) (bits q))) [
  | inl e ↦ ground arith
  | inr e ↦ absurd (apart (ground arith))
]
  where
    w : ℕ
    w = bit_len q.ip.family

    j : ℕ
    j = w - bits p

    k : ℕ
    k = w - bits q

    b : ℕ
    b = block (bit_len q.ip.family) (bits q) q.ip.number

    at : ℕ → Addr
    at n = record { family = q.ip.family; number = n }

    hit :
        (n : ℕ)
        → n / 2 ^ (bit_len q.ip.family - bits q) ≡ b
        → (p.ip.family ≡ q.ip.family)
          × (n / 2 ^ (bit_len q.ip.family - bits p)
              ≡ block (bit_len p.ip.family) (bits p) p.ip.number)
    hit n e =
        let x = (contains_iff p (at n) u).0 (c (at n) ((contains_iff q (at n) v).1 (refl, e))) in
        (x.0, ap (λ f. n / 2 ^ (bit_len f - bits p)) (sym x.0) ∙ x.1)

    apart : bits q < bits p → ⊥
    apart l =
        let s : bits p ≤ bit_len q.ip.family = rw (sym (hit q.ip.number refl).0) u.short in
        let x = hit (b * 2 ^ k) (mul-div_left b (two-pow-pos k)) in
        let y = hit (2 ^ j + b * 2 ^ k) (still_inside b j k (omega arith)) in
        let f = far_apart (b * 2 ^ k) j in omega (arith, f, x.1, y.1)

-- For prefixes as `ParsePrefix` gives them, `prefixContains` says whether every address of the
-- one prefix is an address of the other.
pub prefix_contains_iff :
    (outer inner : Prefix)
    → IsPrefix outer
    → IsPrefix inner
    → (prefix_contains outer inner ≡ true) ↔ Covers outer inner
unfolding prefix_contains
prefix_contains_iff p q u v = (
  prefix_contains-Covers p q u v,
  λ c. ground (arith, Covers-bits p q u v c, c q.ip (contains_self q v), u.valid, v.valid),
)

-- Some prefix of the list covers `x`.
abbrev pub SomeCovers : List Prefix → Prefix → Type 0
SomeCovers ps x = (p : Prefix) × In p ps × Covers p x

any_covers_iff :
    (ps : List Prefix) (x : Prefix)
    → All IsPrefix ps
    → IsPrefix x
    → (any (λ p. prefix_contains p x) ps ≡ true) ↔ SomeCovers ps x
any_covers_iff ps x u v = (
  λ h.
      let (p, m, e) = any_elim (λ p. prefix_contains p x) ps h in
      (p, m, (prefix_contains_iff p x (All-In IsPrefix ps p u m) v).0 e),
  λ (p, m, c).
      any_intro (λ p. prefix_contains p x) ps p m
        ((prefix_contains_iff p x (All-In IsPrefix ps p u m) v).1 c),
)

-- The limit lets one more prefix in: there is none, or the count is below it.
abbrev pub BelowLimit : RoutePolicy → ℕ → Type 0
BelowLimit policy n = (pos_part policy.max_prefixes ≡ 0) ⊎ (n < pos_part policy.max_prefixes)

limit_iff :
    (z : ℤ) (n : ℕ)
    → ((is_positive z && at_least n z) ≡ false) ↔ ((pos_part z ≡ 0) ⊎ (n < pos_part z))
limit_iff (pos m) n = (λ h. ground arith, λ h. ground arith)
limit_iff (ℤ.negsuc m) n = (λ h. inl refl, λ h. refl)

allowed_side :
    (ps : List Prefix) (b : Bool) → (ltb 0 (length ps) && not b) ≡ false → (ps ≡ []) ⊎ (b ≡ true)
allowed_side [] b h = inl refl
allowed_side (p ∷ ps) b h = inr (ground arith)

module _ (policy : RoutePolicy) (x : Prefix) (n : ℕ) (denied : All IsPrefix policy.denied_prefixes)
    (allowed : All IsPrefix policy.allowed_prefixes) (known : IsPrefix x) where
  decide_deny :
      ((evaluate_prefix policy x n).0 ≡ deny)
      ↔ (any (λ p. prefix_contains p x) policy.denied_prefixes ≡ true)
  unfolding evaluate_prefix
  decide_deny = (λ h. ground arith, λ h. ground arith)

  decide_accept : ((evaluate_prefix policy x n).0 ≡ accept) ↔ (
      (any (λ p. prefix_contains p x) policy.denied_prefixes ≡ false)
      × ((policy.allowed_prefixes ≡ [])
          ⊎ (any (λ p. prefix_contains p x) policy.allowed_prefixes ≡ true))
      × ((is_positive policy.max_prefixes && at_least n policy.max_prefixes) ≡ false))
  unfolding evaluate_prefix
  decide_accept = (
    λ h. (ground arith, allowed_side policy.allowed_prefixes _ (ground arith), ground arith),
    λ h. ground (arith, ap (λ (l : List Prefix). length l)),
  )

  -- A prefix is denied exactly when some denied prefix covers it, whatever else the policy says,
  -- if all of these are prefixes as `ParsePrefix` gives them.
  pub evaluate_prefix-deny_iff :
      ((evaluate_prefix policy x n).0 ≡ deny) ↔ SomeCovers policy.denied_prefixes x
  evaluate_prefix-deny_iff =
      let c = any_covers_iff policy.denied_prefixes x denied known in
      (λ h. c.0 (decide_deny.0 h), λ h. decide_deny.1 (c.1 h))

  pub evaluate_prefix-accept_iff : ((evaluate_prefix policy x n).0 ≡ accept) ↔ (
      (SomeCovers policy.denied_prefixes x → ⊥)
      × ((policy.allowed_prefixes ≡ []) ⊎ SomeCovers policy.allowed_prefixes x)
      × BelowLimit policy n)
  evaluate_prefix-accept_iff =
      let d = any_covers_iff policy.denied_prefixes x denied known in
      let a = any_covers_iff policy.allowed_prefixes x allowed known in
      let l = limit_iff policy.max_prefixes n in
      (
        λ h.
            let r = decide_accept.0 h in
            (
              λ c. true-ne-false (sym (d.1 c) ∙ r.0),
              elim r.1 [ inl e ↦ inl e | inr e ↦ inr (a.0 e) ],
              l.0 r.2,
            ),
        λ r. decide_accept.1 (
          elim (Bool-cases (any (λ p. prefix_contains p x) policy.denied_prefixes)) [
            | inl e ↦ absurd (r.0 (d.0 e))
            | inr e ↦ e
          ],
          elim r.1 [ inl e ↦ inl e | inr c ↦ inr (a.1 c) ],
          l.1 r.2,
        ),
      )
