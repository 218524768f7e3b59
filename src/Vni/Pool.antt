-- ===== src/Vni/Pool.antt =====
-- What `Allocate` and `Release` do to the pool.
use vpc_routing.Prelude.{
  ℕ, zero, suc, ◌+◌, ◌≤◌, ◌<◌, ◌≡◌, refl, sym, ap, ◌∙◌, ◌↔◌, inl, inr, arith, true, false, ◌||◌,
  Option, none, some, Option-cases, Bool-cases, String, if◌then◌else◌, Result, ok, err, ◌==◌,
  nat_eq, string_eq, nat_beq_iff, some-ne-none, true-ne-false,
}
use vpc_routing.Prelude.Maps.{lookup, insert, lookup-insert, lookup-delete}
use vpc_routing.Vni.{
  Allocator, VniError, exhausted, min_vni, max_vni, encode_vni, decode_vni, is_allocated, release,
  for_each, try_seq, try_shard, try_region, account_shard, allocate, take_vni, or_else,
}
use vpc_routing.Vni.Codec.{
  decode-encode_vni, encode-decode_vni, decode_vni_digits, account_shard-lt,
}

for_each-some {ℓ} :
    {A : Type ℓ} (body : ℕ → Option A) (rounds i : ℕ) (v : A)
    → for_each body rounds i ≡ some v
    → (j : ℕ) × (i ≤ j) × (j < i + rounds) × (body j ≡ some v)
unfolding for_each
for_each-some body zero i v h = cc
for_each-some body (suc rounds) i v h = elim (Option-cases (body i)) [
  | inl e ↦
      let (j, p, q, r) = for_each-some body rounds (i + 1) v (rw (e, for_each) at h) in
      (j, omega arith, omega arith, r)
  | inr (w, e) ↦ (i, omega arith, omega arith, e ∙ (rw (e, for_each) at h))
]

for_each-none {ℓ} :
    {A : Type ℓ} (body : ℕ → Option A) (rounds i j : ℕ)
    → for_each body rounds i ≡ none
    → i ≤ j
    → j < i + rounds
    → body j ≡ none
unfolding for_each
for_each-none body zero i j h p q = absurd (omega arith)
for_each-none body (suc rounds) i j h p q = elim (Option-cases (body i)) [
  | inl e ↦ elim (Bool-cases (i == j)) [
    | inl same ↦ rw (← (nat_beq_iff i j).0 same) e
    | inr other ↦
        for_each-none body rounds (i + 1) j (rw (e, for_each) at h) (ground arith) (omega arith)
  ]
  | inr (w, e) ↦ absurd (some-ne-none (rw (e, for_each) at h))
]

-- A VNI that the pool may give out in a region.
pub record IsFree (a : Allocator) (region v : ℕ) : Type 0 where
  pub low : min_vni ≤ v
  pub high : v < max_vni
  pub home : (decode_vni v).0 ≡ region
  pub free : is_allocated a v ≡ false

try_seq-some :
    (a : Allocator) (r t s v : ℕ)
    → try_seq a r t s ≡ some v
    → (v ≡ encode_vni r t s) × (min_vni ≤ v) × (v < max_vni) × (is_allocated a v ≡ false)
unfolding try_seq
try_seq-some a r t s v h = ground arith

try_seq-none :
    (a : Allocator) (r t s : ℕ)
    → try_seq a r t s ≡ none
    → min_vni ≤ encode_vni r t s
    → encode_vni r t s < max_vni
    → is_allocated a (encode_vni r t s) ≡ true
unfolding try_seq
try_seq-none a r t s h l u = ground arith

IsFree-code :
    (a : Allocator) (r t s v : ℕ)
    → r < 16
    → t < 1024
    → s < 1024
    → try_seq a r t s ≡ some v
    → IsFree a r v
IsFree-code a r t s v hr ht hs h =
    let (e, l, u, f) = try_seq-some a r t s v h in
    record {
      low = l;
      high = u;
      home = rw e (ap (λ (d : ℕ × ℕ × ℕ). d.0) (decode-encode_vni r t s hr ht hs));
      free = f;
    }

try_shard-some :
    (a : Allocator) (r t v : ℕ) → r < 16 → t < 1024 → try_shard a r t ≡ some v → IsFree a r v
unfolding try_shard
try_shard-some a r t v hr ht h =
    let (s, _, u, e) = for_each-some (try_seq a r t) 1024 0 v h in
    IsFree-code a r t s v hr ht (omega arith) e

try_region-some : (a : Allocator) (r v : ℕ) → r < 16 → try_region a r ≡ some v → IsFree a r v
unfolding try_region
try_region-some a r v hr h =
    let (t, _, u, e) = for_each-some (try_shard a r) 1024 0 v h in
    try_shard-some a r t v hr (omega arith) e

-- A VNI that is in the region and in range is the code of its shard and sequence number.
try_region-none : (a : Allocator) (r v : ℕ) → try_region a r ≡ none → IsFree a r v → ⊥
unfolding try_region try_shard
try_region-none a r v h f =
    let d = decode_vni_digits v in
    let code : encode_vni r (decode_vni v).1 (decode_vni v).2 ≡ v =
      rw (← f.home) (encode-decode_vni v (omega (arith, f.high))) in
    let t =
      for_each-none (try_shard a r) 1024 0 (decode_vni v).1 h (omega arith) (rw d (omega arith)) in
    let s =
      for_each-none (try_seq a r (decode_vni v).1) 1024 0 (decode_vni v).2 t (omega arith)
        (rw d (omega arith)) in
    let taken =
      try_seq-none a r (decode_vni v).1 (decode_vni v).2 s (rw code f.low) (rw code f.high) in
    true-ne-false (sym (rw code at taken) ∙ f.free)

abbrev chosen : Allocator → ℕ → ℕ → Option ℕ
chosen a r t = or_else (try_shard a r t) (try_region a r)

chosen-some : (a : Allocator) (r t v : ℕ) → r < 16 → t < 1024 → chosen a r t ≡ some v → IsFree a r v
chosen-some a r t v hr ht h = elim (Option-cases (try_shard a r t)) [
  | inl e ↦ try_region-some a r v hr (rw e at h)
  | inr (w, e) ↦ try_shard-some a r t v hr ht (e ∙ (rw e at h))
]

chosen-none : (a : Allocator) (r t v : ℕ) → chosen a r t ≡ none → IsFree a r v → ⊥
chosen-none a r t v h f = elim (Option-cases (try_shard a r t)) [
  | inl e ↦ try_region-none a r v (rw e at h) f
  | inr (w, e) ↦ absurd (some-ne-none (rw e at h))
]

allocate-known :
    (hash : ℕ) (a : Allocator) (name : String) (r : ℕ)
    → lookup name a.region_map ≡ some r
    → allocate hash a name ≡ take_vni a (chosen a r (account_shard hash))
unfolding allocate
allocate-known hash a name r h = rw (h, allocate)

taken-is_allocated :
    (a : Allocator) (v w : ℕ)
    → is_allocated (record a { allocated = insert v true a.allocated }) w
      ≡ (v == w || is_allocated a w)
unfolding is_allocated
taken-is_allocated a v w = ground (arith, lookup-insert v w true a.allocated)

-- What a successful allocation in region `r` gives: a VNI that was free and lies in that region, and
-- a pool in which just that VNI is newly taken and the regions are as before.
pub record Allocates (a : Allocator) (r v : ℕ) (b : Allocator) : Type 0 where
  pub was_free : IsFree a r v
  pub now_taken : (w : ℕ) → is_allocated b w ≡ (v == w || is_allocated a w)
  pub same_regions : b.region_map ≡ a.region_map

take_vni-ok :
    (a b : Allocator) (o : Option ℕ) (v : ℕ)
    → take_vni a o ≡ ok (v, b)
    → (o ≡ some v) × (b ≡ record a { allocated = insert v true a.allocated })
take_vni-ok a b none v h = cc
take_vni-ok a b (some w) v h = (cc, cc)

take_vni-err :
    (a : Allocator) (o : Option ℕ) (e : VniError)
    → take_vni a o ≡ err e
    → (o ≡ none) × (e ≡ exhausted)
take_vni-err a none e h = (refl, cc)
take_vni-err a (some w) e h = cc

module _ (hash : ℕ) (a : Allocator) (name : String) (r : ℕ)
    (known : lookup name a.region_map ≡ some r) (small : r < 16) where
  -- A successful `Allocate` in a registered region below 16 hands out a VNI from 4096 up to
  -- 16,000,000 that was not taken and whose top bits are the region, and takes that VNI and no
  -- other.
  pub allocate-Allocates :
      (v : ℕ) (b : Allocator) → allocate hash a name ≡ ok (v, b) → Allocates a r v b
  allocate-Allocates v b h =
      let (o, e) = take_vni-ok a b _ v (sym (allocate-known hash a name r known) ∙ h) in
      rw e (record {
        was_free = chosen-some a r (account_shard hash) v small (account_shard-lt hash) o;
        now_taken = taken-is_allocated a v;
        same_regions = refl;
      })

  -- `Allocate` in a registered region below 16 fails exactly when the region has no free VNI
  -- left, whichever account asks.
  pub allocate-exhausted_iff : (allocate hash a name ≡ err exhausted) ↔ ((v : ℕ) → IsFree a r v → ⊥)
  allocate-exhausted_iff = (
    λ h v f.
        chosen-none a r (account_shard hash) v
          ((take_vni-err a _ exhausted (sym (allocate-known hash a name r known) ∙ h)).0) f,
    λ none_free.
        allocate-known hash a name r known
        ∙ (elim (Option-cases (chosen a r (account_shard hash))) [
          | inl e ↦ rw e
          | inr (v, e) ↦
              absurd (
                none_free v
                  (chosen-some a r (account_shard hash) v small (account_shard-lt hash) e))
        ]),
  )

-- Only a registered region gives out a VNI.
pub allocate-ok_known :
    (hash : ℕ) (a : Allocator) (name : String) (v : ℕ) (b : Allocator)
    → allocate hash a name ≡ ok (v, b)
    → (r : ℕ) × (lookup name a.region_map ≡ some r)
unfolding allocate
allocate-ok_known hash a name v b h = elim (Option-cases (lookup name a.region_map)) [
  | inl e ↦ absurd (err-ne-ok (rw (e, allocate) at h))
  | inr (r, e) ↦ (r, e)
]
  where
    err-ne-ok : {e : VniError} → ◌≡◌ {A = Result VniError (ℕ × Allocator)} (err e) (ok (v, b)) → ⊥
    err-ne-ok h = cc

-- `Release` frees the one VNI that it is given.
pub is_allocated-release :
    (a : Allocator) (v w : ℕ)
    → is_allocated (release a v) w ≡ (if v == w then false else is_allocated a w)
unfolding is_allocated release
is_allocated-release a v w = ground (arith, lookup-delete v w a.allocated)
