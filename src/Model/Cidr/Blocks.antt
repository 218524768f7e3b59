-- ===== src/Model/Cidr/Blocks.antt =====
-- What `ValidateCIDRBlocks` and `CIDRsOverlap` decide, in terms of addresses.
use vpc_routing.Prelude.{
  ℕ, ◌≤◌, ◌≡◌, refl, sym, ◌∙◌, ◌↔◌, Bool, true, false, List, [], ◌∷◌, map, In, inl, inr, any,
  any_elim, any_intro, Result, ok, err, arith, All, Pairwise, length, All-In, Bool-cases, >>=-eq-ok,
  guard, ltb, ◌==◌, nat_eq, not, ◌||◌, true-ne-false,
}
use vpc_routing.Model.Netip.{Addr, Prefix, masked, contains, overlaps, IsPrefix}
use vpc_routing.Model.Netip.Overlap.{overlaps_iff, masked-IsPrefix}
use vpc_routing.Model.Cidr.Private.{IsVpcBlock, validate_cidr_iff}
use vpc_routing.Model.Cidr.{
  validate_cidr, CidrError, cidrs_overlap, normalize_all, overlap_with, overlap_check,
  validate_cidr_blocks,
}

abbrev pub Share : Prefix → Prefix → Type 0
Share p q = (a : Addr) × (contains p a ≡ true) × (contains q a ≡ true)

-- No address lies in both.
abbrev pub Disjoint : Prefix → Prefix → Type 0
Disjoint p q = (a : Addr) → contains p a ≡ true → contains q a ≡ true → ⊥

-- `CIDRsOverlap` says exactly whether some block of the one list and some block of the other
-- share an address, if all the blocks are prefixes as `ParsePrefix` gives them.
pub cidrs_overlap_iff :
    (xs ys : List Prefix)
    → All IsPrefix xs
    → All IsPrefix ys
    → (cidrs_overlap xs ys ≡ true) ↔ ((p : Prefix) × In p xs × ((q : Prefix) × In q ys × Share p q))
unfolding cidrs_overlap
cidrs_overlap_iff xs ys u v = (
  λ h.
      let (p, m, r) = any_elim (λ pa. any (λ pb. overlaps pa pb) ys) xs h in
      let (q, n, s) = any_elim (λ pb. overlaps p pb) ys r in
      (p, m, (q, n, (overlaps_iff p q (All-In IsPrefix xs p u m) (All-In IsPrefix ys q v n)).0 s)),
  λ r.
      let p = r.0 in
      let m = r.1 in
      let q = r.2.0 in
      let n = r.2.1 in
      let s = r.2.2 in
      any_intro (λ pa. any (λ pb. overlaps pa pb) ys) xs p m
        (any_intro (λ pb. overlaps p pb) ys q n
          ((overlaps_iff p q (All-In IsPrefix xs p u m) (All-In IsPrefix ys q v n)).1 s)),
)

overlap_with_iff :
    (p : Prefix) (qs : List Prefix)
    → IsPrefix p
    → All IsPrefix qs
    → (overlap_with p qs ≡ ok tt) ↔ All (Disjoint p) qs
unfolding overlap_with
overlap_with_iff p [] u v = (λ h. tt, λ h. refl)
overlap_with_iff p (q ∷ qs) u v =
    let rest = overlap_with_iff p qs u v.1 in
    let same = overlaps_iff p q u v.0 in
    elim (Bool-cases (overlaps p q)) [
      | inl e ↦ (
        λ h. absurd (err-ne-ok (rw e at h)),
        λ h. (let (a, x, y) = same.0 e in absurd (h.0 a x y)),
      )
      | inr e ↦ (
        λ h. (λ a x y. true-ne-false (sym (same.1 (a, x, y)) ∙ e), rest.0 (rw e at h)),
        λ h. rw e (rest.1 h.1),
      )
    ]
  where
    err-ne-ok : {x : CidrError} → ◌≡◌ {A = Result CidrError (Unit {0})} (err x) (ok tt) → ⊥
    err-ne-ok h = cc

overlap_check_iff :
    (ps : List Prefix) → All IsPrefix ps → (overlap_check ps ≡ ok tt) ↔ Pairwise Disjoint ps
unfolding overlap_check
overlap_check_iff [] u = (λ h. tt, λ h. refl)
overlap_check_iff (p ∷ ps) u = (
  λ h.
      let (t, x, y) = >>=-eq-ok (overlap_with p ps) _ h in
      ((overlap_with_iff p ps u.0 u.1).0 x, (overlap_check_iff ps u.1).0 y),
  λ h. rw ((overlap_with_iff p ps u.0 u.1).1 h.0) ((overlap_check_iff ps u.1).1 h.1),
)

normalize_all_iff :
    (cs ns : List Prefix)
    → All IsPrefix cs
    → (normalize_all cs ≡ ok ns) ↔ ((ns ≡ map masked cs) × All IsVpcBlock cs)
unfolding normalize_all
normalize_all_iff [] ns u = (λ h. (cc, tt), λ h. cc (h.0))
normalize_all_iff (c ∷ cs) ns u = (
  λ h.
      let (n, x, y) = >>=-eq-ok (validate_cidr c) _ h in
      let (ms, z, w) = >>=-eq-ok (normalize_all cs) _ y in
      let a = (validate_cidr_iff c n u.0).0 x in
      let b = (normalize_all_iff cs ms u.1).0 z in (cc (w, a.0, b.0), (a.1, b.1)),
  λ h.
      let v = (validate_cidr_iff c (masked c) u.0).1 (refl, h.1.0) in
      let r = (normalize_all_iff cs (map masked cs) u.1).1 (refl, h.1.1) in rw (v, r, h.0),
)

masked-All : (cs : List Prefix) → All IsPrefix cs → All IsPrefix (map masked cs)
masked-All [] u = tt
masked-All (c ∷ cs) u = (masked-IsPrefix c u.0, masked-All cs u.1)

-- Go's `len(cidrs) == 0 || len(cidrs) > 5`, negated.
count_ok : (n : ℕ) → (not ((n == 0) || ltb 5 n) ≡ true) ↔ ((1 ≤ n) × (n ≤ 5))
count_ok n = ground arith

guard-ok : (b : Bool) (e : CidrError) → guard b e ≡ ok tt → b ≡ true
guard-ok true e h = refl
guard-ok false e h = cc

-- For blocks as `ParsePrefix` gives them, `ValidateCIDRBlocks` returns `ns` without an error
-- exactly when there are one to five blocks, each is one that a VPC may have, `ns` holds the
-- same blocks with their host bits cleared, and no address lies in two of these.
pub validate_cidr_blocks_iff :
    (cs ns : List Prefix)
    → All IsPrefix cs
    → (validate_cidr_blocks cs ≡ ok ns) ↔ (
        (1 ≤ length cs)
        × (length cs ≤ 5)
        × (ns ≡ map masked cs)
        × All IsVpcBlock cs
        × Pairwise Disjoint ns)
unfolding validate_cidr_blocks
validate_cidr_blocks_iff cs ns u = (there, back)
  where
    there :
        validate_cidr_blocks cs ≡ ok ns
        → (1 ≤ length cs)
          × (length cs ≤ 5)
          × (ns ≡ map masked cs)
          × All IsVpcBlock cs
          × Pairwise Disjoint ns
    there h =
        let (t, g, k) = >>=-eq-ok (guard (not ((length cs == 0) || ltb 5 (length cs))) _) _ h in
        let (ms, x, y) = >>=-eq-ok (normalize_all cs) _ k in
        let (s, z, w) = >>=-eq-ok (overlap_check ms) _ y in
        let e : ms ≡ ns = cc in
        let a = (normalize_all_iff cs ms u).0 x in
        let b = (count_ok (length cs)).0 (guard-ok _ _ g) in
        let m : All IsPrefix ms = rw (a.0) (masked-All cs u) in
        (b.0, b.1, sym e ∙ a.0, a.1, rw (← e) ((overlap_check_iff ms m).0 z))

    back :
        (1 ≤ length cs)
          × (length cs ≤ 5)
          × (ns ≡ map masked cs)
          × All IsVpcBlock cs
          × Pairwise Disjoint ns
        → validate_cidr_blocks cs ≡ ok ns
    back h =
        let m : All IsPrefix ns = rw (h.2) (masked-All cs u) in
        rw (
          (count_ok (length cs)).1 (h.0, h.1),
          (normalize_all_iff cs ns u).1 (h.2, h.3),
          (overlap_check_iff ns m).1 h.4,
        )
