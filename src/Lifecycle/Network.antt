-- ===== src/Lifecycle/Network.antt =====
-- What the handlers of internal/api/vpc_handler.go keep of the VPCs and of the VNI pool.
use vpc_routing.Prelude.{
  ℕ, ◌+◌, ◌≤◌, ◌<◌, ◌≡◌, sym, ◌∙◌, ap, inl, inr, arith, Bool, true, false, ◌&&◌, not, none, some,
  String, List, [], ◌∷◌, Result, ok, err, ok-inj, ◌==◌, nat_eq, string_eq, Bool-cases, All,
  Pairwise, first-none, any, some-ne-none, true-ne-false, nat_beq_iff,
}
use vpc_routing.Prelude.Maps.{
  lookup, insert, values, count_values, bool_nat, AllValues-insert, count_values-insert_any,
}
use vpc_routing.Model.Cidr.{cidrs_overlap}
use vpc_routing.Model.Entities.{Uuid, Vpc, is_deleted, AppError}
use vpc_routing.Store.Vpcs
use vpc_routing.Store.Vpcs.{VpcStore, is_overlapping}
use vpc_routing.Vni.{Allocator, is_allocated}
use vpc_routing.Vni.Pool.{Allocates}
use vpc_routing.Api.Db.{Db}
use vpc_routing.Api.VpcHandler.{stored_as}

-- A VPC that is not deleted and has the VNI.
abbrev pub uses : ℕ → Vpc → Bool
uses n v = not (is_deleted v.state) && v.vni == n

-- Two VPCs of one account, neither deleted, have blocks that do not overlap.
abbrev pub Compatible : Vpc → Vpc → Type 0
Compatible v w =
    v.account_id ≡ w.account_id
    → is_deleted v.state ≡ false
    → is_deleted w.state ≡ false
    → cidrs_overlap v.cidr_blocks w.cidr_blocks ≡ false

pub record NetInv (db : Db) : Type 0 where
  pub regions : (name : String) (r : ℕ) → lookup name db.alloc.region_map ≡ some r → r < 16
  pub vnis : (n : ℕ) → count_values (uses n) db.vpcs ≤ bool_nat (is_allocated db.alloc n)
  pub apart : Pairwise Compatible (values db.vpcs)

any-All : (p : Vpc → Bool) (xs : List Vpc) → any p xs ≡ false → All (λ v. p v ≡ false) xs
any-All p [] h = tt
any-All p (x ∷ xs) h = (ground arith, any-All p xs (ground arith))

insert-apart :
    (k : Uuid) (v : Vpc) (s : VpcStore)
    → lookup k s ≡ none
    → All (λ w. Compatible w v) (values s)
    → Pairwise Compatible (values s)
    → Pairwise Compatible (values (insert k v s))
unfolding lookup insert
insert-apart k v [] l a w = (tt, tt)
insert-apart k v ((j, u) ∷ s) l a w = elim (Bool-cases (j == k)) [
  | inl e ↦ absurd (some-ne-none (rw e at l))
  | inr e ↦
      rw e (AllValues-insert (Compatible u) k v s a.0 w.0, insert-apart k v s (rw e at l) a.1 w.1)
]

pub deleted-apart :
    (k : Uuid) (v : Vpc) (s : VpcStore)
    → is_deleted v.state ≡ true
    → Pairwise Compatible (values s)
    → Pairwise Compatible (values (insert k v s))
unfolding insert
deleted-apart k v [] d w = (tt, tt)
deleted-apart k v ((j, u) ∷ s) d w = elim (Bool-cases (j == k)) [
  | inl e ↦ rw e (all-apart (values s), w.1)
  | inr e ↦ rw e (
    AllValues-insert (Compatible u) k v s (λ _ _ h. absurd (true-ne-false (sym d ∙ h))) w.0,
    deleted-apart k v s d w.1,
  )
]
  where
    all-apart : (xs : List Vpc) → All (Compatible v) xs
    all-apart [] = tt
    all-apart (x ∷ xs) = (λ _ h _. absurd (true-ne-false (sym d ∙ h)), all-apart xs)

created-ok :
    (s t : VpcStore) (v : Vpc)
    → Vpcs.create s v ≡ ok t
    → (lookup v.id s ≡ none) × (t ≡ insert v.id v s)
unfolding Vpcs.create
created-ok s t v h = ground arith

-- The pool after an allocation covers the store before it.
pool-grows :
    (a b : Allocator) (r v n c : ℕ)
    → Allocates a r v b
    → c ≤ bool_nat (is_allocated a n)
    → c ≤ bool_nat (is_allocated b n)
pool-grows a b r v n c h k = ground (arith, h.now_taken n)

pool-covers :
    (a b : Allocator) (r v n c d : ℕ)
    → Allocates a r v b
    → c ≤ bool_nat (is_allocated a n)
    → d ≤ c + bool_nat (v == n)
    → d ≤ bool_nat (is_allocated b n)
pool-covers a b r v n c d h k l = elim (Bool-cases (v == n)) [
  | inl e ↦
      (let q : is_allocated a n ≡ false = rw (← (nat_beq_iff v n).0 e) h.was_free.free in
        let t : is_allocated b n ≡ true = h.now_taken n ∙ rw e in
        omega (arith, ap bool_nat e, ap bool_nat q, ap bool_nat t))
  | inr e ↦
      (let t : is_allocated b n ≡ is_allocated a n = h.now_taken n ∙ rw e in
        omega (arith, ap bool_nat e, ap bool_nat t))
]

-- The new VPC shares no block with the account's others.
overlap-free :
    (s : VpcStore) (v : Vpc)
    → Vpcs.find_overlapping_cidr s v.account_id v.cidr_blocks ≡ ok none
    → All (λ w. Compatible w v) (values s)
unfolding Vpcs.find_overlapping_cidr
overlap-free s v h = fits (values s) (
    any-All _ (values s)
      (first-none (is_overlapping v.account_id v.cidr_blocks) (values s) (ok-inj h)))
  where
    fits :
        (xs : List Vpc)
        → All (λ w. is_overlapping v.account_id v.cidr_blocks w ≡ false) xs
        → All (λ w. Compatible w v) xs
    fits [] a = tt
    fits (x ∷ xs) a =
        (λ e f g. ground (arith, a.0, nat_beq_iff x.account_id v.account_id), fits xs a.1)

module _ (db : Db) (inv : NetInv db) (alloc : Allocator) (r vni : ℕ)
    (took : Allocates db.alloc r vni alloc) where
  regions-kept : (name : String) (i : ℕ) → lookup name alloc.region_map ≡ some i → i < 16
  regions-kept name i h = inv.regions name i (ap (lookup name) (sym took.same_regions) ∙ h)

  pub stored_as-NetInv :
      (v : Vpc) (o : Result AppError VpcStore)
      → v.vni ≡ vni
      → Vpcs.find_overlapping_cidr db.vpcs v.account_id v.cidr_blocks ≡ ok none
      → Vpcs.create db.vpcs v ≡ o
      → NetInv (stored_as db alloc v o).0
  stored_as-NetInv v (err e) q f h = record {
    regions = regions-kept;
    vnis = λ n. pool-grows db.alloc alloc r vni n _ took (inv.vnis n);
    apart = inv.apart;
  }
  stored_as-NetInv v (ok t) q f h =
      let c = created-ok db.vpcs t v h in
      record {
        regions = regions-kept;
        vnis = λ n.
            pool-covers db.alloc alloc r vni n (count_values (uses n) db.vpcs)
              (count_values (uses n) t) took (inv.vnis n) (rw (c.1, ← q) (added n));
        apart = rw (c.1) (insert-apart v.id v db.vpcs c.0 (overlap-free db.vpcs v f) inv.apart);
      }
    where
      added :
          (n : ℕ)
          → count_values (uses n) (insert v.id v db.vpcs)
            ≤ count_values (uses n) db.vpcs + bool_nat (v.vni == n)
      added n = ground (arith, count_values-insert_any (uses n) v.id v db.vpcs)
