-- ===== src/Store/Postgres/VpcRefinement/Pages.antt =====
-- `List` and `FindOverlappingCIDR` of PostgresVPCStore of internal/store/postgres.go, beside
-- MemoryVPCStore.
use vpc_routing.Prelude.{
  In-map, In-map_elim, length-map, ◌≤◌, ◌≡◌, ◌⊎◌, refl, sym, ap, subst, ◌∙◌, arith, inl, inr, Bool,
  true, ◌||◌, not, Option, none, some, String, List, [], ◌∷◌, map, ◌==◌, ◌!=◌, nat_eq, string_eq,
  length, keep, any_intro, first, first-some, first-none, first-In, and_true, true-ne-false,
  Option-cases, All, All-In, In, In-keep, Bool-cases, Result, ok, err, ok-inj, >>=-eq-ok, pos,
}
use vpc_routing.Prelude.Maps.{values}
use vpc_routing.Model.Netip.{Prefix, IsPrefix}
use vpc_routing.Model.Cidr.{cidrs_overlap}
use vpc_routing.Model.Entities.{Uuid, Vpc, is_deleted}
use vpc_routing.Store.Page.{ListParams, ListResult}
use vpc_routing.Store.Vpcs
use vpc_routing.Store.Vpcs.{VpcStore, is_listed, is_overlapping}
use vpc_routing.Store.Postgres.{
  PgError, Table, PgLib, IsPgLib, IsTable, IsReliable, read_all, holds_all,
}
use vpc_routing.Store.Postgres.Vpcs.{
  VpcRow, stored, row_of, scan_vpc, scan_listed, list_query, list, page_limit,
  find_overlapping_cidr,
}
use vpc_routing.Store.Postgres.Selections.{IsCut, selection-IsCut, read_all-IsSelection}
use vpc_routing.Store.Postgres.Tables.Agreement.{keep-Agree}
use vpc_routing.Store.Postgres.VpcRefinement.{SameVpcs, vpc_key, kept_row, kept, kept_lem}

-- A VPC as `List` reads it back: the time of its deletion is not selected.
unfoldable pub kept_listed : PgLib → Vpc → Vpc
unfolding kept kept_row scan_listed scan_vpc row_of
kept_listed x v = record (kept x v) { deleted_at = none }

map-map :
    {A B C : Type 0} (f : B → C) (g : A → B) (xs : List A)
    → map f (map g xs) ≡ map (λ a. f (g a)) xs
map-map f g [] = refl
map-map f g (a ∷ xs) = ap (λ ys. f (g a) ∷ ys) (map-map f g xs)

Result-cases :
    {A : Type 0} (r : Result PgError A) → ((a : A) × (r ≡ ok a)) ⊎ ((d : PgError) × (r ≡ err d))
Result-cases (ok a) = inl (a, refl)
Result-cases (err d) = inr (d, refl)

-- What `FindOverlappingCIDR` of PostgreSQL answers beside a map: nothing where the in-memory store
-- finds nothing; a VPC of the map that overlaps, as it is read back; or an error.
abbrev pub OverlapAnswer :
    PgLib → VpcStore → Uuid → List Prefix → Result PgError (Option Vpc) → Type 0
OverlapAnswer x m account_id cidrs (ok none) =
    Vpcs.find_overlapping_cidr m account_id cidrs ≡ ok none
OverlapAnswer x m account_id cidrs (ok (some v)) =
    (u : Vpc) × In u (values m) × (is_overlapping account_id cidrs u ≡ true) × (v ≡ kept_listed x u)
OverlapAnswer x m account_id cidrs (err e) = Unit

module _ (x : PgLib) (t : Table VpcRow) (rows : t.State → List VpcRow)
    (h : IsTable t (λ r. r.id) (λ r. r.created_at) (stored x) rows) (whole : IsReliable t) where
  meets_list :
      (account_id : Uuid) (region_id : String) (params : ListParams) (v : Vpc)
      → holds_all (list_query account_id region_id params).conditions (kept_row x v)
        ≡ is_listed account_id region_id v
  unfolding kept_row row_of
  meets_list account_id region_id params v = elim (Bool-cases (region_id == "")) [
    | inl e ↦ rw e ground arith
    | inr e ↦ rw e ground arith
  ]

  -- `List` of PostgreSQL answers, where no reading of rows ends early, with a page of what the
  -- in-memory store with the same VPCs selects, each as it is read back: the newest first, and
  -- no more than the page size in force, which is at most 1000.
  pub list-IsCut :
      (m : VpcStore) (s : t.State) (account_id : Uuid) (region_id : String) (params : ListParams)
      (r : ListResult Vpc)
      → SameVpcs x m (rows s)
      → list x t s account_id region_id params ≡ ok r
      → IsCut
          (λ v. v.created_at)
          (page_limit params.page_size)
          (map (kept_listed x) (keep (is_listed account_id region_id) (values m)))
          r
  unfolding list kept_listed scan_listed kept scan_vpc
  list-IsCut m s account_id region_id params r a q =
      let query = list_query account_id region_id params in
      let (answer, e, d) =
        >>=-eq-ok (read_all t query s)
          (λ rs. ok (record { items = map (scan_listed x) rs; total_count = length rs })) q in
      let cut =
        selection-IsCut (scan_listed x) (λ v. v.created_at) query (page_limit params.page_size)
          (rows s) answer refl refl
          (read_all-IsSelection t (λ w. w.id) (λ w. w.created_at) (stored x) rows h whole query s
            answer e) in
      subst
        (IsCut (λ v. v.created_at) (page_limit params.page_size)
          (map (kept_listed x) (keep (is_listed account_id region_id) (values m))))
        (ok-inj d)
        (subst
          (λ ms.
            IsCut (λ v. v.created_at) (page_limit params.page_size) ms
              (record { items = map (scan_listed x) answer; total_count = length answer }))
          (ap (map (scan_listed x)) (
              keep-Agree vpc_key (kept_row x) m (rows s) (is_listed account_id region_id)
                (holds_all query.conditions) (meets_list account_id region_id params) a)
            ∙ map-map (scan_listed x) (kept_row x)
                (keep (is_listed account_id region_id) (values m)))
          cut)

  abbrev every_vpc : ListParams
  every_vpc = record { page_size = pos 1000; page_token = "" }

  -- Blocks that are valid are read back.
  same_blocks :
      (law : IsPgLib x) (v : Vpc)
      → All IsPrefix v.cidr_blocks
      → (kept_listed x v).cidr_blocks ≡ v.cidr_blocks
  unfolding kept_listed
  same_blocks law v b = ap (λ u. u.cidr_blocks) (kept_lem x law v b)

  found_overlap :
      (law : IsPgLib x) (m : VpcStore) (account_id : Uuid) (cidrs : List Prefix)
      (r : ListResult Vpc)
      → All (λ v. All IsPrefix v.cidr_blocks) (values m)
      → length (keep (is_listed account_id "") (values m)) ≤ 1000
      → IsCut
          (λ v. v.created_at)
          1000
          (map (kept_listed x) (keep (is_listed account_id "") (values m)))
          r
      → (o : Option Vpc) → first (λ v. cidrs_overlap v.cidr_blocks cidrs) r.items ≡ o
      → OverlapAnswer x m account_id cidrs (ok o)
  unfolding Vpcs.find_overlapping_cidr
  found_overlap law m account_id cidrs r b few cut (some v) q =
      let i = cut.among v (first-In overlaps r.items v q) in
      let (u, j, e) = In-map_elim (kept_listed x) v (keep (is_listed account_id "") (values m)) i in
      let (k, c) = (In-keep (is_listed account_id "") (values m) u).0 j in
      let same =
        ap (λ w. w.cidr_blocks) e
        ∙ same_blocks law u (All-In (λ w. All IsPrefix w.cidr_blocks) (values m) u b k) in
      let o =
        ap (λ blocks. cidrs_overlap blocks cidrs) (sym same) ∙ first-some overlaps r.items v q in
      (u, k, ground (arith, o, c), e)
    where
      overlaps : Vpc → Bool
      overlaps w = cidrs_overlap w.cidr_blocks cidrs
  found_overlap law m account_id cidrs r b few cut none q =
      elim (Option-cases (first (is_overlapping account_id cidrs) (values m))) [
        | inl e ↦ ap ok e
        | inr (u, e) ↦
            (let k = first-In (is_overlapping account_id cidrs) (values m) u e in
              let c = first-some (is_overlapping account_id cidrs) (values m) u e in
              let j = (In-keep (is_listed account_id "") (values m) u).1 (k, ground (arith, c)) in
              let i =
                cut.complete (kept_listed x u)
                  (omega (
                    arith,
                    few,
                    length-map (kept_listed x) (keep (is_listed account_id "") (values m)),
                  ))
                  (In-map (kept_listed x) u (keep (is_listed account_id "") (values m)) j) in
              let o =
                ap (λ blocks. cidrs_overlap blocks cidrs)
                  (same_blocks law u (All-In (λ w. All IsPrefix w.cidr_blocks) (values m) u b k))
                ∙ (and_true (not (u.account_id != account_id || is_deleted u.state))
                    (cidrs_overlap u.cidr_blocks cidrs) c).1 in
              absurd (
                true-ne-false (
                  sym (any_intro overlaps r.items (kept_listed x u) i o)
                  ∙ first-none overlaps r.items q)))
      ]
    where
      overlaps : Vpc → Bool
      overlaps w = cidrs_overlap w.cidr_blocks cidrs

  -- Where the account has at most 1000 VPCs, every VPC valid blocks, and no reading of rows ends
  -- early, `FindOverlappingCIDR` of PostgreSQL finds nothing only where the in-memory store with
  -- the same VPCs finds nothing, and otherwise one of its VPCs that overlaps, as it is read
  -- back, or ends in an error.
  pub find_overlapping_cidr-OverlapAnswer :
      (law : IsPgLib x) (m : VpcStore) (s : t.State) (account_id : Uuid) (cidrs : List Prefix)
      → SameVpcs x m (rows s)
      → All (λ v. All IsPrefix v.cidr_blocks) (values m)
      → length (keep (is_listed account_id "") (values m)) ≤ 1000
      → OverlapAnswer x m account_id cidrs (find_overlapping_cidr x t s account_id cidrs)
  unfolding find_overlapping_cidr
  find_overlapping_cidr-OverlapAnswer law m s account_id cidrs a b few =
      elim (Result-cases (list x t s account_id "" every_vpc)) [
        | inl (r, e) ↦
            rw (find_overlapping_cidr, e)
              (found_overlap law m account_id cidrs r b few
                (list-IsCut m s account_id "" every_vpc r a e)
                (first (λ v. cidrs_overlap v.cidr_blocks cidrs) r.items) refl)
        | inr (d, e) ↦ rw (find_overlapping_cidr, e) tt
      ]
