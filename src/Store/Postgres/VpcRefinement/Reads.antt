-- ===== src/Store/Postgres/VpcRefinement/Reads.antt =====
-- What PostgresVPCStore of internal/store/postgres.go answers beside MemoryVPCStore: `Get` and
-- `FindByName`, with no other statement between the two that `FindByName` sends.
use vpc_routing.Prelude.{
  ◌≡◌, ◌⊎◌, refl, sym, ap, ◌∙◌, arith, inl, inr, Bool, true, false, ◌&&◌, not, Option, none, some,
  String, List, [], ◌∷◌, ◌==◌, nat_eq, nat_beq_iff, string_eq, In, any, any_intro, first, Result,
  ok, err, ok-inj, ◌>>=◌, Option-cases, Bool-cases, true-ne-false, and_true, if◌then◌else◌,
}
use vpc_routing.Prelude.Maps.{lookup, values}
use vpc_routing.Model.Entities.{Uuid, Vpc, is_deleted, err_not_found}
use vpc_routing.Store.Vpcs
use vpc_routing.Store.Vpcs.{VpcStore, has_name}
use vpc_routing.Store.Postgres.{
  PgError, app, other, RowError, no_rows, scan_failed, Table, PgLib, IsTable, holds_all,
}
use vpc_routing.Store.Postgres.Vpcs.{
  VpcRow, stored, scan_vpc, row_of, by_id, by_name, get, find_by_name,
}
use vpc_routing.Store.Postgres.Tables.Agreement.{row-found, row-held, any-Agree}
use vpc_routing.Store.Postgres.VpcRefinement.{
  SameVpcs, vpc_key, kept_row, kept_row-id, kept, SameAnswer,
}

-- To split on what a single row reports.
pub Row-cases :
    {A : Type 0} (r : Result RowError A)
    → ((a : A) × (r ≡ ok a)) ⊎ ((r ≡ err no_rows) ⊎ (r ≡ err scan_failed))
Row-cases (ok a) = inl (a, refl)
Row-cases (err no_rows) = inr (inl refl)
Row-cases (err scan_failed) = inr (inr refl)

pub first-absent : {A : Type 0} (p : A → Bool) (xs : List A) → any p xs ≡ false → first p xs ≡ none
first-absent p [] h = refl
first-absent p (x ∷ xs) h = ground (arith, first-absent p xs)

-- What `FindByName` of PostgreSQL answers beside a map: nothing where the in-memory store finds
-- nothing; an entry of the map with that name, as it is read back; or an error of the database.
abbrev pub NamedAnswer :
    PgLib → VpcStore → Uuid → String → String → Result PgError (Option Vpc) → Type 0
NamedAnswer x m account_id region_id name (ok none) =
    Vpcs.find_by_name m account_id region_id name ≡ ok none
NamedAnswer x m account_id region_id name (ok (some v)) =
    (u : Vpc) × (lookup u.id m ≡ some u)
    × (has_name account_id region_id name u ≡ true)
    × (v ≡ kept x u)
NamedAnswer x m account_id region_id name (err (app e)) = ⊥
NamedAnswer x m account_id region_id name (err other) = Unit

module _ (x : PgLib) (t : Table VpcRow) (rows : t.State → List VpcRow)
    (h : IsTable t (λ r. r.id) (λ r. r.created_at) (stored x) rows) where
  meets_id :
      (id : Uuid) (v : Vpc)
      → holds_all (by_id id).conditions (kept_row x v)
        ≡ (v.id == id && (not (is_deleted v.state) && true))
  unfolding kept_row row_of
  meets_id id v = refl

  found_by_id :
      (m : VpcStore) (s : t.State) (id : Uuid) (r : VpcRow)
      → SameVpcs x m (rows s)
      → t.query_row (by_id id) s ≡ ok r
      → (v : Vpc) × (Vpcs.get m id ≡ ok v) × (r ≡ kept_row x v)
  unfolding kept_row row_of Vpcs.get kept_row-id
  found_by_id m s id r a q =
      let (i, c) = h.found (by_id id) s r q in
      let (v, found, same) =
        row-found vpc_key (kept_row x) (λ u. u.id) m (rows s) r (kept_row-id x) a i in
      let (k, live) = and_true (r.id == id) (not (is_deleted r.state) && true) c in
      let here = ap (λ j. lookup j m) (sym ((nat_beq_iff r.id id).0 k)) ∙ found in
      (
        v,
        rw (Vpcs.get, here)
            (answered v (ap (λ u. not (is_deleted u.state) && true) (sym same) ∙ live)),
        same,
      )
    where
      answered :
          (v : Vpc)
          → (not (is_deleted (kept_row x v).state) && true) ≡ true
          → (if is_deleted v.state then err err_not_found else ok v) ≡ ok v
      answered v live = ground arith

  missing_by_id :
      (m : VpcStore) (s : t.State) (id : Uuid)
      → SameVpcs x m (rows s)
      → t.query_row (by_id id) s ≡ err no_rows
      → Vpcs.get m id ≡ err err_not_found
  unfolding kept_row row_of Vpcs.get
  missing_by_id m s id a q = elim (Option-cases (lookup id m)) [
    | inl e ↦ rw (Vpcs.get, e) refl
    | inr (v, e) ↦
        (let (i, k) = row-held vpc_key (kept_row x) m (rows s) id v a e in
          rw (Vpcs.get, e)
            (gone v k (Bool-cases (holds_all (by_id id).conditions (kept_row x v))) i))
  ]
    where
      gone :
          (v : Vpc)
          → v.id ≡ id
          → (holds_all (by_id id).conditions (kept_row x v) ≡ true)
            ⊎ (holds_all (by_id id).conditions (kept_row x v) ≡ false)
          → In (kept_row x v) (rows s)
          → (if is_deleted v.state then err err_not_found else ok v) ≡ err err_not_found
      gone v k (inl c) i = absurd (
          true-ne-false (
            sym (any_intro (holds_all (by_id id).conditions) (rows s) (kept_row x v) i c)
            ∙ h.missing (by_id id) s q))
      gone v k (inr c) i = ground (arith, nat_beq_iff v.id id, k)

  -- PostgreSQL and the in-memory store that holds the same VPCs answer `Get` alike: the VPC as it is
  -- read back, or that there is none.
  pub get-SameAnswer :
      (m : VpcStore) (s : t.State) (id : Uuid)
      → SameVpcs x m (rows s)
      → SameAnswer (kept x) (Vpcs.get m id) (get x t s id)
  unfolding kept get
  get-SameAnswer m s id a = elim (Row-cases (t.query_row (by_id id) s)) [
    | inl (r, q) ↦
        rw (get, q) (let (v, g, e) = found_by_id m s id r a q in (v, g, ap (scan_vpc x) e))
    | inr (inl q) ↦ rw (get, q) (missing_by_id m s id a q)
    | inr (inr q) ↦ rw (get, q) tt
  ]

  meets_name :
      (account_id : Uuid) (region_id name : String) (v : Vpc)
      → holds_all (by_name account_id region_id name).conditions (kept_row x v)
        ≡ has_name account_id region_id name v
  unfolding kept_row row_of
  meets_name account_id region_id name v = ground arith

  get-named :
      (m : VpcStore) (account_id : Uuid) (region_id name : String) (u : Vpc)
      → lookup u.id m ≡ some u
      → has_name account_id region_id name u ≡ true
      → Vpcs.get m u.id ≡ ok u
  unfolding Vpcs.get
  get-named m account_id region_id name u q c = rw (Vpcs.get, q) ground arith

  named_by_get :
      (m : VpcStore) (account_id : Uuid) (region_id name : String) (u : Vpc)
      (g : Result PgError Vpc)
      → lookup u.id m ≡ some u
      → has_name account_id region_id name u ≡ true
      → SameAnswer (kept x) (Vpcs.get m u.id) g
      → NamedAnswer x m account_id region_id name (g >>= λ v. ok (some v))
  named_by_get m account_id region_id name u (ok v) q c (w, e, d) =
      (u, q, c, d ∙ ap (kept x) (ok-inj (sym e ∙ get-named m account_id region_id name u q c)))
  named_by_get m account_id region_id name u (err (app e)) q c s =
      ok-ne-err (sym (get-named m account_id region_id name u q c) ∙ s)
    where
      ok-ne-err : ok u ≡ err e → ⊥
      ok-ne-err h = cc
  named_by_get m account_id region_id name u (err other) q c s = tt

  -- `FindByName` of PostgreSQL finds nothing where the in-memory store with the same VPCs finds
  -- nothing, and otherwise one of its VPCs with that name, as it is read back; it reports no error of
  -- the API.
  pub find_by_name-NamedAnswer :
      (m : VpcStore) (s : t.State) (account_id : Uuid) (region_id name : String)
      → SameVpcs x m (rows s)
      → NamedAnswer x m account_id region_id name (find_by_name x t s account_id region_id name)
  unfolding find_by_name Vpcs.find_by_name kept_row-id
  find_by_name-NamedAnswer m s account_id region_id name a =
      elim (Row-cases (t.query_row (by_name account_id region_id name) s)) [
        | inl (r, q) ↦
            (let (i, c) = h.found (by_name account_id region_id name) s r q in
              let (u, found, same) =
                row-found vpc_key (kept_row x) (λ w. w.id) m (rows s) r (kept_row-id x) a i in
              let k : r.id ≡ u.id = ap (λ w. w.id) same ∙ kept_row-id x u in
              rw (find_by_name, q, k)
                (named_by_get m account_id region_id name u (get x t s u.id)
                  (ap (λ j. lookup j m) (sym k) ∙ found)
                  (sym (meets_name account_id region_id name u)
                    ∙ ap (holds_all (by_name account_id region_id name).conditions) (sym same)
                    ∙ c)
                  (get-SameAnswer m s u.id a)))
        | inr (inl q) ↦
            rw (find_by_name, q)
              (ap ok (
                first-absent (has_name account_id region_id name) (values m) (
                  sym (
                    any-Agree vpc_key (kept_row x) m (rows s) (has_name account_id region_id name)
                      (holds_all (by_name account_id region_id name).conditions)
                      (meets_name account_id region_id name) a)
                  ∙ h.missing (by_name account_id region_id name) s q)))
        | inr (inr q) ↦ rw (find_by_name, q) tt
      ]
