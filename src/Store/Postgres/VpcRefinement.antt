-- ===== src/Store/Postgres/VpcRefinement.antt =====
-- PostgresVPCStore of internal/store/postgres.go beside MemoryVPCStore of internal/store/memory.go.
pub mod Reads
pub mod Runs
pub mod Pages
use vpc_routing.Prelude.{
  ℕ, zero, suc, ◌≡◌, ◌≢◌, refl, sym, ap, subst, ◌∙◌, arith, inl, inr, Bool, true, false, ◌&&◌, not,
  Option, none, some, String, List, [], ◌∷◌, ◌++◌, map, if◌then◌else◌, ◌==◌, ◌!=◌, nat_eq,
  nat_beq_iff, string_eq, All, In, any, any_intro, first, Result, ok, err, ◌>>=◌, Bool-cases,
  Option-cases, true-ne-false, some-ne-none, and_true,
}
use vpc_routing.Prelude.Maps.{lookup, insert, values}
use vpc_routing.Model.Netip.{Prefix, IsPrefix}
use vpc_routing.Model.Entities.{
  Uuid, Time, Vpc, VpcState, is_deleted, AppError, err_not_found, err_conflict,
}
use vpc_routing.Store.Vpcs
use vpc_routing.Store.Vpcs.{VpcStore, has_name}
use vpc_routing.Store.Postgres.{
  PgError, app, other, RowError, no_rows, scan_failed, Table, PgLib, IsTable, IsPgLib,
  column_option_time, holds_all, set_where, or_not_found, read_block,
}
use vpc_routing.Store.Postgres.Vpcs.{
  VpcRow, row_of, stored, scan_vpc, by_id, mark_deleted, create, get, delete, find_by_name,
}
use vpc_routing.Store.Postgres.Tables.{count_by_positive, or_not_found-ok}
use vpc_routing.Store.Postgres.Tables.Agreement.{
  Agree, insert-Agree, update-Agree, row-found, row-held,
}

abbrev pub vpc_key : Vpc → Uuid
vpc_key v = v.id

-- The row that the table holds of a VPC.
unfoldable pub kept_row : PgLib → Vpc → VpcRow
unfolding row_of
kept_row x v = stored x (record (row_of x v) { deleted_at = v.deleted_at })

-- The VPC as it is read back: its times rounded and its blocks from their text.
unfoldable pub kept : PgLib → Vpc → Vpc
unfolding kept_row scan_vpc
kept x v = scan_vpc x (kept_row x v)

-- What is read back of a VPC with valid blocks: its times are rounded, and the count of its peerings
-- is not stored.
abbrev pub rounded : PgLib → Vpc → Vpc
rounded x v = record v {
  peering_count = 0;
  created_at = x.column_time v.created_at;
  deleted_at = column_option_time x.column_time v.deleted_at;
}

pub kept_lem :
    (x : PgLib) → IsPgLib x → (v : Vpc) → All IsPrefix v.cidr_blocks → kept x v ≡ rounded x v
unfolding kept kept_row scan_vpc row_of
kept_lem x law v a =
    ap (λ blocks. record (rounded x v) { cidr_blocks = blocks }) (blocks_back v.cidr_blocks a)
  where
    block_back : (p : Prefix) → IsPrefix p → read_block x (x.prefix_text p) ≡ p
    block_back p v = rw (read_block, law.parse-text p v) refl

    blocks_back :
        (ps : List Prefix) → All IsPrefix ps → map (read_block x) (map x.prefix_text ps) ≡ ps
    blocks_back [] b = refl
    blocks_back (p ∷ ps) b =
        ap (λ q. q ∷ map (read_block x) (map x.prefix_text ps)) (block_back p b.0)
        ∙ ap (λ qs. p ∷ qs) (blocks_back ps b.1)

pub kept_row-id : (x : PgLib) (v : Vpc) → (kept_row x v).id ≡ v.id
unfolding kept_row row_of
kept_row-id x v = refl

-- The in-memory store and the table hold the same VPCs.
abbrev pub SameVpcs : PgLib → VpcStore → List VpcRow → Type 0
SameVpcs x m rs = Agree vpc_key (kept_row x) m rs

-- What one answer says of the other: of a success, that the in-memory store gives the same value; of
-- an error of the API, that it gives the same error; and nothing of an error of the database.
module _ {A B : Type 0} where
  abbrev pub SameAnswer : (A → B) → Result AppError A → Result PgError B → Type 0
  SameAnswer f m (ok b) = (a : A) × (m ≡ ok a) × (b ≡ f a)
  SameAnswer f m (err (app e)) = m ≡ err e
  SameAnswer f m (err other) = Unit

module _ (x : PgLib) (law : IsPgLib x) (t : Table VpcRow) (rows : t.State → List VpcRow)
    (h : IsTable t (λ r. r.id) (λ r. r.created_at) (stored x) rows) where
  pub create-Same :
      (m : VpcStore) (s : t.State) (v : Vpc)
      → v.deleted_at ≡ none
      → SameVpcs x m (rows s)
      → (create x t s v).1 ≡ ok tt
      → (Vpcs.create m v ≡ ok (insert v.id v m))
        × SameVpcs x (insert v.id v m) (rows (create x t s v).0)
  unfolding create Vpcs.create kept_row row_of
  create-Same m s v d a q =
      let (absent, next) =
        insert-Agree vpc_key (kept_row x) (λ r. r.id) v m (rows s) (kept_row-id x) a
          (h.inserted_new (row_of x v) s q) in
      (
        rw (Vpcs.create, absent) refl,
        subst (Agree vpc_key (kept_row x) (insert v.id v m))
            (ap (λ at. rows s ++ stored x (record (row_of x v) { deleted_at = at }) ∷ []) d
              ∙ sym (h.inserted (row_of x v) s q))
            next,
      )

  marks : Uuid → Time → VpcRow → VpcRow
  marks id now = set_where (λ r. stored x (mark_deleted now r)) (by_id id).conditions

  marks_others :
      (id : Uuid) (now : Time) (u : Vpc) → u.id ≢ id → marks id now (kept_row x u) ≡ kept_row x u
  unfolding marks kept_row row_of
  marks_others id now u n = ground (arith, nat_beq_iff u.id id)

  marks_one :
      (id : Uuid) (now : Time) (v : Vpc)
      → holds_all (by_id id).conditions (kept_row x v) ≡ true
      → marks id now (kept_row x v)
        ≡ kept_row x (record v { state = VpcState.deleted; deleted_at = some now })
  unfolding marks kept_row row_of
  marks_one id now v e = rw e (
      ap
        (λ at. record (kept_row x v) {
          state = VpcState.deleted;
          created_at = at;
          deleted_at = some (x.column_time now);
        })
        (law.column_time_twice v.created_at))

  pub delete-Same :
      (m : VpcStore) (s : t.State) (id : Uuid) (now : Time)
      → SameVpcs x m (rows s)
      → (delete x t s id now).1 ≡ ok tt
      → (m' : VpcStore) × (Vpcs.delete m id now ≡ ok m')
        × SameVpcs x m' (rows (delete x t s id now).0)
  unfolding delete Vpcs.delete marks
  delete-Same m s id now a q =
      let (n, e) = or_not_found-ok (t.update (mark_deleted now) (by_id id).conditions s).1 q in
      let (r, i, c) =
        count_by_positive (holds_all (by_id id).conditions) n (rows s)
          (h.affected (mark_deleted now) (by_id id).conditions s (suc n) e) in
      let (v, found, same) =
        row-found vpc_key (kept_row x) (λ u. u.id) m (rows s) r (kept_row-id x) a i in
      let k : r.id ≡ id =
        (nat_beq_iff r.id id).0 (and_true (r.id == id) (not (is_deleted r.state) && true) c).0 in
      let here = ap (λ j. lookup j m) (sym k) ∙ found in
      let v_id = (row-held vpc_key (kept_row x) m (rows s) id v a here).1 in
      let w = record v { state = VpcState.deleted; deleted_at = some now } in
      (
        insert id w m,
        rw (Vpcs.delete, here) refl,
        subst
            (λ j.
              Agree vpc_key (kept_row x) (insert j w m)
                (rows (t.update (mark_deleted now) (by_id id).conditions s).0))
            v_id
            (subst (Agree vpc_key (kept_row x) (insert v.id w m))
              (sym (h.updated (mark_deleted now) (by_id id).conditions s (suc n) e))
              (update-Agree vpc_key (kept_row x) (marks id now) w v m (rows s) a
                (ap (λ j. lookup j m) v_id ∙ here)
                (λ u d. marks_others id now u (λ g. d (g ∙ sym v_id)))
                (marks_one id now v (ap (holds_all (by_id id).conditions) (sym same) ∙ c)))),
      )
