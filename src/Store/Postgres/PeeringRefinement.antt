-- ===== src/Store/Postgres/PeeringRefinement.antt =====
-- PostgresPeeringStore of internal/store/postgres.go beside MemoryPeeringStore of
-- internal/store/memory.go: the statements that write.
pub mod Runs
pub mod Reads
pub mod Pages
pub mod Erasure
use vpc_routing.Prelude.{
  ℕ, zero, suc, ◌≡◌, ◌≢◌, ◌⊎◌, refl, sym, ap, subst, ◌∙◌, arith, inl, inr, Bool, true, false, ◌&&◌,
  not, Option, none, some, String, List, [], ◌∷◌, ◌++◌, map, if◌then◌else◌, ◌==◌, ◌!=◌, nat_eq,
  nat_beq_iff, beq_refl, All, In, Result, ok, err, value, ok-inj, ◌>>=◌, Bool-cases, and_true,
}
use vpc_routing.Prelude.Maps.{lookup, insert, values}
use vpc_routing.Model.Entities.{
  Uuid, Time, Peering, PeeringState, state_eq, AppError, err_not_found,
}
use vpc_routing.Store.Peerings
use vpc_routing.Store.Peerings.{PeeringStore}
use vpc_routing.Store.Postgres.{
  PgError, app, other, Table, PgLib, IsTable, IsPgLib, column_option_time, holds_all, set_where,
  or_not_found,
}
use vpc_routing.Store.Postgres.Peerings.{
  PeeringRow, Row, row_of, stored, by_id, set_columns, mark_deleted, is_present, create, update,
  delete, done,
}
use vpc_routing.Store.Postgres.Tables.{count_by_positive, or_not_found-ok}
use vpc_routing.Store.Postgres.Tables.Agreement.{
  Agree, insert-Agree, update-Agree, row-found, row-held,
}

abbrev pub peering_key : Peering → Uuid
peering_key p = p.id

-- The row that the table holds of a peering.
unfoldable pub kept_row : (x : PgLib) → Peering → Row x
unfolding row_of
kept_row x p =
    stored x (record (row_of x p) { provisioned_at = p.provisioned_at; deleted_at = p.deleted_at })

pub kept_row-id : (x : PgLib) (p : Peering) → (kept_row x p).id ≡ p.id
unfolding kept_row row_of
kept_row-id x p = refl

-- The in-memory store and the table hold the same peerings.
abbrev pub SamePeerings : (x : PgLib) → PeeringStore → List (Row x) → Type 0
SamePeerings x m rs = Agree peering_key (kept_row x) m rs

-- What `Update` leaves alone, of a time what the column keeps of it.
pub record SameIdentity (x : PgLib) (old new : Peering) : Type 0 where
  pub account : old.account_id ≡ new.account_id
  pub requester : old.requester_vpc_id ≡ new.requester_vpc_id
  pub accepter : old.accepter_vpc_id ≡ new.accepter_vpc_id
  pub reach : old.cross_region ≡ new.cross_region
  pub birth : x.column_time old.created_at ≡ x.column_time new.created_at

module _ (x : PgLib) (law : IsPgLib x) (t : Table (Row x)) (rows : t.State → List (Row x))
    (h : IsTable t (λ r. r.id) (λ r. r.created_at) (stored x) rows) where
  pub create-Same :
      (m : PeeringStore) (s : t.State) (p : Peering)
      → p.provisioned_at ≡ none
      → p.deleted_at ≡ none
      → SamePeerings x m (rows s)
      → (create x t s p).1 ≡ ok tt
      → (Peerings.create m p ≡ ok (insert p.id p m))
        × SamePeerings x (insert p.id p m) (rows (create x t s p).0)
  unfolding create Peerings.create kept_row row_of
  create-Same m s p u d a q =
      let (absent, next) =
        insert-Agree peering_key (kept_row x) (λ r. r.id) p m (rows s) (kept_row-id x) a
          (h.inserted_new (row_of x p) s q) in
      (
        refl,
        subst (Agree peering_key (kept_row x) (insert p.id p m))
            (ap
                (λ at.
                  rows s
                  ++ stored x
                      (record (row_of x p) { provisioned_at = at; deleted_at = p.deleted_at })
                    ∷ [])
                u
              ∙ ap (λ at. rows s ++ stored x (record (row_of x p) { deleted_at = at }) ∷ []) d
              ∙ sym (h.inserted (row_of x p) s q))
            next,
      )

  -- The columns set on the row of the peering, and on no other row.
  columns : Peering → x.Json → Row x → Row x
  columns p j = set_where (λ r. stored x (set_columns x p j r)) (by_id x p.id).conditions

  columns_others :
      (p : Peering) (j : x.Json) (u : Peering)
      → u.id ≢ p.id
      → columns p j (kept_row x u) ≡ kept_row x u
  unfolding columns kept_row row_of
  columns_others p j u n = ground (arith, nat_beq_iff u.id p.id)

  columns_one :
      (p old : Peering) (j : x.Json)
      → old.id ≡ p.id
      → SameIdentity x old p
      → x.marshal p.route_policy ≡ ok j
      → columns p j (kept_row x old) ≡ kept_row x p
  unfolding columns kept_row row_of
  columns_one p old j k i e =
      rw (here k) (moved k i.account i.requester i.accepter i.reach i.birth e)
    where
      here : old.id ≡ p.id → holds_all (by_id x p.id).conditions (kept_row x old) ≡ true
      here g = ground (arith, g, nat_beq_iff old.id p.id)

      moved :
          old.id ≡ p.id
          → old.account_id ≡ p.account_id
          → old.requester_vpc_id ≡ p.requester_vpc_id
          → old.accepter_vpc_id ≡ p.accepter_vpc_id
          → old.cross_region ≡ p.cross_region
          → x.column_time old.created_at ≡ x.column_time p.created_at
          → x.marshal p.route_policy ≡ ok j
          → stored x (set_columns x p j (kept_row x old)) ≡ kept_row x p
      moved g1 g2 g3 g4 g5 g6 g7 =
          rw (g1, g2, g3, g4, g5, law.column_time_twice old.created_at, g6, g7) refl

  done-ok : (r : Result PgError ℕ) → done x r ≡ ok tt → (n : ℕ) × (r ≡ ok n)
  done-ok (ok n) q = (n, refl)
  done-ok (err e) q = cc

  pub update-Same :
      (m : PeeringStore) (s : t.State) (p old : Peering)
      → lookup p.id m ≡ some old
      → SameIdentity x old p
      → SamePeerings x m (rows s)
      → (update x t s p).1 ≡ ok tt
      → (Peerings.update m p ≡ ok (insert p.id p m))
        × SamePeerings x (insert p.id p m) (rows (update x t s p).0)
  unfolding update Peerings.update columns
  update-Same m s p old f i a q =
      let (j, e) = law.marshals p.route_policy in
      let k = (row-held peering_key (kept_row x) m (rows s) p.id old a f).1 in
      let (n, g) =
        done-ok (t.update (set_columns x p j) (by_id x p.id).conditions s).1
          (rw (update, e) at q) in
      (
        rw (Peerings.update, f) refl,
        rw (update, e)
            (subst (Agree peering_key (kept_row x) (insert p.id p m))
              (sym (h.updated (set_columns x p j) (by_id x p.id).conditions s n g))
              (update-Agree peering_key (kept_row x) (columns p j) p old m (rows s) a f
                (columns_others p j) (columns_one p old j k i e))),
      )

  marks : Uuid → Time → Row x → Row x
  marks id now =
      set_where (λ r. stored x (mark_deleted x now r)) ((λ r. r.id == id) ∷ is_present x ∷ [])

  marks_others :
      (id : Uuid) (now : Time) (u : Peering)
      → u.id ≢ id
      → marks id now (kept_row x u) ≡ kept_row x u
  unfolding marks kept_row row_of
  marks_others id now u n = ground (arith, nat_beq_iff u.id id)

  marks_one :
      (id : Uuid) (now : Time) (p : Peering)
      → holds_all ((λ r. r.id == id) ∷ is_present x ∷ []) (kept_row x p) ≡ true
      → marks id now (kept_row x p)
        ≡ kept_row x (record p { state = PeeringState.deleted; deleted_at = some now })
  unfolding marks kept_row row_of
  marks_one id now p e = rw e (moved p.provisioned_at refl)
    where
      moved :
          (at : Option Time)
          → p.provisioned_at ≡ at
          → stored x (mark_deleted x now (kept_row x p))
            ≡ kept_row x (record p { state = PeeringState.deleted; deleted_at = some now })
      moved none g = rw (g, law.column_time_twice p.created_at) refl
      moved (some u) g = rw (g, law.column_time_twice p.created_at, law.column_time_twice u) refl

  pub delete-Same :
      (m : PeeringStore) (s : t.State) (id : Uuid) (now : Time)
      → SamePeerings x m (rows s)
      → (delete x t s id now).1 ≡ ok tt
      → (m' : PeeringStore) × (Peerings.delete m id now ≡ ok m')
        × SamePeerings x m' (rows (delete x t s id now).0)
  unfolding delete Peerings.delete marks kept_row-id
  delete-Same m s id now a q =
      let cs = (λ r. r.id == id) ∷ is_present x ∷ [] in
      let (n, e) = or_not_found-ok (t.update (mark_deleted x now) cs s).1 q in
      let (r, i, c) =
        count_by_positive (holds_all cs) n (rows s)
          (h.affected (mark_deleted x now) cs s (suc n) e) in
      let (p, found, same) =
        row-found peering_key (kept_row x) (λ u. u.id) m (rows s) r (kept_row-id x) a i in
      let k : r.id ≡ id =
        (nat_beq_iff r.id id).0 (and_true (r.id == id) (is_present x r && true) c).0 in
      let here = ap (λ j. lookup j m) (sym k) ∙ found in
      let p_id = (row-held peering_key (kept_row x) m (rows s) id p a here).1 in
      let w = record p { state = PeeringState.deleted; deleted_at = some now } in
      (
        insert id w m,
        rw (Peerings.delete, here) refl,
        subst
            (λ j.
              Agree peering_key (kept_row x) (insert j w m)
                (rows (t.update (mark_deleted x now) cs s).0))
            p_id
            (subst (Agree peering_key (kept_row x) (insert p.id w m))
              (sym (h.updated (mark_deleted x now) cs s (suc n) e))
              (update-Agree peering_key (kept_row x) (marks id now) w p m (rows s) a
                (ap (λ j. lookup j m) p_id ∙ here)
                (λ u d. marks_others id now u (λ g. d (g ∙ sym p_id)))
                (marks_one id now p (ap (holds_all cs) (sym same) ∙ c)))),
      )
