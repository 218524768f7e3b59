-- ===== src/Store/Postgres/VpcRefinement/Runs.antt =====
-- Sequences of creations and deletions on PostgresVPCStore of internal/store/postgres.go and on
-- MemoryVPCStore of internal/store/memory.go.
use vpc_routing.Prelude.{
  ◌≡◌, ◌⊎◌, inl, inr, ok-inj, refl, sym, ap, subst, ◌∙◌, none, List, [], ◌∷◌, All, Result, ok, err,
  ◌>>=◌, false, nat_eq,
}
use vpc_routing.Prelude.Maps.{insert, lookup-insert_self}
use vpc_routing.Model.Netip.{IsPrefix}
use vpc_routing.Model.Entities.{Uuid, Time, Vpc, is_deleted, AppError}
use vpc_routing.Store.Vpcs
use vpc_routing.Store.Vpcs.{VpcStore}
use vpc_routing.Store.Postgres.{PgError, app, other, Table, PgLib, IsTable, IsPgLib}
use vpc_routing.Store.Postgres.Vpcs.{VpcRow, stored, create, get, delete}
use vpc_routing.Store.Postgres.VpcRefinement.{
  SameVpcs, create-Same, delete-Same, kept, kept_lem, rounded, SameAnswer,
}
use vpc_routing.Store.Postgres.VpcRefinement.Reads.{get-SameAnswer}

-- A write of the API.
pub data Write : Type 0 where
  created : Vpc → Write
  removed : Uuid → Time → Write

-- The API creates a VPC with no time of deletion.
abbrev pub IsWrite : Write → Type 0
IsWrite (created v) = v.deleted_at ≡ none
IsWrite (removed id now) = Unit

abbrev pub write : VpcStore → Write → Result AppError VpcStore
write m (created v) = Vpcs.create m v
write m (removed id now) = Vpcs.delete m id now

unfoldable pub run : VpcStore → List Write → Result AppError VpcStore
run m [] = ok m
run m (w ∷ ws) = write m w >>= λ m'. run m' ws

module _ (x : PgLib) (t : Table VpcRow) where
  open t use {State}

  abbrev pub pg_write : State → Write → State × Result PgError (Unit {0})
  pg_write s (created v) = create x t s v
  pg_write s (removed id now) = delete x t s id now

  -- The state in which every write succeeds, or the first error.
  unfoldable pub pg_run : State → List Write → Result PgError State
  pg_run s [] = ok s
  pg_run s (w ∷ ws) = elim (pg_write s w).1 [ ok u ↦ pg_run (pg_write s w).0 ws | err e ↦ err e ]

module _ (x : PgLib) (law : IsPgLib x) (t : Table VpcRow) (rows : t.State → List VpcRow)
    (h : IsTable t (λ r. r.id) (λ r. r.created_at) (stored x) rows) where
  write-Same :
      (m : VpcStore) (s : t.State) (w : Write)
      → IsWrite w
      → SameVpcs x m (rows s)
      → (pg_write x t s w).1 ≡ ok tt
      → (m' : VpcStore) × (write m w ≡ ok m') × SameVpcs x m' (rows (pg_write x t s w).0)
  write-Same m s (created v) d a q =
      let (e, b) = create-Same x law t rows h m s v d a q in (insert v.id v m, e, b)
  write-Same m s (removed id now) d a q = delete-Same x law t rows h m s id now a q

  Unit-cases : (r : Result PgError (Unit {0})) → (r ≡ ok tt) ⊎ ((e : PgError) × (r ≡ err e))
  Unit-cases (ok tt) = inl refl
  Unit-cases (err e) = inr (e, refl)

  -- A sequence of creations and deletions that PostgreSQL performs is one that the in-memory
  -- store performs, and the two, which held the same VPCs before it, hold the same VPCs after
  -- it, where every VPC is created with no time of deletion.
  pub pg_run-Same :
      (m : VpcStore) (s s' : t.State) (ws : List Write)
      → All IsWrite ws
      → SameVpcs x m (rows s)
      → pg_run x t s ws ≡ ok s'
      → (m' : VpcStore) × (run m ws ≡ ok m') × SameVpcs x m' (rows s')
  unfolding pg_run run
  pg_run-Same m s s' [] i a q = (m, refl, subst (λ u. SameVpcs x m (rows u)) (ok-inj q) a)
  pg_run-Same m s s' (w ∷ ws) i a q = elim (Unit-cases (pg_write x t s w).1) [
    | inl e ↦
        (let (m1, e1, a1) = write-Same m s w i.0 a e in
          let (m2, e2, a2) =
            pg_run-Same m1 (pg_write x t s w).0 s' ws i.1 a1 (rw (pg_run, e) at q) in
          (m2, rw (run, e1) e2, a2))
    | inr (d, e) ↦ absurd (err-ne-ok d (rw (pg_run, e) at q))
  ]
    where
      err-ne-ok : (d : PgError) → err d ≡ ok s' → ⊥
      err-ne-ok d r = cc

  -- A VPC that is not deleted and has valid blocks, once PostgreSQL has created it beside the
  -- VPCs of an in-memory store, is what `Get` reads back, with its times rounded to those of the
  -- column and its count of peerings 0; the only other answer is an error of the database.
  pub get-create :
      (m : VpcStore) (s : t.State) (v : Vpc)
      → v.deleted_at ≡ none
      → is_deleted v.state ≡ false
      → All IsPrefix v.cidr_blocks
      → SameVpcs x m (rows s)
      → (create x t s v).1 ≡ ok tt
      → (get x t (create x t s v).0 v.id ≡ ok (rounded x v))
        ⊎ (get x t (create x t s v).0 v.id ≡ err other)
  unfolding Vpcs.get
  get-create m s v d l b a q =
      let after = (create x t s v).0 in
      answered (get x t after v.id) (
        get-SameAnswer x t rows h (insert v.id v m) after v.id
          (create-Same x law t rows h m s v d a q).1)
    where
      got : Vpcs.get (insert v.id v m) v.id ≡ ok v
      got = rw (Vpcs.get, lookup-insert_self v.id v m, l) refl

      answered :
          (g : Result PgError Vpc)
          → SameAnswer (kept x) (Vpcs.get (insert v.id v m) v.id) g
          → (g ≡ ok (rounded x v)) ⊎ (g ≡ err other)
      answered (ok u) (w, e, k) =
          inl (ap ok (k ∙ ap (kept x) (ok-inj (sym e ∙ got)) ∙ kept_lem x law v b))
      answered (err (app e)) k = absurd (ok-ne-err (sym got ∙ k))
        where
          ok-ne-err : ok v ≡ err e → ⊥
          ok-ne-err n = cc
      answered (err other) k = inr refl
