-- ===== src/Store/Postgres/PeeringRefinement/Runs.antt =====
-- Sequences of writes on PostgresPeeringStore of internal/store/postgres.go and on
-- MemoryPeeringStore of internal/store/memory.go.
use vpc_routing.Prelude.{
  ◌≡◌, refl, subst, ◌⊎◌, inl, inr, none, some, List, [], ◌∷◌, Result, ok, err, ok-inj, ◌>>=◌,
  nat_eq,
}
use vpc_routing.Prelude.Maps.{lookup, insert}
use vpc_routing.Model.Entities.{Uuid, Time, Peering, AppError}
use vpc_routing.Store.Peerings
use vpc_routing.Store.Peerings.{PeeringStore}
use vpc_routing.Store.Postgres.{PgError, Table, PgLib, IsTable, IsPgLib}
use vpc_routing.Store.Postgres.Peerings.{Row, stored, create, update, delete}
use vpc_routing.Store.Postgres.PeeringRefinement.{
  SamePeerings, SameIdentity, create-Same, update-Same, delete-Same,
}

-- A write of the handlers, the provisioner or the reconciler.
pub data Write : Type 0 where
  created : Peering → Write
  changed : Peering → Write
  removed : Uuid → Time → Write

abbrev pub write : PeeringStore → Write → Result AppError PeeringStore
write m (created p) = Peerings.create m p
write m (changed p) = Peerings.update m p
write m (removed id now) = Peerings.delete m id now

unfoldable pub run : PeeringStore → List Write → Result AppError PeeringStore
run m [] = ok m
run m (w ∷ ws) = write m w >>= λ m'. run m' ws

-- A peering is created neither provisioned nor deleted, and one that is changed is there and keeps
-- what `Update` does not write.
abbrev pub IsWrite : PgLib → PeeringStore → Write → Type 0
IsWrite x m (created p) = (p.provisioned_at ≡ none) × (p.deleted_at ≡ none)
IsWrite x m (changed p) = (old : Peering) × (lookup p.id m ≡ some old) × SameIdentity x old p
IsWrite x m (removed id now) = Unit

-- Each write is such a write on the store that the writes before it leave.
abbrev pub IsRun : PgLib → PeeringStore → List Write → Type 0
IsRun x m [] = Unit
IsRun x m (w ∷ ws) = IsWrite x m w × ((m' : PeeringStore) → write m w ≡ ok m' → IsRun x m' ws)

module _ (x : PgLib) (t : Table (Row x)) where
  open t use {State}

  abbrev pub pg_write : State → Write → State × Result PgError (Unit {0})
  pg_write s (created p) = create x t s p
  pg_write s (changed p) = update x t s p
  pg_write s (removed id now) = delete x t s id now

  -- The state in which every write succeeds, or the first error.
  unfoldable pub pg_run : State → List Write → Result PgError State
  pg_run s [] = ok s
  pg_run s (w ∷ ws) = elim (pg_write s w).1 [ ok u ↦ pg_run (pg_write s w).0 ws | err e ↦ err e ]

module _ (x : PgLib) (law : IsPgLib x) (t : Table (Row x)) (rows : t.State → List (Row x))
    (h : IsTable t (λ r. r.id) (λ r. r.created_at) (stored x) rows) where
  write-Same :
      (m : PeeringStore) (s : t.State) (w : Write)
      → IsWrite x m w
      → SamePeerings x m (rows s)
      → (pg_write x t s w).1 ≡ ok tt
      → (m' : PeeringStore) × (write m w ≡ ok m') × SamePeerings x m' (rows (pg_write x t s w).0)
  write-Same m s (created p) (u, d) a q =
      let (e, b) = create-Same x law t rows h m s p u d a q in (insert p.id p m, e, b)
  write-Same m s (changed p) (old, f, i) a q =
      let (e, b) = update-Same x law t rows h m s p old f i a q in (insert p.id p m, e, b)
  write-Same m s (removed id now) i a q = delete-Same x law t rows h m s id now a q

  Unit-cases : (r : Result PgError (Unit {0})) → (r ≡ ok tt) ⊎ ((e : PgError) × (r ≡ err e))
  Unit-cases (ok tt) = inl refl
  Unit-cases (err e) = inr (e, refl)

  -- A sequence of writes that PostgreSQL performs is one that the in-memory store performs, and
  -- the two, which held the same peerings before it, hold the same peerings after it, where each
  -- creation is of a peering neither provisioned nor deleted, and each update of a peering that
  -- is there and keeps its account, VPCs, reach and time of creation.
  pub pg_run_peerings-Same :
      (m : PeeringStore) (s s' : t.State) (ws : List Write)
      → IsRun x m ws
      → SamePeerings x m (rows s)
      → pg_run x t s ws ≡ ok s'
      → (m' : PeeringStore) × (run m ws ≡ ok m') × SamePeerings x m' (rows s')
  unfolding pg_run run
  pg_run_peerings-Same m s s' [] i a q =
      (m, refl, subst (λ u. SamePeerings x m (rows u)) (ok-inj q) a)
  pg_run_peerings-Same m s s' (w ∷ ws) i a q = elim (Unit-cases (pg_write x t s w).1) [
    | inl e ↦
        (let (m1, e1, a1) = write-Same m s w i.0 a e in
          let (m2, e2, a2) =
            pg_run_peerings-Same m1 (pg_write x t s w).0 s' ws (i.1 m1 e1) a1
              (rw (pg_run, e) at q) in
          (m2, rw (run, e1) e2, a2))
    | inr (d, e) ↦ absurd (err-ne-ok d (rw (pg_run, e) at q))
  ]
    where
      err-ne-ok : (d : PgError) → err d ≡ ok s' → ⊥
      err-ne-ok d r = cc
