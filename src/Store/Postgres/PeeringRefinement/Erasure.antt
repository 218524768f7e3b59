-- ===== src/Store/Postgres/PeeringRefinement/Erasure.antt =====
-- What becomes of the route policy of a peering that `ListByState` of internal/store/postgres.go lists
-- and `Update` writes back, as internal/controller/reconciler.go does with the ones that it expires or
-- tries again.
use vpc_routing.Prelude.{
  ◌≡◌, ◌⊎◌, refl, sym, ap, ◌∙◌, inl, inr, subst, List, some-ne-none, some, Result, ok, err, nat_eq,
}
use vpc_routing.Prelude.Maps.{lookup, insert, lookup-insert_self}
use vpc_routing.Model.Entities.{Peering, PeeringState}
use vpc_routing.Store.Peerings.{PeeringStore}
use vpc_routing.Store.Postgres.{PgError, app, other, Table, PgLib, IsPgLib, IsTable}
use vpc_routing.Store.Postgres.Peerings.{Row, stored, update, get, zero_policy}
use vpc_routing.Store.Postgres.PeeringRefinement.{SamePeerings, SameIdentity, update-Same}
use vpc_routing.Store.Postgres.PeeringRefinement.Reads.{
  HeldAnswer, HasValidPolicy, get-HeldAnswer, rounded,
}
use vpc_routing.Store.Postgres.PeeringRefinement.Pages.{listed}

-- The peering that a listing gives, with its state changed.
abbrev pub moved : PgLib → PeeringState → Peering → Peering
moved x state p = record (listed x p) { state = state }

module _ (x : PgLib) (law : IsPgLib x) (t : Table (Row x)) (rows : t.State → List (Row x))
    (h : IsTable t (λ r. r.id) (λ r. r.created_at) (stored x) rows) where
  moved-SameIdentity : (state : PeeringState) (p : Peering) → SameIdentity x p (moved x state p)
  moved-SameIdentity state p = record {
    account = refl;
    requester = refl;
    accepter = refl;
    reach = refl;
    birth = sym (law.column_time_twice p.created_at);
  }

  -- A peering that is read as the listings read it and written back by `Update` with another
  -- state is read afterwards in the new state and with the empty policy, whatever its policy
  -- was; the only other answer is an error of the database.
  pub get-update_listed :
      (m : PeeringStore) (s : t.State) (p : Peering) (state : PeeringState)
      → SamePeerings x m (rows s)
      → lookup p.id m ≡ some p
      → (update x t s (moved x state p)).1 ≡ ok tt
      → ((q : Peering) × (get x t (update x t s (moved x state p)).0 p.id ≡ ok q)
          × (q.state ≡ state)
          × (q.route_policy ≡ zero_policy))
        ⊎ (get x t (update x t s (moved x state p)).0 p.id ≡ err other)
  get-update_listed m s p state a f q =
      let z = moved x state p in
      let s' = (update x t s z).0 in
      let (e, b) = update-Same x law t rows h m s z p f (moved-SameIdentity state p) a q in
      answered (get x t s' p.id) (get-HeldAnswer x law t rows h (insert p.id z m) s' p.id b valid)
    where
      z : Peering
      z = moved x state p

      found : lookup p.id (insert p.id z m) ≡ some z
      found = lookup-insert_self p.id z m

      some-inj : {u v : Peering} → some u ≡ some v → u ≡ v
      some-inj k = cc

      valid : (u : Peering) → lookup p.id (insert p.id z m) ≡ some u → HasValidPolicy u
      valid u g = subst HasValidPolicy (some-inj (sym found ∙ g)) (tt, tt)

      answered :
          (g : Result PgError Peering)
          → HeldAnswer x (lookup p.id (insert p.id z m)) g
          → ((u : Peering) × (g ≡ ok u) × (u.state ≡ state) × (u.route_policy ≡ zero_policy))
            ⊎ (g ≡ err other)
      answered (ok u) (w, e, k) =
          let same = k ∙ ap (rounded x) (some-inj (sym e ∙ found)) in
          inl (u, refl, ap (λ v. v.state) same, ap (λ v. v.route_policy) same)
      answered (err (app d)) (e, k) = absurd (some-ne-none (sym found ∙ e))
      answered (err other) k = inr refl
