-- ===== src/Store/Postgres/PeeringRefinement/Reads.antt =====
-- What PostgresPeeringStore of internal/store/postgres.go answers of single peerings, beside
-- MemoryPeeringStore of internal/store/memory.go.
use vpc_routing.Prelude.{
  ℕ, ◌≡◌, refl, sym, ap, ◌∙◌, arith, inl, inr, Bool, true, ◌&&◌, Option, none, some, List, [], ◌∷◌,
  ◌==◌, nat_eq, nat_beq_iff, All, any_intro, Result, ok, err, ◌>>=◌, Option-cases, true-ne-false,
  some-ne-none, and_true,
}
use vpc_routing.Prelude.Maps.{lookup, values}
use vpc_routing.Model.Netip.{IsPrefix}
use vpc_routing.Model.Entities.{Uuid, Peering, state_eq, err_not_found}
use vpc_routing.Store.Peerings
use vpc_routing.Store.Peerings.{PeeringStore, is_between, joins, is_live, touches}
use vpc_routing.Store.Postgres.{
  PgError, app, other, no_rows, Table, PgLib, IsPgLib, IsTable, holds_all, column_option_time,
}
use vpc_routing.Store.Postgres.Peerings.{
  Row, row_of, stored, by_id, by_vpcs, of_vpc, is_live_row, scan_peering, scan_listed, get,
  find_by_vpcs, count_by_vpc,
}
use vpc_routing.Store.Postgres.Tables.Agreement.{row-found, row-held, any-Agree, count-Agree}
use vpc_routing.Store.Postgres.PeeringRefinement.{SamePeerings, peering_key, kept_row, kept_row-id}
use vpc_routing.Store.Postgres.VpcRefinement.Reads.{Row-cases, first-absent}

and_swap : (a b : Bool) → (a && (b && true)) ≡ (b && a)
and_swap a b = ground arith

-- A peering as it is read back, but for the policy: its times are rounded.
abbrev pub rounded : PgLib → Peering → Peering
rounded x p = record p {
  created_at = x.column_time p.created_at;
  provisioned_at = column_option_time x.column_time p.provisioned_at;
  deleted_at = column_option_time x.column_time p.deleted_at;
}

-- The policy's prefixes are valid.
abbrev pub HasValidPolicy : Peering → Type 0
HasValidPolicy p =
    All IsPrefix p.route_policy.allowed_prefixes × All IsPrefix p.route_policy.denied_prefixes

pub scan_kept :
    (x : PgLib)
    → IsPgLib x
    → (p : Peering) → HasValidPolicy p
    → scan_peering x (kept_row x p) ≡ ok (rounded x p)
unfolding scan_peering scan_listed kept_row row_of
scan_kept x law p (a, d) =
    let (j, e) = law.marshals p.route_policy in
    rw (e, law.unmarshal-marshal p.route_policy j a d e) refl

-- What `Get` of PostgreSQL answers beside a map: that there is no such peering, where the map has
-- none; the map's peering with its times rounded, a deleted one too; or an error of the database.
abbrev pub HeldAnswer : PgLib → Option Peering → Result PgError Peering → Type 0
HeldAnswer x held (ok p) = (q : Peering) × (held ≡ some q) × (p ≡ rounded x q)
HeldAnswer x held (err (app e)) = (held ≡ none) × (e ≡ err_not_found)
HeldAnswer x held (err other) = Unit

-- What `FindByVPCs` of PostgreSQL answers beside a map.
abbrev pub PairAnswer :
    PgLib → PeeringStore → Uuid → Uuid → Result PgError (Option Peering) → Type 0
PairAnswer x m a b (ok none) = Peerings.find_by_vpcs m a b ≡ ok none
PairAnswer x m a b (ok (some p)) =
    (q : Peering) × (lookup q.id m ≡ some q) × (is_between a b q ≡ true) × (p ≡ rounded x q)
PairAnswer x m a b (err (app e)) = ⊥
PairAnswer x m a b (err other) = Unit

module _ (x : PgLib) (law : IsPgLib x) (t : Table (Row x)) (rows : t.State → List (Row x))
    (h : IsTable t (λ r. r.id) (λ r. r.created_at) (stored x) rows) where
  held_lem :
      (m : PeeringStore) (s : t.State) (id : Uuid) (r : Row x)
      → SamePeerings x m (rows s)
      → t.query_row (by_id x id) s ≡ ok r
      → (p : Peering) × (lookup id m ≡ some p) × (r ≡ kept_row x p)
  held_lem m s id r a q =
      let (i, c) = h.found (by_id x id) s r q in
      let (p, found, same) =
        row-found peering_key (kept_row x) (λ u. u.id) m (rows s) r (kept_row-id x) a i in
      let k = (nat_beq_iff r.id id).0 (and_true (r.id == id) true c).0 in
      (p, ap (λ j. lookup j m) (sym k) ∙ found, same)

  absent_lem :
      (m : PeeringStore) (s : t.State) (id : Uuid)
      → SamePeerings x m (rows s)
      → t.query_row (by_id x id) s ≡ err no_rows
      → lookup id m ≡ none
  unfolding kept_row row_of
  absent_lem m s id a q = elim (Option-cases (lookup id m)) [
    | inl e ↦ e
    | inr (p, e) ↦
        (let (i, k) = row-held peering_key (kept_row x) m (rows s) id p a e in
          absurd (
            true-ne-false (
              sym
                (any_intro (holds_all (by_id x id).conditions) (rows s) (kept_row x p) i (here p k))
              ∙ h.missing (by_id x id) s q)))
  ]
    where
      here : (p : Peering) → p.id ≡ id → holds_all (by_id x id).conditions (kept_row x p) ≡ true
      here p k = ground (arith, k, nat_beq_iff p.id id)

  -- `Get` of PostgreSQL answers, beside the in-memory store with the same peerings, and for a
  -- peering of a valid policy: that there is none, where the map has none; or the map's peering
  -- with its times rounded, also where it is deleted; or an error of the database.
  pub get-HeldAnswer :
      (m : PeeringStore) (s : t.State) (id : Uuid)
      → SamePeerings x m (rows s)
      → ((p : Peering) → lookup id m ≡ some p → HasValidPolicy p)
      → HeldAnswer x (lookup id m) (get x t s id)
  unfolding get
  get-HeldAnswer m s id a v = elim (Row-cases (t.query_row (by_id x id) s)) [
    | inl (r, q) ↦
        (let (p, f, e) = held_lem m s id r a q in
          rw (get, q, e, scan_kept x law p (v p f)) (p, f, refl))
    | inr (inl q) ↦ rw (get, q) (absent_lem m s id a q, refl)
    | inr (inr q) ↦ rw (get, q) tt
  ]

  -- `CountByVPC` of PostgreSQL counts what the in-memory store with the same peerings counts.
  pub count_by_vpc-agrees :
      (m : PeeringStore) (s : t.State) (v : Uuid) (n : ℕ)
      → SamePeerings x m (rows s)
      → count_by_vpc x t s v ≡ ok n
      → Peerings.count_by_vpc m v ≡ ok n
  unfolding count_by_vpc Peerings.count_by_vpc kept_row row_of
  count_by_vpc-agrees m s v n a q = ap ok (
      sym (
        h.counted (of_vpc x v ∷ is_live_row x ∷ []) s n q
        ∙ count-Agree peering_key (kept_row x) m (rows s) (touches v)
            (holds_all (of_vpc x v ∷ is_live_row x ∷ [])) same a))
    where
      same :
          (p : Peering) → holds_all (of_vpc x v ∷ is_live_row x ∷ []) (kept_row x p) ≡ touches v p
      same p = and_swap (of_vpc x v (kept_row x p)) (is_live_row x (kept_row x p))

  meets_pair :
      (v w : Uuid) (p : Peering)
      → holds_all (by_vpcs x v w).conditions (kept_row x p) ≡ is_between v w p
  unfolding kept_row row_of
  meets_pair v w p = and_swap (joins v w p) (is_live p.state)

  pair_by_get :
      (m : PeeringStore) (v w : Uuid) (q : Peering) (g : Result PgError Peering)
      → lookup q.id m ≡ some q
      → is_between v w q ≡ true
      → HeldAnswer x (lookup q.id m) g
      → PairAnswer x m v w (g >>= λ p. ok (some p))
  pair_by_get m v w q (ok p) f c (u, e, d) = (q, f, c, d ∙ ap (rounded x) (some-inj (sym e ∙ f)))
    where
      some-inj : some u ≡ some q → u ≡ q
      some-inj k = cc
  pair_by_get m v w q (err (app d)) f c (e, k) = some-ne-none (sym f ∙ e)
  pair_by_get m v w q (err other) f c s = tt

  -- `FindByVPCs` of PostgreSQL finds nothing only where the in-memory store with the same
  -- peerings, all of valid policies, finds nothing, and otherwise one of its peerings that is
  -- not deleted, rejected or expired and joins the two VPCs, with its times rounded, or ends in
  -- an error of the database.
  pub find_by_vpcs-PairAnswer :
      (m : PeeringStore) (s : t.State) (v w : Uuid)
      → SamePeerings x m (rows s)
      → ((k : Uuid) (p : Peering) → lookup k m ≡ some p → HasValidPolicy p)
      → PairAnswer x m v w (find_by_vpcs x t s v w)
  unfolding find_by_vpcs Peerings.find_by_vpcs
  find_by_vpcs-PairAnswer m s v w a valid = elim (Row-cases (t.query_row (by_vpcs x v w) s)) [
    | inl (r, q) ↦
        (let (i, c) = h.found (by_vpcs x v w) s r q in
          let (p, found, same) =
            row-found peering_key (kept_row x) (λ u. u.id) m (rows s) r (kept_row-id x) a i in
          let k : r.id ≡ p.id = ap (λ u. u.id) same ∙ kept_row-id x p in
          rw (find_by_vpcs, q, k)
            (pair_by_get m v w p (get x t s p.id) (ap (λ j. lookup j m) (sym k) ∙ found)
              (sym (meets_pair v w p) ∙ ap (holds_all (by_vpcs x v w).conditions) (sym same) ∙ c)
              (get-HeldAnswer m s p.id a (valid p.id))))
    | inr (inl q) ↦
        rw (find_by_vpcs, q)
          (ap ok (
            first-absent (is_between v w) (values m) (
              sym (
                any-Agree peering_key (kept_row x) m (rows s) (is_between v w)
                  (holds_all (by_vpcs x v w).conditions) (meets_pair v w) a)
              ∙ h.missing (by_vpcs x v w) s q)))
    | inr (inr q) ↦ rw (find_by_vpcs, q) tt
  ]
