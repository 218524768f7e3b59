-- ===== src/Store/Postgres/PeeringRefinement/Pages.antt =====
-- `List` and `ListByState` of PostgresPeeringStore of internal/store/postgres.go, beside
-- MemoryPeeringStore of internal/store/memory.go: neither reads the route policy.
use vpc_routing.Prelude.{
  In-map, In-map_elim, ℕ, ◌≡◌, refl, sym, ap, subst, ◌∙◌, arith, true, Option, none, some, List, [],
  ◌∷◌, map, ◌==◌, nat_eq, length, keep, In, In-keep, ok, ok-inj, >>=-eq-ok,
}
use vpc_routing.Prelude.Maps.{values}
use vpc_routing.Model.Netip.{Prefix}
use vpc_routing.Model.Policy.{evaluate_prefix, accept}
use vpc_routing.Model.Entities.{Uuid, Peering, PeeringState, state_eq}
use vpc_routing.Store.Page.{ListParams, ListResult}
use vpc_routing.Store.Peerings.{PeeringStore, is_listed}
use vpc_routing.Store.Postgres.{Table, PgLib, IsTable, IsReliable, read_all, holds_all}
use vpc_routing.Store.Postgres.Vpcs.{page_limit}
use vpc_routing.Store.Postgres.Peerings.{
  Row, stored, row_of, scan_listed, list_query, by_state, list, list_by_state, zero_policy,
}
use vpc_routing.Store.Postgres.Selections.{IsCut, selection-IsCut, read_all-IsSelection}
use vpc_routing.Store.Postgres.Tables.Agreement.{keep-Agree}
use vpc_routing.Store.Postgres.PeeringRefinement.{SamePeerings, peering_key, kept_row}
use vpc_routing.Store.Postgres.PeeringRefinement.Reads.{rounded}

-- A peering as the listings read it back: without its policy and the time of its deletion, and its
-- other times rounded.
abbrev pub listed : PgLib → Peering → Peering
listed x p = record (rounded x p) { route_policy = zero_policy; deleted_at = none }

-- What a listing of one state is: the peerings of the map in that state and no others, each without
-- its policy.
pub record IsStateList (x : PgLib) (m : PeeringStore) (state : PeeringState) (ps : List Peering)
    : Type 0 where
  pub lists : (p : Peering) → In p (values m) → (p.state == state) ≡ true → In (listed x p) ps
  pub only :
      (z : Peering)
      → In z ps
      → (p : Peering) × In p (values m) × ((p.state == state) ≡ true) × (z ≡ listed x p)
  pub unfiltered :
      (z : Peering) (prefix : Prefix) (n : ℕ)
      → In z ps
      → evaluate_prefix z.route_policy prefix n ≡ (accept, "")

module _ (x : PgLib) (t : Table (Row x)) (rows : t.State → List (Row x))
    (h : IsTable t (λ r. r.id) (λ r. r.created_at) (stored x) rows) (whole : IsReliable t) where
  scan-kept_row : (p : Peering) → scan_listed x (kept_row x p) ≡ listed x p
  unfolding scan_listed kept_row row_of
  scan-kept_row p = refl

  meets_list :
      (account_id : Uuid) (vpc_id : Option Uuid) (state : Option PeeringState) (params : ListParams)
      (p : Peering)
      → holds_all (list_query x account_id vpc_id state params).conditions (kept_row x p)
        ≡ is_listed account_id vpc_id state p
  unfolding kept_row row_of
  meets_list account_id none none params p = ground arith
  meets_list account_id none (some s) params p = ground arith
  meets_list account_id (some v) none params p = ground arith
  meets_list account_id (some v) (some s) params p = ground arith

  map-listed : (ps : List Peering) → map (scan_listed x) (map (kept_row x) ps) ≡ map (listed x) ps
  map-listed [] = refl
  map-listed (p ∷ ps) =
      ap (λ q. q ∷ map (scan_listed x) (map (kept_row x) ps)) (scan-kept_row p)
      ∙ ap (λ qs. listed x p ∷ qs) (map-listed ps)

  -- `List` of PostgreSQL answers, where no reading of rows ends early, with a page of what the
  -- in-memory store with the same peerings selects, each without its policy: the newest first, and no
  -- more than the page size in force.
  pub list_peerings-IsCut :
      (m : PeeringStore) (s : t.State) (account_id : Uuid) (vpc_id : Option Uuid)
      (state : Option PeeringState) (params : ListParams) (r : ListResult Peering)
      → SamePeerings x m (rows s)
      → list x t s account_id vpc_id state params ≡ ok r
      → IsCut
          (λ p. p.created_at)
          (page_limit params.page_size)
          (map (listed x) (keep (is_listed account_id vpc_id state) (values m)))
          r
  unfolding list scan_listed
  list_peerings-IsCut m s account_id vpc_id state params r a q =
      let query = list_query x account_id vpc_id state params in
      let kept = keep (is_listed account_id vpc_id state) (values m) in
      let (answer, e, d) =
        >>=-eq-ok (read_all t query s)
          (λ rs. ok (record { items = map (scan_listed x) rs; total_count = length rs })) q in
      let cut =
        selection-IsCut (scan_listed x) (λ p. p.created_at) query (page_limit params.page_size)
          (rows s) answer refl refl
          (read_all-IsSelection t (λ w. w.id) (λ w. w.created_at) (stored x) rows h whole query s
            answer e) in
      subst (IsCut (λ p. p.created_at) (page_limit params.page_size) (map (listed x) kept))
        (ok-inj d)
        (subst
          (λ ms.
            IsCut (λ p. p.created_at) (page_limit params.page_size) ms
              (record { items = map (scan_listed x) answer; total_count = length answer }))
          (ap (map (scan_listed x)) (
              keep-Agree peering_key (kept_row x) m (rows s) (is_listed account_id vpc_id state)
                (holds_all query.conditions) (meets_list account_id vpc_id state params) a)
            ∙ map-listed kept)
          cut)

  meets_state :
      (state : PeeringState) (p : Peering)
      → holds_all (by_state x state).conditions (kept_row x p) ≡ (p.state == state)
  unfolding kept_row row_of
  meets_state state p = ground arith

  free_policy :
      (z p : Peering) (prefix : Prefix) (n : ℕ)
      → z ≡ listed x p
      → evaluate_prefix z.route_policy prefix n ≡ (accept, "")
  unfolding evaluate_prefix
  free_policy z p prefix n e = ap (λ u. evaluate_prefix u.route_policy prefix n) e

  -- `ListByState` of PostgreSQL, where no reading of rows ends early, lists the peerings of that
  -- state that the in-memory store with the same peerings holds, and no others; but each comes
  -- with the empty policy, which accepts every prefix.
  pub list_by_state-IsStateList :
      (m : PeeringStore) (s : t.State) (state : PeeringState) (ps : List Peering)
      → SamePeerings x m (rows s)
      → list_by_state x t s state ≡ ok ps
      → IsStateList x m state ps
  unfolding list_by_state
  list_by_state-IsStateList m s state ps a q =
      let query = by_state x state in
      let kept = keep (λ p. p.state == state) (values m) in
      let (answer, e, d) = >>=-eq-ok (read_all t query s) (λ rs. ok (map (scan_listed x) rs)) q in
      let sel =
        read_all-IsSelection t (λ w. w.id) (λ w. w.created_at) (stored x) rows h whole query s
          answer e in
      let same =
        keep-Agree peering_key (kept_row x) m (rows s) (λ p. p.state == state)
          (holds_all query.conditions) (meets_state state) a in
      let only : (z : Peering)
          → In z ps
          → (p : Peering) × In p (values m) × ((p.state == state) ≡ true) × (z ≡ listed x p) =
        λ z i.
          (let (r, j, f) = In-map_elim (scan_listed x) z answer (subst (In z) (sym (ok-inj d)) i) in
            let (p, k, g) = In-map_elim (kept_row x) r kept (
              subst (In r) same
                ((In-keep (holds_all query.conditions) (rows s) r).1 (sel.among r j))) in
            let (l, c) = (In-keep (λ u. u.state == state) (values m) p).0 k in
            (p, l, c, f ∙ ap (scan_listed x) g ∙ scan-kept_row p)) in
      record {
        lists = λ p i c.
            (let (j, k) = (In-keep (holds_all query.conditions) (rows s) (kept_row x p)).0 (
                subst (In (kept_row x p)) (sym same) (
                  In-map (kept_row x) p kept
                    ((In-keep (λ u. u.state == state) (values m) p).1 (i, c)))) in
              subst (In (listed x p)) (ok-inj d) (
                subst (λ z. In z (map (scan_listed x) answer)) (scan-kept_row p)
                  (In-map (scan_listed x) (kept_row x p) answer
                    (sel.complete (kept_row x p) refl j k))));
        only = only;
        unfiltered = λ z prefix n i. (let (p, l, c, f) = only z i in free_policy z p prefix n f);
      }
