-- ===== src/Store/Postgres/EventRefinement.antt =====
-- PostgresEventStore of internal/store/postgres.go beside MemoryEventStore of internal/store/memory.go.
use vpc_routing.Prelude.{
  ◌≡◌, refl, sym, ap, subst, ◌∙◌, inl, inr, ◌⊎◌, List, [], ◌∷◌, ◌++◌, map, ◌==◌, nat_eq, length,
  keep, Bool-cases, Result, ok, err, ok-inj, >>=-eq-ok,
}
use vpc_routing.Model.Entities.{Uuid, PeeringEvent}
use vpc_routing.Store.Page.{ListParams, ListResult}
use vpc_routing.Store.Events
use vpc_routing.Store.Postgres.{PgError, Table, PgLib, IsTable, IsReliable, read_all, holds_all}
use vpc_routing.Store.Postgres.Events.{
  EventRow, stored, row_of, scan_event, list_query, event_limit, append, list,
}
use vpc_routing.Store.Postgres.Selections.{IsCut, selection-IsCut, read_all-IsSelection}

-- An event as it is read back.
abbrev pub rounded : PgLib → PeeringEvent → PeeringEvent
rounded x e = record e { timestamp = x.column_time e.timestamp }

-- The row that the table holds of an event.
unfoldable pub kept_row : PgLib → PeeringEvent → EventRow
unfolding row_of
kept_row x e = stored x (row_of e)

-- The in-memory store and the table hold the same events, in the order in which they came.
abbrev pub SameEvents : PgLib → List PeeringEvent → List EventRow → Type 0
SameEvents x es rs = rs ≡ map (kept_row x) es

module _ (t : Table EventRow) where
  open t use {State}

  -- The state in which every event is appended, or the first error.
  unfoldable pub append_all : State → List PeeringEvent → Result PgError State
  append_all s [] = ok s
  append_all s (e ∷ es) = elim (append t s e).1 [
    | ok u ↦ append_all (append t s e).0 es
    | err d ↦ err d
  ]

-- The in-memory store after the same calls.
unfoldable pub appended : List PeeringEvent → List PeeringEvent → List PeeringEvent
appended events [] = events
appended events (e ∷ es) = appended (Events.append events e) es

module _ (x : PgLib) (t : Table EventRow) (rows : t.State → List EventRow)
    (h : IsTable t (λ r. r.id) (λ r. r.created_at) (stored x) rows) where
  map-append_one :
      (es : List PeeringEvent) (e : PeeringEvent)
      → map (kept_row x) (es ++ e ∷ []) ≡ map (kept_row x) es ++ kept_row x e ∷ []
  map-append_one [] e = refl
  map-append_one (d ∷ es) e = ap (λ rs. kept_row x d ∷ rs) (map-append_one es e)

  append-SameEvents :
      (es : List PeeringEvent) (s : t.State) (e : PeeringEvent)
      → SameEvents x es (rows s)
      → (append t s e).1 ≡ ok tt
      → SameEvents x (Events.append es e) (rows (append t s e).0)
  unfolding append Events.append kept_row
  append-SameEvents es s e a q =
      h.inserted (row_of e) s q ∙ ap (λ rs. rs ++ kept_row x e ∷ []) a ∙ sym (map-append_one es e)

  Unit-cases : (r : Result PgError (Unit {0})) → (r ≡ ok tt) ⊎ ((e : PgError) × (r ≡ err e))
  Unit-cases (ok tt) = inl refl
  Unit-cases (err e) = inr (e, refl)

  pub append_all-SameEvents :
      (events : List PeeringEvent) (s s' : t.State) (es : List PeeringEvent)
      → SameEvents x events (rows s)
      → append_all t s es ≡ ok s'
      → SameEvents x (appended events es) (rows s')
  unfolding append_all appended
  append_all-SameEvents events s s' [] a q = ap rows (sym (ok-inj q)) ∙ a
  append_all-SameEvents events s s' (e ∷ es) a q = elim (Unit-cases (append t s e).1) [
    | inl g ↦
        append_all-SameEvents (Events.append events e) (append t s e).0 s' es
          (append-SameEvents events s e a g) (rw (append_all, g) at q)
    | inr (d, g) ↦ absurd (err-ne-ok d (rw (append_all, g) at q))
  ]
    where
      err-ne-ok : (d : PgError) → err d ≡ ok s' → ⊥
      err-ne-ok d r = cc

  scan-kept_row : (e : PeeringEvent) → scan_event (kept_row x e) ≡ rounded x e
  unfolding scan_event kept_row row_of
  scan-kept_row e = refl

  matched :
      (id : Uuid) (params : ListParams) (es : List PeeringEvent)
      → map scan_event (keep (holds_all (list_query id params).conditions) (map (kept_row x) es))
        ≡ map (rounded x) (keep (λ e. e.peering_id == id) es)
  unfolding kept_row row_of
  matched id params [] = refl
  matched id params (e ∷ es) = elim (Bool-cases (e.peering_id == id)) [
    | inl g ↦ rw g (
        ap
          (λ z.
            z
            ∷ map scan_event
                (keep (holds_all (list_query id params).conditions) (map (kept_row x) es)))
          (scan-kept_row e)
        ∙ ap (λ zs. rounded x e ∷ zs) (matched id params es))
    | inr g ↦ rw g (matched id params es)
  ]

  -- After any events that PostgreSQL appends, `List` answers, where no reading of rows ends
  -- early, with a page of what the in-memory store holds of that peering after the same calls:
  -- the newest first, and no more than the page size in force, which has no upper bound here.
  pub list_events-IsCut :
      (whole : IsReliable t) (events : List PeeringEvent) (s s' : t.State) (es : List PeeringEvent)
      (id : Uuid) (params : ListParams) (r : ListResult PeeringEvent)
      → SameEvents x events (rows s)
      → append_all t s es ≡ ok s'
      → list t s' id params ≡ ok r
      → IsCut
          (λ e. e.timestamp)
          (event_limit params.page_size)
          (map (rounded x) (keep (λ e. e.peering_id == id) (appended events es)))
          r
  unfolding list scan_event
  list_events-IsCut whole events s s' es id params r a q g =
      let query = list_query id params in
      let (answer, e, d) =
        >>=-eq-ok (read_all t query s')
          (λ rs. ok (record { items = map scan_event rs; total_count = length rs })) g in
      let cut =
        selection-IsCut scan_event (λ z. z.timestamp) query (event_limit params.page_size) (rows s')
          answer refl refl
          (read_all-IsSelection t (λ w. w.id) (λ w. w.created_at) (stored x) rows h whole query s'
            answer e) in
      subst
        (IsCut (λ z. z.timestamp) (event_limit params.page_size)
          (map (rounded x) (keep (λ z. z.peering_id == id) (appended events es))))
        (ok-inj d)
        (subst
          (λ ms.
            IsCut (λ z. z.timestamp) (event_limit params.page_size) ms
              (record { items = map scan_event answer; total_count = length answer }))
          (ap (λ rs. map scan_event (keep (holds_all query.conditions) rs))
              (append_all-SameEvents events s s' es a q)
            ∙ matched id params (appended events es))
          cut)
