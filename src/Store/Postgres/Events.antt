-- ===== src/Store/Postgres/Events.antt =====
-- internal/store/postgres.go, PostgresEventStore. The message column is left out, as is the field.
use vpc_routing.Prelude.{
  ℕ, true, some, [], ◌∷◌, map, if◌then◌else◌, ◌==◌, nat_eq, ℤ, is_positive, pos_part, length,
  Result, ok, ◌>>=◌,
}
use vpc_routing.Model.Entities.{Uuid, Time, PeeringEvent, EventType}
use vpc_routing.Store.Page.{ListParams, ListResult}
use vpc_routing.Store.Postgres.{PgError, Query, Table, PgLib, read_all}

-- A row of the table peering_events.
pub record EventRow : Type 0 where
  pub id : Uuid
  pub peering_id : Uuid
  pub event_type : EventType
  pub created_at : Time

-- What the table keeps of a row.
abbrev pub stored : PgLib → EventRow → EventRow
stored x r = record r { created_at = x.column_time r.created_at }

-- This `List` has no highest page size.
abbrev pub event_limit : ℤ → ℕ
event_limit size = if is_positive size then pos_part size else 50

abbrev pub list_query : Uuid → ListParams → Query EventRow
list_query peering_id params = record {
  conditions = (λ r. r.peering_id == peering_id) ∷ [];
  is_ordered = true;
  limit = some (event_limit params.page_size);
}

unfoldable pub scan_event : EventRow → PeeringEvent
scan_event r = record {
  id = r.id;
  peering_id = r.peering_id;
  type = r.event_type;
  timestamp = r.created_at;
}

unfoldable pub row_of : PeeringEvent → EventRow
row_of e = record {
  id = e.id;
  peering_id = e.peering_id;
  event_type = e.type;
  created_at = e.timestamp;
}

module _ (t : Table EventRow) where
  open t use {State}

  unfoldable pub append : State → PeeringEvent → State × Result PgError (Unit {0})
  unfolding row_of
  append s e = t.insert (row_of e) s

  unfoldable pub list : State → Uuid → ListParams → Result PgError (ListResult PeeringEvent)
  unfolding scan_event
  list s peering_id params = do
    rows ← read_all t (list_query peering_id params) s
    ok (record { items = map scan_event rows; total_count = length rows })
