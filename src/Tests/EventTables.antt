-- ===== src/Tests/EventTables.antt =====
-- Two events in a table, listed one to a page.
use vpc_routing.Prelude.{◌≡◌, refl, List, [], ◌∷◌, map, keep, pos, Result, ok, err, ◌==◌, nat_eq}
use vpc_routing.Model.Entities.{PeeringEvent, peering_created, peering_accepted}
use vpc_routing.Store.Page.{ListParams, ListResult, newest_first}
use vpc_routing.Store.Postgres.{PgError, Table, IsTable, IsReliable, read_all, scan_all}
use vpc_routing.Store.Postgres.Selections.{IsCut}
use vpc_routing.Store.Postgres.Events
use vpc_routing.Store.Postgres.Events.{EventRow, event_limit}
use vpc_routing.Store.Postgres.EventRefinement.{append_all, appended, rounded, list_events-IsCut}
use vpc_routing.Tests.Databases.{list_table, list_table-IsTable, list_table-IsReliable}
use vpc_routing.Tests.Columns.{columns, to_microseconds}

abbrev event_table : Table EventRow
event_table = list_table (λ r. r.id) (λ r. r.created_at) (Events.stored columns)

abbrev event_rows : List EventRow → List EventRow
event_rows rs = rs

event_table-IsTable :
    IsTable event_table (λ r. r.id) (λ r. r.created_at) (Events.stored columns) event_rows
event_table-IsTable = list_table-IsTable (λ r. r.id) (λ r. r.created_at) (Events.stored columns)

event_table-IsReliable : IsReliable event_table
event_table-IsReliable =
    list_table-IsReliable (λ r. r.id) (λ r. r.created_at) (Events.stored columns)

abbrev two_events : List PeeringEvent
two_events =
    record { id = 500; peering_id = 20; type = peering_created; timestamp = 1000 }
    ∷ record { id = 501; peering_id = 20; type = peering_accepted; timestamp = 5000 }
    ∷ []

abbrev events_of : Result PgError (List EventRow) → List EventRow
events_of (ok s) = s
events_of (err e) = []

abbrev event_state : List EventRow
event_state = events_of (append_all event_table [] two_events)

event_state-ok : append_all event_table [] two_events ≡ ok event_state
unfolding append_all Events.append
event_state-ok = refl

abbrev one_item : ListParams
one_item = record { page_size = pos 1; page_token = "" }

abbrev page_or_none : Result PgError (ListResult PeeringEvent) → ListResult PeeringEvent
page_or_none (ok r) = r
page_or_none (err e) = record { items = []; total_count = 0 }

abbrev page : ListResult PeeringEvent
page = page_or_none (Events.list event_table event_state 20 one_item)

page-answered : Events.list event_table event_state 20 one_item ≡ ok page
unfolding Events.list read_all scan_all append_all Events.append Events.row_of to_microseconds
    newest_first
page-answered = refl

list_events-IsCut_example :
    IsCut
      (λ e. e.timestamp)
      (event_limit (pos 1))
      (map (rounded columns) (keep (λ e. e.peering_id == 20) (appended [] two_events)))
      page
list_events-IsCut_example =
    list_events-IsCut columns event_table event_rows event_table-IsTable event_table-IsReliable []
      [] event_state two_events 20 one_item page refl event_state-ok page-answered
