-- ===== src/Store/Events.antt =====
-- internal/store/memory.go, MemoryEventStore.
use vpc_routing.Prelude.{List, [], ◌∷◌, ◌++◌, ◌==◌, nat_eq, keep, Result, ok}
use vpc_routing.Model.Entities.{Uuid, PeeringEvent, AppError}
use vpc_routing.Store.Page.{ListParams, ListResult, page_of}

unfoldable pub append : List PeeringEvent → PeeringEvent → List PeeringEvent
append events e = events ++ e ∷ []

unfoldable pub list :
    List PeeringEvent → Uuid → ListParams → Result AppError (ListResult PeeringEvent)
list events peering_id params =
    ok (page_of (λ e. e.timestamp) (keep (λ e. e.peering_id == peering_id) events) params)
