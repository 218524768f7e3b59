-- ===== src/Store/Routes.antt =====
-- internal/store/memory.go, MemoryRouteStore.
use vpc_routing.Prelude.{Bool, ◌&&◌, List, [], ◌∷◌, ◌==◌, nat_eq, keep, if◌then◌else◌}
use vpc_routing.Model.Netip.{Prefix, prefix_eq}
use vpc_routing.Model.Entities.{Uuid, RouteEntry}

-- The entry is for this peering and this prefix.
abbrev pub has_key : Uuid → Prefix → RouteEntry → Bool
has_key peering_id prefix r = r.peering_id == peering_id && r.prefix == prefix

unfoldable pub upsert : List RouteEntry → RouteEntry → List RouteEntry
upsert [] route = route ∷ []
upsert (r ∷ rs) route =
    if has_key route.peering_id route.prefix r then route ∷ rs else r ∷ upsert rs route

-- Removes the first entry with the key.
unfoldable pub delete : List RouteEntry → Uuid → Prefix → List RouteEntry
delete [] peering_id prefix = []
delete (r ∷ rs) peering_id prefix =
    if has_key peering_id prefix r then rs else r ∷ delete rs peering_id prefix

unfoldable pub list_by_peering : List RouteEntry → Uuid → List RouteEntry
list_by_peering routes peering_id = keep (λ r. r.peering_id == peering_id) routes

unfoldable pub list_by_vpc : List RouteEntry → Uuid → List RouteEntry
list_by_vpc routes vpc_id = keep (λ r. r.origin_vpc_id == vpc_id) routes
