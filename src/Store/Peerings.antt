-- ===== src/Store/Peerings.antt =====
-- internal/store/memory.go, MemoryPeeringStore.
use vpc_routing.Prelude.{
  ℕ, Bool, true, ◌&&◌, ◌||◌, not, Option, none, some, List, if◌then◌else◌, ◌==◌, ◌!=◌, nat_eq, keep,
  first, count_by, Result, ok, err,
}
use vpc_routing.Prelude.Maps.{Map, lookup, insert, values}
use vpc_routing.Model.Entities.{
  Uuid, Time, Peering, PeeringState, rejected, expired, state_eq, AppError, err_not_found,
}
use vpc_routing.Store.Page.{ListParams, ListResult, page_of}

abbrev pub PeeringStore : Type 0
PeeringStore = Map Uuid Peering

unfoldable pub create : PeeringStore → Peering → Result AppError PeeringStore
create s p = ok (insert p.id p s)

abbrev present : Option Peering → Result AppError Peering
present none = err err_not_found
present (some p) = if p.state == PeeringState.deleted then err err_not_found else ok p

unfoldable pub get : PeeringStore → Uuid → Result AppError Peering
get s id = present (lookup id s)

abbrev on_vpc : Option Uuid → Peering → Bool
on_vpc none p = true
on_vpc (some v) p = not (p.requester_vpc_id != v && p.accepter_vpc_id != v)

abbrev in_state : Option PeeringState → Peering → Bool
in_state none p = true
in_state (some t) p = p.state == t

-- The entries that `List` keeps.
abbrev pub is_listed : Uuid → Option Uuid → Option PeeringState → Peering → Bool
is_listed account_id vpc_id state p =
    p.state != PeeringState.deleted
    && p.account_id == account_id
    && on_vpc vpc_id p
    && in_state state p

unfoldable pub list :
    PeeringStore
    → Uuid
    → Option Uuid
    → Option PeeringState
    → ListParams
    → Result AppError (ListResult Peering)
list s account_id vpc_id state params =
    ok (page_of (λ p. p.created_at) (keep (is_listed account_id vpc_id state) (values s)) params)

unfoldable pub update : PeeringStore → Peering → Result AppError PeeringStore
update s p = elim (lookup p.id s) [ none ↦ err err_not_found | some old ↦ ok (insert p.id p s) ]

unfoldable pub delete : PeeringStore → Uuid → Time → Result AppError PeeringStore
delete s id now = elim (lookup id s) [
  | none ↦ err err_not_found
  | some p ↦ ok (insert id (record p { state = PeeringState.deleted; deleted_at = some now }) s)
]

-- Neither deleted, rejected nor expired.
abbrev pub is_live : PeeringState → Bool
is_live t = not (t == PeeringState.deleted || t == rejected || t == expired)

-- The peering joins the two VPCs, in either order.
abbrev pub joins : Uuid → Uuid → Peering → Bool
joins a b p =
    (p.requester_vpc_id == a && p.accepter_vpc_id == b)
    || (p.requester_vpc_id == b && p.accepter_vpc_id == a)

abbrev pub is_between : Uuid → Uuid → Peering → Bool
is_between a b p = is_live p.state && joins a b p

unfoldable pub find_by_vpcs : PeeringStore → Uuid → Uuid → Result AppError (Option Peering)
find_by_vpcs s a b = ok (first (is_between a b) (values s))

abbrev pub touches : Uuid → Peering → Bool
touches v p = is_live p.state && (p.requester_vpc_id == v || p.accepter_vpc_id == v)

unfoldable pub count_by_vpc : PeeringStore → Uuid → Result AppError ℕ
count_by_vpc s v = ok (count_by (touches v) (values s))

unfoldable pub list_by_state : PeeringStore → PeeringState → Result AppError (List Peering)
list_by_state s t = ok (keep (λ p. p.state == t) (values s))
