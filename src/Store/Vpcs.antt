-- ===== src/Store/Vpcs.antt =====
-- internal/store/memory.go, MemoryVPCStore. A method is a function of the map; the lock makes it one
-- step. `range` visits the entries in the order of the list.
use vpc_routing.Prelude.{
  Bool, ◌&&◌, ◌||◌, not, Option, none, some, String, List, if◌then◌else◌, ◌==◌, ◌!=◌, nat_eq,
  string_eq, keep, first, Result, ok, err,
}
use vpc_routing.Prelude.Maps.{Map, lookup, insert, values}
use vpc_routing.Model.Netip.{Prefix}
use vpc_routing.Model.Cidr.{cidrs_overlap}
use vpc_routing.Model.Entities.{
  Uuid, Time, Vpc, VpcState, is_deleted, AppError, err_conflict, err_not_found,
}
use vpc_routing.Store.Page.{ListParams, ListResult, page_of}

abbrev pub VpcStore : Type 0
VpcStore = Map Uuid Vpc

unfoldable pub create : VpcStore → Vpc → Result AppError VpcStore
create s vpc = elim (lookup vpc.id s) [
  | some old ↦ err err_conflict
  | none ↦ ok (insert vpc.id vpc s)
]

abbrev present : Option Vpc → Result AppError Vpc
present none = err err_not_found
present (some vpc) = if is_deleted vpc.state then err err_not_found else ok vpc

unfoldable pub get : VpcStore → Uuid → Result AppError Vpc
get s id = present (lookup id s)

-- The entries that `List` keeps.
abbrev pub is_listed : Uuid → String → Vpc → Bool
is_listed account_id region_id v =
    not (v.account_id != account_id || is_deleted v.state)
    && not (region_id != "" && v.region_id != region_id)

unfoldable pub list : VpcStore → Uuid → String → ListParams → Result AppError (ListResult Vpc)
list s account_id region_id params =
    ok (page_of (λ v. v.created_at) (keep (is_listed account_id region_id) (values s)) params)

unfoldable pub delete : VpcStore → Uuid → Time → Result AppError VpcStore
delete s id now = elim (lookup id s) [
  | none ↦ err err_not_found
  | some vpc ↦ ok (insert id (record vpc { state = VpcState.deleted; deleted_at = some now }) s)
]

-- A VPC of the account that is not deleted and has a block that overlaps one of `cidrs`.
abbrev pub is_overlapping : Uuid → List Prefix → Vpc → Bool
is_overlapping account_id cidrs v =
    not (v.account_id != account_id || is_deleted v.state) && cidrs_overlap v.cidr_blocks cidrs

unfoldable pub find_overlapping_cidr : VpcStore → Uuid → List Prefix → Result AppError (Option Vpc)
find_overlapping_cidr s account_id cidrs = ok (first (is_overlapping account_id cidrs) (values s))

abbrev pub has_name : Uuid → String → String → Vpc → Bool
has_name account_id region_id name v =
    v.account_id == account_id
    && v.region_id == region_id
    && v.name == name
    && not (is_deleted v.state)

unfoldable pub find_by_name : VpcStore → Uuid → String → String → Result AppError (Option Vpc)
find_by_name s account_id region_id name =
    ok (first (has_name account_id region_id name) (values s))
