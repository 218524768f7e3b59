-- ===== src/Store/Postgres/Vpcs.antt =====
-- internal/store/postgres.go, PostgresVPCStore. `VPCState` is a string, so a state column holds it as
-- it is.
use vpc_routing.Prelude.{
  ℕ, Bool, true, false, not, Option, none, some, String, List, [], ◌∷◌, ◌++◌, map, if◌then◌else◌,
  ltb, ◌==◌, ◌!=◌, nat_eq, string_eq, ℤ, is_positive, pos_part, pos, length, first, Result, ok, err,
  ◌>>=◌,
}
use vpc_routing.Model.Netip.{Prefix}
use vpc_routing.Model.Cidr.{cidrs_overlap}
use vpc_routing.Model.Entities.{Uuid, Time, Vpc, VpcState, is_deleted, err_not_found}
use vpc_routing.Store.Page.{ListParams, ListResult}
use vpc_routing.Store.Postgres.{
  PgError, app, other, no_rows, scan_failed, Query, Table, PgLib, column_option_time, read_all,
  read_block, or_not_found,
}

-- A row of the table vpcs.
pub record VpcRow : Type 0 where
  pub id : Uuid
  pub account_id : Uuid
  pub region_id : String
  pub name : String
  pub cidr_blocks : List String
  pub vni : ℕ
  pub vrf_name : String
  pub rd : String
  pub export_rt : String
  pub state : VpcState
  pub created_at : Time
  pub deleted_at : Option Time

-- The page size of `List`, here and for peerings.
abbrev pub page_limit : ℤ → ℕ
page_limit size =
    if is_positive size then (if ltb 1000 (pos_part size) then 1000 else pos_part size) else 50

abbrev pub is_present : VpcRow → Bool
is_present r = not (is_deleted r.state)

abbrev pub mark_deleted : Time → VpcRow → VpcRow
mark_deleted now r = record r { state = VpcState.deleted; deleted_at = some now }

abbrev pub by_id : Uuid → Query VpcRow
by_id id = record {
  conditions = (λ r. r.id == id) ∷ is_present ∷ [];
  is_ordered = false;
  limit = none;
}

abbrev pub by_name : Uuid → String → String → Query VpcRow
by_name account_id region_id name = record {
  conditions =
      (λ r. r.account_id == account_id)
      ∷ (λ r. r.region_id == region_id)
      ∷ (λ r. r.name == name)
      ∷ is_present
      ∷ [];
  is_ordered = false;
  limit = none;
}

-- The statement that `List` puts together.
abbrev pub list_query : Uuid → String → ListParams → Query VpcRow
list_query account_id region_id params =
    let base = (λ r. r.account_id == account_id) ∷ is_present ∷ [] in
    record {
      conditions = if region_id != "" then base ++ (λ r. r.region_id == region_id) ∷ [] else base;
      is_ordered = true;
      limit = some (page_limit params.page_size);
    }

-- `rows.Scan` into a VPC.
unfoldable pub scan_vpc : PgLib → VpcRow → Vpc
scan_vpc x r = record {
  id = r.id;
  account_id = r.account_id;
  region_id = r.region_id;
  name = r.name;
  cidr_blocks = map (read_block x) r.cidr_blocks;
  vni = r.vni;
  vrf_name = r.vrf_name;
  rd = r.rd;
  export_rt = r.export_rt;
  state = r.state;
  peering_count = 0;
  created_at = r.created_at;
  deleted_at = r.deleted_at;
}

-- `List` does not select the column deleted_at.
unfoldable pub scan_listed : PgLib → VpcRow → Vpc
unfolding scan_vpc
scan_listed x r = record (scan_vpc x r) { deleted_at = none }

-- The row that `Create` inserts; deleted_at is not among its columns.
unfoldable pub row_of : PgLib → Vpc → VpcRow
row_of x v = record {
  id = v.id;
  account_id = v.account_id;
  region_id = v.region_id;
  name = v.name;
  cidr_blocks = map x.prefix_text v.cidr_blocks;
  vni = v.vni;
  vrf_name = v.vrf_name;
  rd = v.rd;
  export_rt = v.export_rt;
  state = v.state;
  created_at = v.created_at;
  deleted_at = none;
}

-- What the table keeps of a row.
abbrev pub stored : PgLib → VpcRow → VpcRow
stored x r = record r {
  created_at = x.column_time r.created_at;
  deleted_at = column_option_time x.column_time r.deleted_at;
}

module _ (x : PgLib) (t : Table VpcRow) where
  open t use {State}

  unfoldable pub create : State → Vpc → State × Result PgError (Unit {0})
  unfolding row_of
  create s vpc = t.insert (row_of x vpc) s

  unfoldable pub get : State → Uuid → Result PgError Vpc
  unfolding scan_vpc
  get s id = elim (t.query_row (by_id id) s) [
    | ok r ↦ ok (scan_vpc x r)
    | err e ↦ (elim e [ no_rows ↦ err (app err_not_found) | scan_failed ↦ err other ])
  ]

  unfoldable pub list : State → Uuid → String → ListParams → Result PgError (ListResult Vpc)
  unfolding scan_listed
  list s account_id region_id params = do
    rows ← read_all t (list_query account_id region_id params) s
    ok (record { items = map (scan_listed x) rows; total_count = length rows })

  unfoldable pub delete : State → Uuid → Time → State × Result PgError (Unit {0})
  delete s id now =
      let r = t.update (mark_deleted now) (by_id id).conditions s in (r.0, or_not_found r.1)

  unfoldable pub find_overlapping_cidr : State → Uuid → List Prefix → Result PgError (Option Vpc)
  unfolding list
  find_overlapping_cidr s account_id cidrs = do
    result ← list s account_id "" (record { page_size = pos 1000; page_token = "" })
    ok (first (λ v. cidrs_overlap v.cidr_blocks cidrs) result.items)

  unfoldable pub find_by_name : State → Uuid → String → String → Result PgError (Option Vpc)
  unfolding get
  find_by_name s account_id region_id name =
      elim (t.query_row (by_name account_id region_id name) s) [
        | ok r ↦ (get s r.id >>= λ v. ok (some v))
        | err e ↦ (elim e [ no_rows ↦ ok none | scan_failed ↦ err other ])
      ]
