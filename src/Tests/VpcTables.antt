-- ===== src/Tests/VpcTables.antt =====
-- Two VPCs of one account in a table.
use vpc_routing.Prelude.{◌≡◌, ◌⊎◌, refl, arith, List, [], ◌∷◌, map, keep, pos, Result, ok, err}
use vpc_routing.Prelude.Maps.{values}
use vpc_routing.Model.Entities.{Vpc}
use vpc_routing.Store.Page.{ListParams, ListResult, newest_first}
use vpc_routing.Store.Vpcs.{VpcStore, is_listed}
use vpc_routing.Store.Postgres.{PgError, other, Table, IsTable, IsReliable, read_all, scan_all}
use vpc_routing.Store.Postgres.Vpcs.{
  VpcRow, stored, row_of, create, get, list, delete, page_limit, find_overlapping_cidr,
}
use vpc_routing.Store.Postgres.Selections.{IsCut}
use vpc_routing.Store.Postgres.VpcRefinement.{SameVpcs, kept_row, rounded}
use vpc_routing.Store.Postgres.VpcRefinement.Runs.{
  Write, created, removed, run, pg_run, pg_run-Same, get-create,
}
use vpc_routing.Store.Postgres.VpcRefinement.Pages.{
  kept_listed, list-IsCut, OverlapAnswer, find_overlapping_cidr-OverlapAnswer,
}
use vpc_routing.Tests.Data.{east, west, ten, east-IsPrefix, west-IsPrefix, vpc_of}
use vpc_routing.Tests.Databases.{list_table, list_table-IsTable, list_table-IsReliable}
use vpc_routing.Tests.Columns.{columns, columns-IsPgLib, to_microseconds}

abbrev table : Table VpcRow
table = list_table (λ r. r.id) (λ r. r.created_at) (stored columns)

abbrev rows : List VpcRow → List VpcRow
rows rs = rs

table-IsTable : IsTable table (λ r. r.id) (λ r. r.created_at) (stored columns) rows
table-IsTable = list_table-IsTable (λ r. r.id) (λ r. r.created_at) (stored columns)

table-IsReliable : IsReliable table
table-IsReliable = list_table-IsReliable (λ r. r.id) (λ r. r.created_at) (stored columns)

abbrev first_vpc : Vpc
first_vpc = vpc_of 11 "first" east 3145728

abbrev second_vpc : Vpc
second_vpc = vpc_of 12 "second" west 3145729

nothing-SameVpcs : SameVpcs columns [] []
nothing-SameVpcs = record { held = []; entries = refl; contents = refl; distinct = tt }

abbrev writes : List Write
writes = created first_vpc ∷ created second_vpc ∷ removed 11 2000 ∷ []

abbrev state_of : Result PgError (List VpcRow) → List VpcRow
state_of (ok s) = s
state_of (err e) = []

abbrev written : List VpcRow
written = state_of (pg_run columns table [] writes)

written-state : pg_run columns table [] writes ≡ ok written
unfolding pg_run create delete
written-state = refl

pg_run-Same_example : (m : VpcStore) × (run [] writes ≡ ok m) × SameVpcs columns m written
pg_run-Same_example =
    pg_run-Same columns columns-IsPgLib table rows table-IsTable [] [] written writes
      (refl, (refl, (tt, tt))) nothing-SameVpcs written-state

created-ok : (create columns table [] first_vpc).1 ≡ ok tt
unfolding create
created-ok = refl

get-create_example :
    (get columns table (create columns table [] first_vpc).0 11 ≡ ok (rounded columns first_vpc))
    ⊎ (get columns table (create columns table [] first_vpc).0 11 ≡ err other)
get-create_example =
    get-create columns columns-IsPgLib table rows table-IsTable [] [] first_vpc refl refl
      (east-IsPrefix, tt) nothing-SameVpcs created-ok

abbrev two : VpcStore
two = (11, first_vpc) ∷ (12, second_vpc) ∷ []

abbrev two_rows : List VpcRow
two_rows = kept_row columns first_vpc ∷ kept_row columns second_vpc ∷ []

two-SameVpcs : SameVpcs columns two two_rows
two-SameVpcs = record {
  held = first_vpc ∷ second_vpc ∷ [];
  entries = refl;
  contents = refl;
  distinct = ((λ q. omega (arith, q), tt), (tt, tt));
}

abbrev one_item : ListParams
one_item = record { page_size = pos 1; page_token = "" }

abbrev page_or_none : Result PgError (ListResult Vpc) → ListResult Vpc
page_or_none (ok r) = r
page_or_none (err e) = record { items = []; total_count = 0 }

abbrev page : ListResult Vpc
page = page_or_none (list columns table two_rows 1 "eu" one_item)

page-answered : list columns table two_rows 1 "eu" one_item ≡ ok page
unfolding list read_all scan_all kept_row row_of to_microseconds newest_first
page-answered = refl

list-IsCut_example :
    IsCut
      (λ v. v.created_at)
      (page_limit (pos 1))
      (map (kept_listed columns) (keep (is_listed 1 "eu") (values two)))
      page
list-IsCut_example =
    list-IsCut columns table rows table-IsTable table-IsReliable two two_rows 1 "eu" one_item page
      two-SameVpcs page-answered

find_overlapping_cidr-OverlapAnswer_example :
    OverlapAnswer columns two 1
      (ten ∷ [])
      (find_overlapping_cidr columns table two_rows 1 (ten ∷ []))
find_overlapping_cidr-OverlapAnswer_example =
    find_overlapping_cidr-OverlapAnswer columns table rows table-IsTable table-IsReliable
      columns-IsPgLib two two_rows 1 (ten ∷ []) two-SameVpcs
      ((east-IsPrefix, tt), ((west-IsPrefix, tt), tt)) (omega arith)
