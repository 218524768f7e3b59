-- ===== src/Tests/PeeringTables.antt =====
-- Two peerings of the same VPCs in a table, one of them deleted, and the events of one.
use vpc_routing.Prelude.{
  ◌≡◌, ◌⊎◌, refl, sym, ap, ok-inj, arith, false, none, some, List, [], ◌∷◌, Result, ok, err, nat_eq,
}
use vpc_routing.Prelude.Maps.{lookup, insert, AllValues-lookup}
use vpc_routing.Model.Policy.{default_route_policy}
use vpc_routing.Model.Entities.{Uuid, Peering, PeeringState, bidirectional, provisioning, failed}
use vpc_routing.Store.Peerings
use vpc_routing.Store.Peerings.{PeeringStore}
use vpc_routing.Store.Postgres.{PgError, other, Table, IsTable, IsReliable, read_all, scan_all}
use vpc_routing.Store.Postgres.Peerings.{
  Row, stored, row_of, create, get, update, delete, find_by_vpcs, list_by_state, zero_policy,
}
use vpc_routing.Store.Postgres.PeeringRefinement.{SamePeerings, SameIdentity, kept_row}
use vpc_routing.Store.Postgres.PeeringRefinement.Runs.{
  Write, created, changed, removed, run, pg_run, IsRun, pg_run_peerings-Same,
}
use vpc_routing.Store.Postgres.PeeringRefinement.Reads.{
  HeldAnswer, HasValidPolicy, get-HeldAnswer, PairAnswer, find_by_vpcs-PairAnswer,
}
use vpc_routing.Store.Postgres.PeeringRefinement.Pages.{IsStateList, list_by_state-IsStateList}
use vpc_routing.Store.Postgres.PeeringRefinement.Erasure.{moved, get-update_listed}
use vpc_routing.Tests.Data.{ten, ten-IsPrefix}
use vpc_routing.Tests.Databases.{list_table, list_table-IsTable, list_table-IsReliable}
use vpc_routing.Tests.Columns.{columns, columns-IsPgLib}

abbrev table : Table (Row columns)
table = list_table (λ r. r.id) (λ r. r.created_at) (stored columns)

abbrev rows : List (Row columns) → List (Row columns)
rows rs = rs

table-IsTable : IsTable table (λ r. r.id) (λ r. r.created_at) (stored columns) rows
table-IsTable = list_table-IsTable (λ r. r.id) (λ r. r.created_at) (stored columns)

table-IsReliable : IsReliable table
table-IsReliable = list_table-IsReliable (λ r. r.id) (λ r. r.created_at) (stored columns)

abbrev peering : Uuid → PeeringState → Peering
peering id state = record {
  id = id;
  account_id = 1;
  requester_vpc_id = 11;
  accepter_vpc_id = 12;
  direction = bidirectional;
  state = state;
  cross_region = false;
  route_policy = record default_route_policy { denied_prefixes = ten ∷ [] };
  route_count = 0;
  created_at = 900;
  provisioned_at = none;
  deleted_at = none;
}

nothing-SamePeerings : SamePeerings columns [] []
nothing-SamePeerings = record { held = []; entries = refl; contents = refl; distinct = tt }

abbrev writes : List Write
writes = created (peering 20 provisioning) ∷ changed (peering 20 failed) ∷ removed 20 2000 ∷ []

same-SameIdentity : SameIdentity columns (peering 20 provisioning) (peering 20 failed)
same-SameIdentity = record {
  account = refl;
  requester = refl;
  accepter = refl;
  reach = refl;
  birth = refl;
}

found :
    (m : PeeringStore)
    → Peerings.create [] (peering 20 provisioning) ≡ ok m
    → lookup 20 m ≡ some (peering 20 provisioning)
unfolding Peerings.create insert lookup
found m q = ap (lookup 20) (sym (ok-inj q))

writes-IsRun : IsRun columns [] writes
writes-IsRun = (
  (refl, refl),
  λ m q. ((peering 20 provisioning, found m q, same-SameIdentity), λ m2 q2. (tt, λ m3 q3. tt)),
)

abbrev state_of : Result PgError (List (Row columns)) → List (Row columns)
state_of (ok s) = s
state_of (err e) = []

abbrev written : List (Row columns)
written = state_of (pg_run columns table [] writes)

written-state : pg_run columns table [] writes ≡ ok written
unfolding pg_run create update delete
written-state = refl

pg_run_peerings-Same_example :
    (m : PeeringStore) × (run [] writes ≡ ok m) × SamePeerings columns m written
pg_run_peerings-Same_example =
    pg_run_peerings-Same columns columns-IsPgLib table rows table-IsTable [] [] written writes
      writes-IsRun nothing-SamePeerings written-state

abbrev gone : Peering
gone = record (peering 20 PeeringState.deleted) { deleted_at = some 2000 }

abbrev two : PeeringStore
two = (20, gone) ∷ (21, peering 21 failed) ∷ []

abbrev two_rows : List (Row columns)
two_rows = kept_row columns gone ∷ kept_row columns (peering 21 failed) ∷ []

two-SamePeerings : SamePeerings columns two two_rows
two-SamePeerings = record {
  held = gone ∷ peering 21 failed ∷ [];
  entries = refl;
  contents = refl;
  distinct = ((λ q. omega (arith, q), tt), (tt, tt));
}

valid : (id : Uuid) (p : Peering) → lookup id two ≡ some p → HasValidPolicy p
valid id p q =
    AllValues-lookup HasValidPolicy id p two q
      ((tt, (ten-IsPrefix, tt)), ((tt, (ten-IsPrefix, tt)), tt))

get-HeldAnswer_example : HeldAnswer columns (lookup 20 two) (get columns table two_rows 20)
get-HeldAnswer_example =
    get-HeldAnswer columns columns-IsPgLib table rows table-IsTable two two_rows 20 two-SamePeerings
      (valid 20)

find_by_vpcs-PairAnswer_example :
    PairAnswer columns two 12 11 (find_by_vpcs columns table two_rows 12 11)
find_by_vpcs-PairAnswer_example =
    find_by_vpcs-PairAnswer columns columns-IsPgLib table rows table-IsTable two two_rows 12 11
      two-SamePeerings valid

abbrev listed_or_none : Result PgError (List Peering) → List Peering
listed_or_none (ok ps) = ps
listed_or_none (err e) = []

abbrev failures : List Peering
failures = listed_or_none (list_by_state columns table two_rows failed)

failures-listed : list_by_state columns table two_rows failed ≡ ok failures
unfolding list_by_state read_all scan_all kept_row row_of
failures-listed = refl

list_by_state-IsStateList_example : IsStateList columns two failed failures
list_by_state-IsStateList_example =
    list_by_state-IsStateList columns table rows table-IsTable table-IsReliable two two_rows failed
      failures two-SamePeerings failures-listed

abbrev retried : Peering
retried = moved columns provisioning (peering 21 failed)

retried-found : lookup 21 two ≡ some (peering 21 failed)
unfolding lookup
retried-found = refl

retried-ok : (update columns table two_rows retried).1 ≡ ok tt
unfolding update
retried-ok = refl

get-update_listed_example :
    ((q : Peering) × (get columns table (update columns table two_rows retried).0 21 ≡ ok q)
      × (q.state ≡ provisioning)
      × (q.route_policy ≡ zero_policy))
    ⊎ (get columns table (update columns table two_rows retried).0 21 ≡ err other)
get-update_listed_example =
    get-update_listed columns columns-IsPgLib table rows table-IsTable two two_rows
      (peering 21 failed) provisioning two-SamePeerings retried-found retried-ok
