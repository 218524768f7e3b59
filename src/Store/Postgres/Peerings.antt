-- ===== src/Store/Postgres/Peerings.antt =====
-- internal/store/postgres.go, PostgresPeeringStore. The column latency_ms is left out, as no code
-- sets the field that it keeps.
use vpc_routing.Prelude.{
  ℕ, Bool, true, false, ◌&&◌, ◌||◌, not, Option, none, some, String, List, [], ◌∷◌, ◌++◌, map, ◌==◌,
  ◌!=◌, nat_eq, length, pos, Result, ok, err, value, ◌>>=◌,
}
use vpc_routing.Model.Policy.{RoutePolicy}
use vpc_routing.Model.Entities.{
  Uuid, Time, Peering, PeeringState, PeeringDirection, rejected, expired, state_eq, err_not_found,
}
use vpc_routing.Store.Page.{ListParams, ListResult}
use vpc_routing.Store.Postgres.{
  PgError, app, other, no_rows, scan_failed, Query, Table, PgLib, column_option_time, read_all,
  or_not_found,
}
use vpc_routing.Store.Postgres.Vpcs.{page_limit}

-- A row of the table peerings.
pub record PeeringRow (Json : Type 0) : Type 0 where
  pub id : Uuid
  pub account_id : Uuid
  pub requester_vpc_id : Uuid
  pub accepter_vpc_id : Uuid
  pub direction : PeeringDirection
  pub state : PeeringState
  pub cross_region : Bool
  pub route_policy : Option Json
  pub route_count : ℕ
  pub region_id : String
  pub created_at : Time
  pub provisioned_at : Option Time
  pub deleted_at : Option Time

-- The zero `RoutePolicy`, of a peering whose policy is not read.
abbrev pub zero_policy : RoutePolicy
zero_policy = record {
  allowed_prefixes = [];
  denied_prefixes = [];
  max_prefixes = pos 0;
  bandwidth_limit_mbps = none;
}

module _ (x : PgLib) where
  open x use {Json}

  abbrev pub Row : Type 0
  Row = PeeringRow Json

  -- What the table keeps of a row.
  abbrev pub stored : Row → Row
  stored r = record r {
    created_at = x.column_time r.created_at;
    provisioned_at = column_option_time x.column_time r.provisioned_at;
    deleted_at = column_option_time x.column_time r.deleted_at;
  }

  abbrev pub is_present : Row → Bool
  is_present r = r.state != PeeringState.deleted

  -- `state NOT IN ('deleted', 'rejected', 'expired')`.
  abbrev pub is_live_row : Row → Bool
  is_live_row r = not (r.state == PeeringState.deleted || r.state == rejected || r.state == expired)

  abbrev pub of_vpc : Uuid → Row → Bool
  of_vpc v r = r.requester_vpc_id == v || r.accepter_vpc_id == v

  abbrev pub by_id : Uuid → Query Row
  by_id id = record { conditions = (λ r. r.id == id) ∷ []; is_ordered = false; limit = none }

  abbrev pub by_vpcs : Uuid → Uuid → Query Row
  by_vpcs a b = record {
    conditions =
        (λ r.
          (r.requester_vpc_id == a && r.accepter_vpc_id == b)
          || (r.requester_vpc_id == b && r.accepter_vpc_id == a))
        ∷ is_live_row
        ∷ [];
    is_ordered = false;
    limit = none;
  }

  abbrev pub when_given {ℓ} : {A : Type ℓ} → Option A → (A → Row → Bool) → List (Row → Bool)
  when_given none c = []
  when_given (some a) c = c a ∷ []

  -- The statement that `List` puts together.
  abbrev pub list_query : Uuid → Option Uuid → Option PeeringState → ListParams → Query Row
  list_query account_id vpc_id state params = record {
    conditions =
        (λ r. r.account_id == account_id)
        ∷ is_present
        ∷ (when_given vpc_id of_vpc ++ when_given state (λ s r. r.state == s));
    is_ordered = true;
    limit = some (page_limit params.page_size);
  }

  abbrev pub by_state : PeeringState → Query Row
  by_state state = record {
    conditions = (λ r. r.state == state) ∷ [];
    is_ordered = false;
    limit = none;
  }

  -- `List` and `ListByState` select neither route_policy nor deleted_at.
  unfoldable pub scan_listed : Row → Peering
  scan_listed r = record {
    id = r.id;
    account_id = r.account_id;
    requester_vpc_id = r.requester_vpc_id;
    accepter_vpc_id = r.accepter_vpc_id;
    direction = r.direction;
    state = r.state;
    cross_region = r.cross_region;
    route_policy = zero_policy;
    route_count = r.route_count;
    created_at = r.created_at;
    provisioned_at = r.provisioned_at;
    deleted_at = none;
  }

  -- `json.Unmarshal` of the column; it fails on no bytes.
  abbrev pub read_policy : Option Json → Result PgError RoutePolicy
  read_policy none = err other
  read_policy (some j) = x.unmarshal j

  -- `Scan` of all the columns, and the policy.
  unfoldable pub scan_peering : Row → Result PgError Peering
  unfolding scan_listed
  scan_peering r = do
    policy ← read_policy r.route_policy
    ok (record (scan_listed r) { route_policy = policy; deleted_at = r.deleted_at })

  -- The row that `Create` inserts: the error of `json.Marshal` is dropped, and provisioned_at and
  -- deleted_at are not among its columns.
  unfoldable pub row_of : Peering → Row
  row_of p = record {
    id = p.id;
    account_id = p.account_id;
    requester_vpc_id = p.requester_vpc_id;
    accepter_vpc_id = p.accepter_vpc_id;
    direction = p.direction;
    state = p.state;
    cross_region = p.cross_region;
    route_policy = value (x.marshal p.route_policy);
    route_count = p.route_count;
    region_id = "default";
    created_at = p.created_at;
    provisioned_at = none;
    deleted_at = none;
  }

  -- The columns that `Update` sets.
  abbrev pub set_columns : Peering → Json → Row → Row
  set_columns p policy r = record r {
    direction = p.direction;
    state = p.state;
    route_policy = some policy;
    route_count = p.route_count;
    provisioned_at = p.provisioned_at;
    deleted_at = p.deleted_at;
  }

  abbrev pub mark_deleted : Time → Row → Row
  mark_deleted now r = record r { state = PeeringState.deleted; deleted_at = some now }

  abbrev pub done : Result PgError ℕ → Result PgError (Unit {0})
  done (ok n) = ok tt
  done (err e) = err e

module _ (x : PgLib) (t : Table (Row x)) where
  open t use {State}

  unfoldable pub create : State → Peering → State × Result PgError (Unit {0})
  unfolding row_of
  create s p = t.insert (row_of x p) s

  unfoldable pub get : State → Uuid → Result PgError Peering
  unfolding scan_peering
  get s id = elim (t.query_row (by_id x id) s) [
    | ok r ↦ scan_peering x r
    | err e ↦ (elim e [ no_rows ↦ err (app err_not_found) | scan_failed ↦ err other ])
  ]

  unfoldable pub list :
      State
      → Uuid
      → Option Uuid
      → Option PeeringState
      → ListParams
      → Result PgError (ListResult Peering)
  unfolding scan_listed
  list s account_id vpc_id state params = do
    rows ← read_all t (list_query x account_id vpc_id state params) s
    ok (record { items = map (scan_listed x) rows; total_count = length rows })

  -- The number of rows that the statement changed is not looked at.
  unfoldable pub update : State → Peering → State × Result PgError (Unit {0})
  update s p = elim (x.marshal p.route_policy) [
    | err e ↦ (s, err other)
    | ok policy ↦
        (let r = t.update (set_columns x p policy) (by_id x p.id).conditions s in (r.0, done x r.1))
  ]

  unfoldable pub delete : State → Uuid → Time → State × Result PgError (Unit {0})
  delete s id now =
      let r = t.update (mark_deleted x now) ((λ r. r.id == id) ∷ is_present x ∷ []) s in
      (r.0, or_not_found r.1)

  unfoldable pub find_by_vpcs : State → Uuid → Uuid → Result PgError (Option Peering)
  unfolding get
  find_by_vpcs s a b = elim (t.query_row (by_vpcs x a b) s) [
    | ok r ↦ (get s r.id >>= λ p. ok (some p))
    | err e ↦ (elim e [ no_rows ↦ ok none | scan_failed ↦ err other ])
  ]

  unfoldable pub count_by_vpc : State → Uuid → Result PgError ℕ
  count_by_vpc s v = t.count (of_vpc x v ∷ is_live_row x ∷ []) s

  unfoldable pub list_by_state : State → PeeringState → Result PgError (List Peering)
  unfolding scan_listed
  list_by_state s state = do rows ← read_all t (by_state x state) s; ok (map (scan_listed x) rows)
