-- ===== src/Store/Postgres.antt =====
-- What internal/store/postgres.go uses of PostgreSQL through pgx, and what it relies on. A table is a
-- parameter: its statements act on a state that only they can see. The text of a statement is
-- translated to what it says: WHERE to the conditions on a row, SET to a function of the row,
-- ORDER BY created_at DESC to `is_ordered`. A condition is on columns that are never NULL.
pub mod Tables
pub mod Vpcs
pub mod Peerings
pub mod Events
pub mod Selections
pub mod EventRefinement
pub mod VpcRefinement
pub mod PeeringRefinement
use vpc_routing.Prelude.{
  ℕ, ◌≤◌, ◌≡◌, ◌≢◌, ◌⊎◌, Bool, true, false, ◌&&◌, Option, none, some, String, List, [], ◌∷◌, ◌++◌,
  map, if◌then◌else◌, length, min, All, In, Pairwise, any, count_by, Result, ok, err, ◌>>=◌, zero,
  suc,
}
use vpc_routing.Model.Netip.{Prefix, IsPrefix, invalid_prefix}
use vpc_routing.Model.Policy.{RoutePolicy}
use vpc_routing.Model.Entities.{Uuid, Time, AppError, err_not_found}

-- An `AppError`, or an error of the database, the driver or the JSON package.
pub data PgError : Type 0 where
  app : AppError → PgError
  other : PgError

-- What `Scan` of a single row reports: `pgx.ErrNoRows`, or another error.
pub data RowError : Type 0 where
  no_rows scan_failed : RowError

pub record Query (Row : Type 0) : Type 0 where
  pub conditions : List (Row → Bool)
  pub is_ordered : Bool
  pub limit : Option ℕ

-- `pgx.Rows`: what `Scan` gives at each `Next`, and the error that ended the reading, which
-- `rows.Err()` would report.
pub record Rows (Row : Type 0) : Type 0 where
  pub scanned : List (Result PgError Row)
  pub failure : Option PgError

-- The pool, on one table.
pub record Table (Row : Type 0) : Type 1 where
  pub State : Type 0
  pub query : Query Row → State → Result PgError (Rows Row)
  pub query_row : Query Row → State → Result RowError Row
  pub count : List (Row → Bool) → State → Result PgError ℕ
  pub insert : Row → State → State × Result PgError (Unit {0})
  pub update : (Row → Row) → List (Row → Bool) → State → State × Result PgError ℕ

-- `netip.Prefix.String` and `ParsePrefix`; `json.Marshal` and `json.Unmarshal` of a route policy,
-- where JSONB keeps the document and not its text; and the time that a TIMESTAMPTZ column keeps.
pub record PgLib : Type 1 where
  pub prefix_text : Prefix → String
  pub parse_prefix : String → Option Prefix
  pub Json : Type 0
  pub marshal : RoutePolicy → Result PgError Json
  pub unmarshal : Json → Result PgError RoutePolicy
  pub column_time : Time → Time

abbrev pub column_option_time : (Time → Time) → Option Time → Option Time
column_option_time round none = none
column_option_time round (some t) = some (round t)

abbrev pub limited : Option ℕ → ℕ → ℕ
limited none n = n
limited (some k) n = min k n

-- `tag.RowsAffected() == 0` is an error.
abbrev pub or_not_found : Result PgError ℕ → Result PgError (Unit {0})
or_not_found (ok zero) = err (app err_not_found)
or_not_found (ok (suc n)) = ok tt
or_not_found (err e) = err e

module _ {Row : Type 0} where
  -- All the conditions of a WHERE clause.
  abbrev pub holds_all : List (Row → Bool) → Row → Bool
  holds_all [] r = true
  holds_all (c ∷ cs) r = c r && holds_all cs r

  -- UPDATE … SET … WHERE, on one row.
  abbrev pub set_where : (Row → Row) → List (Row → Bool) → Row → Row
  set_where set cs r = if holds_all cs r then set r else r

  -- The loop over `rows.Next()`, which returns the first error of `Scan`.
  unfoldable pub scan_all : List (Result PgError Row) → Result PgError (List Row)
  scan_all [] = ok []
  scan_all (r ∷ rest) = do row ← r; items ← scan_all rest; ok (row ∷ items)

  -- `Query` and the loop; `rows.Err()` is not called.
  unfoldable pub read_all : (t : Table Row) → Query Row → t.State → Result PgError (List Row)
  unfolding scan_all
  read_all t q s = t.query q s >>= λ rows. scan_all rows.scanned

  -- What a SELECT gives of a table: rows that meet the conditions, as many as the limit lets through,
  -- all of them where it lets them through, and with ORDER BY the newest, newest first.
  pub record IsSelection (time : Row → Time) (q : Query Row) (table : List Row) (answer : List Row)
      : Type 0 where
    pub size : length answer ≡ limited q.limit (count_by (holds_all q.conditions) table)
    pub among : (r : Row) → In r answer → In r table × (holds_all q.conditions r ≡ true)
    pub sorted : q.is_ordered ≡ true → Pairwise (λ a b. time b ≤ time a) answer
    pub complete :
        (r : Row)
        → limited q.limit (count_by (holds_all q.conditions) table)
          ≡ count_by (holds_all q.conditions) table
        → In r table
        → holds_all q.conditions r ≡ true
        → In r answer
    pub newest :
        (r : Row)
        → q.is_ordered ≡ true
        → In r table
        → holds_all q.conditions r ≡ true
        → In r answer ⊎ All (λ a. time r ≤ time a) answer

  -- What PostgreSQL and pgx document of one table, for statements that succeed. `rows` is its contents
  -- in the order of insertion, `key` its primary key, and `stored` rounds the times of a row.
  pub record IsTable (t : Table Row) (key : Row → Uuid) (time : Row → Time) (stored : Row → Row)
      (rows : t.State → List Row) : Type 0 where
    pub inserted :
        (r : Row) (s : t.State)
        → (t.insert r s).1 ≡ ok tt
        → rows (t.insert r s).0 ≡ rows s ++ stored r ∷ []
    pub inserted_new :
        (r : Row) (s : t.State) → (t.insert r s).1 ≡ ok tt → All (λ a. key a ≢ key r) (rows s)
    pub updated :
        (set : Row → Row) (cs : List (Row → Bool)) (s : t.State) (n : ℕ)
        → (t.update set cs s).1 ≡ ok n
        → rows (t.update set cs s).0 ≡ map (set_where (λ r. stored (set r)) cs) (rows s)
    pub affected :
        (set : Row → Row) (cs : List (Row → Bool)) (s : t.State) (n : ℕ)
        → (t.update set cs s).1 ≡ ok n
        → n ≡ count_by (holds_all cs) (rows s)
    pub found :
        (q : Query Row) (s : t.State) (r : Row)
        → t.query_row q s ≡ ok r
        → In r (rows s) × (holds_all q.conditions r ≡ true)
    pub missing :
        (q : Query Row) (s : t.State)
        → t.query_row q s ≡ err no_rows
        → any (holds_all q.conditions) (rows s) ≡ false
    pub counted :
        (cs : List (Row → Bool)) (s : t.State) (n : ℕ)
        → t.count cs s ≡ ok n
        → n ≡ count_by (holds_all cs) (rows s)
    pub selected :
        (q : Query Row) (s : t.State) (r : Rows Row) (answer : List Row)
        → t.query q s ≡ ok r
        → r.failure ≡ none
        → r.scanned ≡ map ok answer
        → IsSelection time q (rows s) answer

  -- No reading of rows ends before its last row.
  abbrev pub IsReliable : Table Row → Type 0
  IsReliable t =
      (q : Query Row) (s : t.State) (r : Rows Row) → t.query q s ≡ ok r → r.failure ≡ none

-- What net/netip, encoding/json and the driver document.
pub record IsPgLib (x : PgLib) : Type 0 where
  pub parse-text : (p : Prefix) → IsPrefix p → x.parse_prefix (x.prefix_text p) ≡ some p
  pub marshals : (p : RoutePolicy) → (j : x.Json) × (x.marshal p ≡ ok j)
  pub unmarshal-marshal :
      (p : RoutePolicy) (j : x.Json)
      → All IsPrefix p.allowed_prefixes
      → All IsPrefix p.denied_prefixes
      → x.marshal p ≡ ok j
      → x.unmarshal j ≡ ok p
  pub column_time_twice : (n : Time) → x.column_time (x.column_time n) ≡ x.column_time n

-- A stored text that does not parse is read as the zero prefix: the error is dropped.
abbrev pub read_block : PgLib → String → Prefix
read_block x s = elim (x.parse_prefix s) [ some p ↦ p | none ↦ invalid_prefix ]
