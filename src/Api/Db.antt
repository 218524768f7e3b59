-- ===== src/Api/Db.antt =====
-- What the handlers of internal/api share: the stores, what a request brings from outside, and how a
-- handler answers. A handler runs from one state of the stores to the next; its answer is the value
-- that the response renders, or the error.
use vpc_routing.Prelude.{ℕ, Option, none, some, String, List, Result, ok, err, Bool, true, false}
use vpc_routing.Model.Netip.{Prefix}
use vpc_routing.Model.Entities.{Uuid, Time, PeeringEvent, EventType, RouteEntry, AppError}
use vpc_routing.Store.Vpcs.{VpcStore}
use vpc_routing.Store.Peerings.{PeeringStore}
use vpc_routing.Store.Events
use vpc_routing.Vni.{Allocator}

pub record Db : Type 0 where
  pub vpcs : VpcStore
  pub peerings : PeeringStore
  pub events : List PeeringEvent
  pub routes : List RouteEntry
  pub alloc : Allocator

-- github.com/google/uuid, the text syntax of prefixes, and SHA-256: `text` is a UUID's `String`, and
-- `shard_hash` the first four bytes of the hash of its bytes.
pub record Externals : Type 0 where
  pub parse_uuid : String → Option Uuid
  pub text : Uuid → String
  pub parse_prefix : String → Option Prefix
  pub shard_hash : Uuid → ℕ

-- What one request draws: the caller's account, `uuid.New()` for the object and for the event, and
-- the clock.
pub record Env : Type 0 where
  pub ctx : Option Uuid
  pub new_id : Uuid
  pub event_id : Uuid
  pub now : Time

abbrev pub or_fail {ℓ} : {A : Type ℓ} → Option A → AppError → Result AppError A
or_fail none e = err e
or_fail (some a) e = ok a

abbrev pub is_none {ℓ} : {A : Type ℓ} → Option A → Bool
is_none none = true
is_none (some a) = false

unfoldable pub emit_event : Env → Db → Uuid → EventType → Db
unfolding Events.append
emit_event env db peering_id type = record db {
  events =
      Events.append db.events
        (record { id = env.event_id; peering_id = peering_id; type = type; timestamp = env.now });
}
