-- ===== src/Model/Entities.antt =====
-- internal/model/vpc.go, peering.go, route.go, event.go and errors.go: the records that the stores
-- keep, and the errors of the API. A UUID is its 16 bytes read as a number, so `uuid.Nil` is 0; a
-- time is a count of nanoseconds. Of an error its HTTP status and code are kept, not its text.
use vpc_routing.Prelude.{
  ℕ, ◌≡◌, ◌↔◌, Bool, true, false, Option, String, List, arith, Eq, nat_beq, if◌then◌else◌,
}
use vpc_routing.Model.Netip.{Prefix, Addr}
use vpc_routing.Model.Policy.{RoutePolicy}

abbrev pub Uuid : Type 0
Uuid = ℕ

abbrev pub nil_uuid : Uuid
nil_uuid = 0

abbrev pub Time : Type 0
Time = ℕ

-- vpc.go

pub data VpcState : Type 0 where
  active deleting deleted : VpcState

pub record Vpc : Type 0 where
  pub id : Uuid
  pub account_id : Uuid
  pub region_id : String
  pub name : String
  pub cidr_blocks : List Prefix
  pub vni : ℕ
  pub vrf_name : String
  pub rd : String
  pub export_rt : String
  pub state : VpcState
  pub peering_count : ℕ
  pub created_at : Time
  pub deleted_at : Option Time

abbrev pub is_deleted : VpcState → Bool
is_deleted VpcState.deleted = true
is_deleted _ = false

-- peering.go

pub data PeeringState : Type 0 where
  pending_acceptance provisioning active degraded deleting failed rejected expired deleted :
      PeeringState

abbrev pub state_beq : PeeringState → PeeringState → Bool
state_beq pending_acceptance pending_acceptance = true
state_beq provisioning provisioning = true
state_beq PeeringState.active PeeringState.active = true
state_beq degraded degraded = true
state_beq PeeringState.deleting PeeringState.deleting = true
state_beq failed failed = true
state_beq rejected rejected = true
state_beq expired expired = true
state_beq PeeringState.deleted PeeringState.deleted = true
state_beq _ _ = false

pub state_beq_iff : (s t : PeeringState) → (state_beq s t ≡ true) ↔ (s ≡ t)
state_beq_iff pending_acceptance t = ground arith
state_beq_iff provisioning t = ground arith
state_beq_iff PeeringState.active t = ground arith
state_beq_iff degraded t = ground arith
state_beq_iff PeeringState.deleting t = ground arith
state_beq_iff failed t = ground arith
state_beq_iff rejected t = ground arith
state_beq_iff expired t = ground arith
state_beq_iff PeeringState.deleted t = ground arith

instance abbrev pub state_eq : Eq PeeringState
state_eq = record { beq = state_beq; beq_iff = state_beq_iff }

-- A direction is a string in the source: the three that mean something, and any other.
pub data PeeringDirection : Type 0 where
  bidirectional requester_to_accepter accepter_to_requester : PeeringDirection
  other_direction : String → PeeringDirection

pub data PeeringHealth : Type 0 where
  healthy unwell down : PeeringHealth

-- `LatencyMs` and `Health` are set by no code.
pub record Peering : Type 0 where
  pub id : Uuid
  pub account_id : Uuid
  pub requester_vpc_id : Uuid
  pub accepter_vpc_id : Uuid
  pub direction : PeeringDirection
  pub state : PeeringState
  pub cross_region : Bool
  pub route_policy : RoutePolicy
  pub route_count : ℕ
  pub created_at : Time
  pub provisioned_at : Option Time
  pub deleted_at : Option Time

abbrev health_of : PeeringState → ℕ → PeeringHealth
health_of PeeringState.active n = if nat_beq n 0 then unwell else healthy
health_of degraded n = unwell
health_of _ n = down

unfoldable pub compute_health : Peering → PeeringHealth
compute_health p = health_of p.state p.route_count

-- route.go

pub data RouteOrigin : Type 0 where
  direct static transit : RouteOrigin

pub data RouteState : Type 0 where
  active withdrawn filtered : RouteState

pub record RouteEntry : Type 0 where
  pub prefix : Prefix
  pub origin_vpc_id : Uuid
  pub peering_id : Uuid
  pub next_hop : Addr
  pub vni : ℕ
  pub origin : RouteOrigin
  pub preference : ℕ
  pub state : RouteState

-- Lower is preferred.
abbrev pub preference_for_origin : RouteOrigin → ℕ
preference_for_origin direct = 100
preference_for_origin static = 200
preference_for_origin transit = 300

-- event.go

pub data EventType : Type 0 where
  peering_created peering_accepted peering_provisioned peering_deleted : EventType
  route_added route_withdrawn route_filtered max_prefix_limit_reached : EventType
  state_changed cross_region_connectivity_lost cross_region_connectivity_restored : EventType
  policy_updated bandwidth_limit_exceeded : EventType

pub record PeeringEvent : Type 0 where
  pub id : Uuid
  pub peering_id : Uuid
  pub type : EventType
  pub timestamp : Time

-- errors.go

pub data ErrorCode : Type 0 where
  invalid_input invalid_cidr unauthenticated permission_denied not_found : ErrorCode
  cidr_overlap duplicate_peering has_active_peerings invalid_state conflict : ErrorCode
  quota_exceeded vni_exhausted rate_limited : ErrorCode

pub record AppError : Type 0 where
  pub http_status : ℕ
  pub code : ErrorCode

abbrev pub err_invalid_input : AppError
err_invalid_input = record { http_status = 400; code = invalid_input }

abbrev pub err_invalid_cidr : AppError
err_invalid_cidr = record { http_status = 400; code = invalid_cidr }

abbrev pub err_unauthenticated : AppError
err_unauthenticated = record { http_status = 401; code = unauthenticated }

abbrev pub err_permission_denied : AppError
err_permission_denied = record { http_status = 403; code = permission_denied }

abbrev pub err_not_found : AppError
err_not_found = record { http_status = 404; code = not_found }

abbrev pub err_cidr_overlap : AppError
err_cidr_overlap = record { http_status = 409; code = cidr_overlap }

abbrev pub err_duplicate_peering : AppError
err_duplicate_peering = record { http_status = 409; code = duplicate_peering }

abbrev pub err_has_active_peerings : AppError
err_has_active_peerings = record { http_status = 409; code = has_active_peerings }

abbrev pub err_invalid_state : AppError
err_invalid_state = record { http_status = 409; code = invalid_state }

abbrev pub err_conflict : AppError
err_conflict = record { http_status = 409; code = conflict }

abbrev pub err_quota_exceeded : AppError
err_quota_exceeded = record { http_status = 422; code = quota_exceeded }

abbrev pub err_vni_exhausted : AppError
err_vni_exhausted = record { http_status = 422; code = vni_exhausted }

abbrev pub err_rate_limited : AppError
err_rate_limited = record { http_status = 429; code = rate_limited }
