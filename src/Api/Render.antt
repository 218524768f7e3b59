-- ===== src/Api/Render.antt =====
-- internal/api: the responses, up to their encoding as JSON. The response's fresh identifier is left
-- out, and an error keeps its status and code.
use vpc_routing.Prelude.{ℕ, Bool, Option, none, some, String, List, map, ℤ}
use vpc_routing.Model.Netip.{Prefix, Addr}
use vpc_routing.Model.Policy.{RoutePolicy}
use vpc_routing.Model.Entities.{
  Uuid, Time, Vpc, VpcState, Peering, PeeringState, pending_acceptance, provisioning, degraded,
  failed, rejected, expired, PeeringDirection, bidirectional, requester_to_accepter,
  accepter_to_requester, other_direction, PeeringHealth, healthy, unwell, down, compute_health,
  PeeringEvent, EventType, peering_created, peering_accepted, peering_provisioned, peering_deleted,
  route_added, route_withdrawn, route_filtered, max_prefix_limit_reached, state_changed,
  cross_region_connectivity_lost, cross_region_connectivity_restored, policy_updated,
  bandwidth_limit_exceeded, RouteEntry, RouteState, withdrawn, filtered, RouteOrigin, direct,
  static, transit, AppError, ErrorCode,
}

-- The `String` methods of UUIDs, prefixes and addresses, and RFC 3339.
pub record Texts : Type 0 where
  pub of_uuid : Uuid → String
  pub of_prefix : Prefix → String
  pub of_addr : Addr → String
  pub of_time : Time → String

abbrev pub vpc_state_text : VpcState → String
vpc_state_text VpcState.active = "active"
vpc_state_text VpcState.deleting = "deleting"
vpc_state_text VpcState.deleted = "deleted"

abbrev pub state_text : PeeringState → String
state_text pending_acceptance = "pending_acceptance"
state_text provisioning = "provisioning"
state_text PeeringState.active = "active"
state_text degraded = "degraded"
state_text PeeringState.deleting = "deleting"
state_text failed = "failed"
state_text rejected = "rejected"
state_text expired = "expired"
state_text PeeringState.deleted = "deleted"

abbrev pub direction_text : PeeringDirection → String
direction_text bidirectional = "bidirectional"
direction_text requester_to_accepter = "requester_to_accepter"
direction_text accepter_to_requester = "accepter_to_requester"
direction_text (other_direction s) = s

abbrev pub health_text : PeeringHealth → String
health_text healthy = "healthy"
health_text unwell = "degraded"
health_text down = "down"

abbrev pub route_state_text : RouteState → String
route_state_text RouteState.active = "active"
route_state_text withdrawn = "withdrawn"
route_state_text filtered = "filtered"

abbrev pub origin_text : RouteOrigin → String
origin_text direct = "direct"
origin_text static = "static"
origin_text transit = "transit"

pub record VpcResponse : Type 0 where
  pub id : String
  pub account_id : String
  pub region_id : String
  pub name : String
  pub cidr_blocks : List String
  pub vni : ℕ
  pub vrf_name : String
  pub state : String
  pub peering_count : ℕ
  pub created_at : String

unfoldable pub vpc_to_response : Texts → Vpc → VpcResponse
vpc_to_response t v = record {
  id = t.of_uuid v.id;
  account_id = t.of_uuid v.account_id;
  region_id = v.region_id;
  name = v.name;
  cidr_blocks = map t.of_prefix v.cidr_blocks;
  vni = v.vni;
  vrf_name = v.vrf_name;
  state = vpc_state_text v.state;
  peering_count = v.peering_count;
  created_at = t.of_time v.created_at;
}

pub record RoutePolicyResponse : Type 0 where
  pub allowed_prefixes : List String
  pub denied_prefixes : List String
  pub max_prefixes : ℤ
  pub bandwidth_limit_mbps : Option ℤ

unfoldable pub policy_to_response : Texts → RoutePolicy → RoutePolicyResponse
policy_to_response t p = record {
  allowed_prefixes = map t.of_prefix p.allowed_prefixes;
  denied_prefixes = map t.of_prefix p.denied_prefixes;
  max_prefixes = p.max_prefixes;
  bandwidth_limit_mbps = p.bandwidth_limit_mbps;
}

-- Without the latency, which no code sets.
pub record PeeringResponse : Type 0 where
  pub id : String
  pub account_id : String
  pub requester_vpc_id : String
  pub accepter_vpc_id : String
  pub direction : String
  pub state : String
  pub health : String
  pub cross_region : Bool
  pub route_policy : RoutePolicyResponse
  pub route_count : ℕ
  pub created_at : String
  pub provisioned_at : Option String

abbrev time_text : Texts → Option Time → Option String
time_text t none = none
time_text t (some s) = some (t.of_time s)

unfoldable pub peering_to_response : Texts → Peering → PeeringResponse
unfolding policy_to_response
peering_to_response t p = record {
  id = t.of_uuid p.id;
  account_id = t.of_uuid p.account_id;
  requester_vpc_id = t.of_uuid p.requester_vpc_id;
  accepter_vpc_id = t.of_uuid p.accepter_vpc_id;
  direction = direction_text p.direction;
  state = state_text p.state;
  health = health_text (compute_health p);
  cross_region = p.cross_region;
  route_policy = policy_to_response t p.route_policy;
  route_count = p.route_count;
  created_at = t.of_time p.created_at;
  provisioned_at = time_text t p.provisioned_at;
}

pub record RouteEntryResponse : Type 0 where
  pub prefix : String
  pub origin_vpc_id : String
  pub state : String
  pub origin : String
  pub next_hop : String
  pub preference : ℕ

unfoldable pub route_to_response : Texts → RouteEntry → RouteEntryResponse
route_to_response t re = record {
  prefix = t.of_prefix re.prefix;
  origin_vpc_id = t.of_uuid re.origin_vpc_id;
  state = route_state_text re.state;
  origin = origin_text re.origin;
  next_hop = t.of_addr re.next_hop;
  preference = re.preference;
}

abbrev pub event_text : EventType → String
event_text peering_created = "peering_created"
event_text peering_accepted = "peering_accepted"
event_text peering_provisioned = "peering_provisioned"
event_text peering_deleted = "peering_deleted"
event_text route_added = "route_added"
event_text route_withdrawn = "route_withdrawn"
event_text route_filtered = "route_filtered"
event_text max_prefix_limit_reached = "max_prefix_limit_reached"
event_text state_changed = "state_changed"
event_text cross_region_connectivity_lost = "cross_region_connectivity_lost"
event_text cross_region_connectivity_restored = "cross_region_connectivity_restored"
event_text policy_updated = "policy_updated"
event_text bandwidth_limit_exceeded = "bandwidth_limit_exceeded"

-- Without the message, which the model's events do not have.
pub record EventResponse : Type 0 where
  pub id : String
  pub peering_id : String
  pub type : String
  pub timestamp : String

unfoldable pub event_to_response : Texts → PeeringEvent → EventResponse
event_to_response t e = record {
  id = t.of_uuid e.id;
  peering_id = t.of_uuid e.peering_id;
  type = event_text e.type;
  timestamp = t.of_time e.timestamp;
}

-- What a handler writes: a status, and a value, a list with its total, an error's code, or nothing.
pub data Body (A : Type 0) : Type 0 where
  value_body : A → Body A
  list_body : List A → ℕ → Body A
  error_body : ErrorCode → Body A
  text_body : String → Body A
  no_body : Body A

pub record Response (A : Type 0) : Type 0 where
  pub status : ℕ
  pub body : Body A

module _ {A : Type 0} where
  unfoldable pub write_success : A → Response A
  write_success a = record { status = 200; body = value_body a }

  unfoldable pub write_created : A → Response A
  write_created a = record { status = 201; body = value_body a }

  unfoldable pub write_list : List A → ℕ → Response A
  write_list items total = record { status = 200; body = list_body items total }

  unfoldable pub write_error : AppError → Response A
  write_error e = record { status = e.http_status; body = error_body e.code }

  unfoldable pub write_no_content : Response A
  write_no_content = record { status = 204; body = no_body }
