-- ===== src/Config.antt =====
-- internal/config/config.go. The environment, strconv.Atoi, time.ParseDuration and the split of a list at
-- its commas are a parameter; durations are in nanoseconds.
use vpc_routing.Prelude.{
  ℕ, suc, ◌-◌, ◌*◌, ◌%◌, ◌^◌, Option, none, some, String, List, [], ◌∷◌, if◌then◌else◌, ◌==◌,
  string_eq, ℤ, pos, negsuc,
}

-- A variable that is not set reads as the empty text.
pub record Environment : Type 0 where
  pub getenv : String → String
  pub atoi : String → Option ℤ
  pub parse_duration : String → Option ℤ
  pub split_commas : String → List String

pub record RegionConfig : Type 0 where
  pub name : String
  pub id : ℕ

pub record ApiConfig : Type 0 where
  pub port : String
  pub regions : List RegionConfig

pub record BgpConfig : Type 0 where
  pub local_asn : ℕ
  pub router_id : String
  pub listen_port : ℤ
  pub route_reflectors : List String

pub record ControllerConfig : Type 0 where
  pub reconcile_interval : ℤ
  pub provisioning_timeout : ℤ
  pub pending_expiry_days : ℤ
  pub max_retries : ℤ
  pub bgp : BgpConfig

pub record AgentConfig : Type 0 where
  pub reconcile_interval : ℤ
  pub controller_addr : String

abbrev pub seconds : ℕ → ℤ
seconds n = pos (n * 1_000_000_000)

-- `uint32(n)`.
abbrev pub to_uint32 : ℤ → ℕ
to_uint32 (pos n) = n % 2 ^ 32
to_uint32 (negsuc n) = 2 ^ 32 - suc (n % 2 ^ 32)

abbrev parsed_or {ℓ} : {A : Type ℓ} → A → Option A → A
parsed_or fallback none = fallback
parsed_or fallback (some v) = v

module _ (env : Environment) where
  abbrev pub env_or : (key fallback : String) → String
  env_or key fallback = let v = env.getenv key in if v == "" then fallback else v

  abbrev pub env_int : String → ℤ → ℤ
  env_int key fallback =
      let v = env.getenv key in if v == "" then fallback else parsed_or fallback (env.atoi v)

  abbrev pub env_duration : String → ℤ → ℤ
  env_duration key fallback =
      let v = env.getenv key in
      if v == "" then fallback else parsed_or fallback (env.parse_duration v)

  abbrev pub env_list : String → List String → List String
  env_list key fallback = let v = env.getenv key in if v == "" then fallback else env.split_commas v

  unfoldable pub load_api_config : ApiConfig
  load_api_config = record {
    port = env_or "PORT" "8080";
    regions =
        record { name = "us-east-1"; id = 0 }
        ∷ record { name = "us-west-1"; id = 1 }
        ∷ record { name = "eu-west-1"; id = 2 }
        ∷ [];
  }

  unfoldable pub load_bgp_config : BgpConfig
  load_bgp_config = record {
    local_asn = to_uint32 (env_int "BGP_LOCAL_ASN" (pos 65000));
    router_id = env_or "BGP_ROUTER_ID" "10.0.0.1";
    listen_port = env_int "BGP_LISTEN_PORT" (pos 179);
    route_reflectors = env_list "BGP_ROUTE_REFLECTORS" ("10.0.0.100" ∷ []);
  }

  unfoldable pub load_controller_config : ControllerConfig
  unfolding load_bgp_config
  load_controller_config = record {
    reconcile_interval = env_duration "RECONCILE_INTERVAL" (seconds 10);
    provisioning_timeout = env_duration "PROVISIONING_TIMEOUT" (seconds 300);
    pending_expiry_days = env_int "PENDING_EXPIRY_DAYS" (pos 7);
    max_retries = env_int "MAX_RETRIES" (pos 10);
    bgp = load_bgp_config;
  }

  unfoldable pub load_agent_config : AgentConfig
  load_agent_config = record {
    reconcile_interval = env_duration "AGENT_RECONCILE_INTERVAL" (seconds 30);
    controller_addr = env_or "CONTROLLER_ADDR" "localhost:9090";
  }
