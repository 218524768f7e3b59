-- ===== src/Auth/RateLimit.antt =====
-- internal/auth/ratelimit.go. The token buckets are golang.org/x/time/rate, a parameter here. A call
-- takes the map's lock, then asks the account's bucket; the two are one step. No rate is 0: the source
-- would panic at the division.
use vpc_routing.Prelude.{
  ℕ, ◌-◌, ◌*◌, ◌/◌, Bool, Option, none, some, [], ◌∷◌, if◌then◌else◌, ltb, leb, nat_eq, length,
}
use vpc_routing.Prelude.Maps.{Map, lookup, insert, delete}
use vpc_routing.Model.Entities.{Uuid, Time}

-- `rate.NewLimiter(rate.Every(interval), burst)`, and `Allow` at a time.
pub record RateLib : Type 1 where
  pub Limiter : Type 0
  pub new_limiter : (interval burst : ℕ) → Limiter
  pub allow : Limiter → Time → Limiter × Bool

abbrev pub max_limiter_entries : ℕ
max_limiter_entries = 10000

abbrev pub minute : ℕ
minute = 60 * 1_000_000_000

abbrev pub eviction_interval : ℕ
eviction_interval = 5 * minute

pub record RateLimitConfig : Type 0 where
  pub mutate_per_minute : ℕ
  pub read_per_minute : ℕ
  pub metrics_per_minute : ℕ

abbrev pub default_rate_limit_config : RateLimitConfig
default_rate_limit_config = record {
  mutate_per_minute = 60;
  read_per_minute = 300;
  metrics_per_minute = 120;
}

-- The three kinds of operation, by the method that asks.
pub data Kind : Type 0 where
  mutate read metrics : Kind

module _ (lib : RateLib) where
  open lib use {Limiter}

  pub record AccountLimiter : Type 0 where
    pub mutate : Limiter
    pub read : Limiter
    pub metrics : Limiter
    pub last_seen : Time

  pub record RateLimiter : Type 0 where
    pub limiters : Map Uuid AccountLimiter
    pub config : RateLimitConfig

  abbrev pub new_rate_limiter : RateLimitConfig → RateLimiter
  new_rate_limiter config = record { limiters = []; config = config }

  abbrev pub per_minute : ℕ → Limiter
  per_minute n = lib.new_limiter (minute / n) n

  abbrev pub fresh : RateLimitConfig → Time → AccountLimiter
  fresh config now = record {
    mutate = per_minute config.mutate_per_minute;
    read = per_minute config.read_per_minute;
    metrics = per_minute config.metrics_per_minute;
    last_seen = now;
  }

  -- The oldest entry so far: `first` is that there is none.
  abbrev pub older : Option (Uuid × Time) → Uuid → Time → Option (Uuid × Time)
  older none id t = some (id, t)
  older (some (i, u)) id t = if ltb t u then some (id, t) else some (i, u)

  unfoldable pub find_oldest : Map Uuid AccountLimiter → Option (Uuid × Time) → Option (Uuid × Time)
  find_oldest [] acc = acc
  find_oldest ((id, l) ∷ m) acc = find_oldest m (older acc id l.last_seen)

  abbrev pub without : Option (Uuid × Time) → Map Uuid AccountLimiter → Map Uuid AccountLimiter
  without none m = m
  without (some (id, t)) m = delete id m

  unfoldable pub evict_oldest : Map Uuid AccountLimiter → Map Uuid AccountLimiter
  unfolding find_oldest
  evict_oldest m = without (find_oldest m none) m

  unfoldable pub make_room : Map Uuid AccountLimiter → Map Uuid AccountLimiter
  unfolding evict_oldest
  make_room m = if leb max_limiter_entries (length m) then evict_oldest m else m

  abbrev pub limiter_of :
      Time → Uuid → RateLimiter → Option AccountLimiter → RateLimiter × AccountLimiter
  limiter_of now id rl (some l) =
      let seen = record l { last_seen = now } in
      (record rl { limiters = insert id seen rl.limiters }, seen)
  limiter_of now id rl none =
      let l = fresh rl.config now in
      (record rl { limiters = insert id l (make_room rl.limiters) }, l)

  unfoldable pub get_limiter : Time → Uuid → RateLimiter → RateLimiter × AccountLimiter
  unfolding make_room
  get_limiter now id rl = limiter_of now id rl (lookup id rl.limiters)

  abbrev pub bucket : Kind → AccountLimiter → Limiter
  bucket mutate l = l.mutate
  bucket read l = l.read
  bucket metrics l = l.metrics

  abbrev pub with_bucket : Kind → Limiter → AccountLimiter → AccountLimiter
  with_bucket mutate b l = record l { mutate = b }
  with_bucket read b l = record l { read = b }
  with_bucket metrics b l = record l { metrics = b }

  -- `AllowMutate`, `AllowRead` and `AllowMetrics`: the bucket that is asked is the one in the map.
  unfoldable pub allow : Kind → Time → Uuid → RateLimiter → RateLimiter × Bool
  allow kind now id rl =
      let (rl', l) = get_limiter now id rl in
      let (b, verdict) = lib.allow (bucket kind l) now in
      (record rl' { limiters = insert id (with_bucket kind b l) rl'.limiters }, verdict)

  -- The loop over the map that drops idle entries.
  unfoldable pub drop_idle : Time → Map Uuid AccountLimiter → Map Uuid AccountLimiter
  drop_idle cutoff [] = []
  drop_idle cutoff ((id, l) ∷ m) =
      if ltb l.last_seen cutoff then drop_idle cutoff m else (id, l) ∷ drop_idle cutoff m

  -- One tick of `evictLoop`.
  unfoldable pub evict_tick : Time → RateLimiter → RateLimiter
  unfolding drop_idle
  evict_tick now rl = record rl { limiters = drop_idle (now - eviction_interval) rl.limiters }
