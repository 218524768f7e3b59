-- ===== src/Auth/Buckets/Ticks.antt =====
-- The eviction loop's tick in internal/auth/ratelimit.go, and a rate limiter's life: calls and ticks.
use vpc_routing.Prelude.{
  ◌-◌, ◌≤◌, ◌≡◌, refl, ap, arith, Option, none, some, List, [], ◌∷◌, length, ltb, nat_eq,
  if◌then◌else◌,
}
use vpc_routing.Prelude.Maps.{lookup}
use vpc_routing.Model.Entities.{Uuid, Time}
use vpc_routing.Auth.RateLimit.{
  RateLib, AccountLimiter, RateLimiter, RateLimitConfig, allow, drop_idle, evict_tick,
  eviction_interval, new_rate_limiter,
}
use vpc_routing.Auth.Buckets.{IsMap, Entries}
use vpc_routing.Auth.Buckets.Eviction.{Call, asks, ticks, IsBounded, allow-Answers}

module _ (lib : RateLib) where
  -- What is left of an entry at a cutoff.
  abbrev pub unless_idle : Time → Option (AccountLimiter lib) → Option (AccountLimiter lib)
  unless_idle cutoff none = none
  unless_idle cutoff (some l) = if ltb l.last_seen cutoff then none else some l

  length-drop_idle : (t : Time) (m : Entries lib) → length (drop_idle lib t m) ≤ length m
  unfolding drop_idle
  length-drop_idle t [] = omega arith
  length-drop_idle t ((k, l) ∷ m) = ground (arith, length-drop_idle t m)

  lookup-drop_idle :
      (t : Time) (b : Uuid) (m : Entries lib)
      → IsMap m
      → lookup b (drop_idle lib t m) ≡ unless_idle t (lookup b m)
  unfolding drop_idle lookup
  lookup-drop_idle t b [] w = refl
  lookup-drop_idle t b ((k, l) ∷ m) w =
      ground
        (arith, lookup-drop_idle t b m w.1, nat_eq.beq_iff k b, w.0, ap (λ (x : Uuid). lookup x m))

  drop_idle-IsMap : (t : Time) (m : Entries lib) → IsMap m → IsMap (drop_idle lib t m)
  unfolding drop_idle
  drop_idle-IsMap t [] w = tt
  drop_idle-IsMap t ((k, l) ∷ m) w =
      ground (arith, drop_idle-IsMap t m w.1, lookup-drop_idle t k m w.1, w.0)

  evict_tick-IsBounded :
      (now : Time) (rl : RateLimiter lib) → IsBounded lib rl → IsBounded lib (evict_tick lib now rl)
  unfolding evict_tick
  evict_tick-IsBounded now rl w = record {
    distinct = drop_idle-IsMap (now - eviction_interval) rl.limiters w.distinct;
    size = ground (arith, length-drop_idle (now - eviction_interval) rl.limiters, w.size);
  }

  -- A tick drops exactly the entries not seen within the interval.
  pub lookup-evict_tick :
      (now : Time) (b : Uuid) (rl : RateLimiter lib)
      → IsBounded lib rl
      → lookup b (evict_tick lib now rl).limiters
        ≡ unless_idle (now - eviction_interval) (lookup b rl.limiters)
  unfolding evict_tick
  lookup-evict_tick now b rl w = lookup-drop_idle (now - eviction_interval) b rl.limiters w.distinct

  abbrev pub called : Call → RateLimiter lib → RateLimiter lib
  called (asks kind now id) rl = (allow lib kind now id rl).0
  called (ticks now) rl = evict_tick lib now rl

  unfoldable pub run_calls : List Call → RateLimiter lib → RateLimiter lib
  run_calls [] rl = rl
  run_calls (c ∷ cs) rl = run_calls cs (called c rl)

  called-IsBounded :
      (c : Call) (rl : RateLimiter lib) → IsBounded lib rl → IsBounded lib (called c rl)
  called-IsBounded (asks kind now id) rl w = (allow-Answers lib kind now id rl w).bounded
  called-IsBounded (ticks now) rl w = evict_tick-IsBounded now rl w

  kept-IsBounded :
      (cs : List Call) (rl : RateLimiter lib) → IsBounded lib rl → IsBounded lib (run_calls cs rl)
  unfolding run_calls
  kept-IsBounded [] rl w = w
  kept-IsBounded (c ∷ cs) rl w = kept-IsBounded cs (called c rl) (called-IsBounded c rl w)

  -- Over any calls and eviction ticks, from a fresh rate limiter with any token bucket, the map
  -- holds at most 10,000 entries, and none twice for an account.
  pub run_calls-IsBounded :
      (cs : List Call) (config : RateLimitConfig)
      → IsBounded lib (run_calls cs (new_rate_limiter lib config))
  run_calls-IsBounded cs config =
      kept-IsBounded cs (new_rate_limiter lib config) (record { distinct = tt; size = omega arith })
