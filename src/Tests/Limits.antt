-- ===== src/Tests/Limits.antt =====
-- A rate limiter over a bucket that never refills.
use vpc_routing.Prelude.{ℕ, zero, suc, Bool, true, false, List, [], ◌∷◌}
use vpc_routing.Auth.RateLimit.{
  RateLib, RateLimiter, default_rate_limit_config, new_rate_limiter, allow,
}
use vpc_routing.Auth.RateLimit.{Kind}
use vpc_routing.Auth.Buckets.Eviction.{Call, asks, ticks, IsBounded, Answers, allow-Answers}
use vpc_routing.Auth.Buckets.Ticks.{run_calls, run_calls-IsBounded}

abbrev take_token : ℕ → ℕ × Bool
take_token zero = (zero, false)
take_token (suc n) = (n, true)

abbrev pub bucket_of_tokens : RateLib
bucket_of_tokens = record {
  Limiter = ℕ;
  new_limiter = λ interval burst. burst;
  allow = λ n now. take_token n;
}

abbrev calls : List Call
calls =
    asks Kind.mutate 1000 1
    ∷ asks Kind.read 2000 2
    ∷ asks Kind.mutate 3000 1
    ∷ ticks 600_000_000_000
    ∷ []

abbrev used : RateLimiter bucket_of_tokens
used =
    run_calls bucket_of_tokens calls (new_rate_limiter bucket_of_tokens default_rate_limit_config)

used-IsBounded : IsBounded bucket_of_tokens used
used-IsBounded = run_calls-IsBounded bucket_of_tokens calls default_rate_limit_config

allow-Answers_example :
    Answers bucket_of_tokens Kind.mutate 4000 1 used
      (allow bucket_of_tokens Kind.mutate 4000 1 used).0
      (allow bucket_of_tokens Kind.mutate 4000 1 used).1
allow-Answers_example = allow-Answers bucket_of_tokens Kind.mutate 4000 1 used used-IsBounded
