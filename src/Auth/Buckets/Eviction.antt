-- ===== src/Auth/Buckets/Eviction.antt =====
-- The size of the rate limiter's map, and what a request of one account does to the others.
use vpc_routing.Prelude.{
  ◌≤◌, ◌<◌, ◌≡◌, ◌⊎◌, refl, sym, ap, ◌∙◌, inl, inr, arith, Bool, false, Option, none, some,
  Option-cases, All, length, leb, ◌==◌, nat_eq, Bool-cases, subst,
}
use vpc_routing.Prelude.Maps.{
  lookup, insert, delete, lookup-insert, lookup-delete, lookup-insert_self,
}
use vpc_routing.Model.Entities.{Uuid, Time}
use vpc_routing.Auth.RateLimit.{
  RateLib, Kind, AccountLimiter, RateLimiter, RateLimitConfig, max_limiter_entries, fresh,
  find_oldest, without, evict_oldest, make_room, get_limiter, bucket, with_bucket, allow,
}
use vpc_routing.Auth.Buckets.{
  IsMap, insert-IsMap, delete-IsMap, length-insert_old, length-insert_any, length-delete_old,
  Entries, Oldest, find_oldest-Oldest, find_oldest-none,
}

-- A call of `Allow…` of some kind by an account, or a tick of the eviction loop, each at a time.
pub data Call : Type 0 where
  asks : Kind → Time → Uuid → Call
  ticks : Time → Call

module _ (lib : RateLib) where
  pub record IsBounded (rl : RateLimiter lib) : Type 0 where
    pub distinct : IsMap rl.limiters
    pub size : length rl.limiters ≤ max_limiter_entries

  -- The map after room is made for a newcomer: the one removed, if any, is among the least recently
  -- seen, and there was no room.
  record Roomy (m m' : Entries lib) : Type 0 where
    pub distinct : IsMap m'
    pub size : length m' < max_limiter_entries
    pub kept :
        (b : Uuid)
        → (lookup b m' ≡ lookup b m)
          ⊎ ((max_limiter_entries ≤ length m)
              × (lookup b m' ≡ none)
              × ((l : AccountLimiter lib) × (lookup b m ≡ some l)
                  × All (λ (e : Uuid × AccountLimiter lib). l.last_seen ≤ e.1.last_seen) m))

  evicted-Roomy :
      (m : Entries lib) (o : Option (Uuid × Time))
      → find_oldest lib m none ≡ o
      → IsMap m
      → length m ≡ max_limiter_entries
      → Roomy m (without lib o m)
  evicted-Roomy m none h w n =
      absurd (ground (arith, ap (λ (x : Entries lib). length x) (find_oldest-none lib m h)))
  evicted-Roomy m (some (id, t)) h w n =
      let r = find_oldest-Oldest lib m none id t w h in
      at r (elim r.source [ inl e ↦ absurd (clash e) | inr s ↦ s ])
    where
      clash : ◌≡◌ {A = Option (Uuid × Time)} none (some (id, t)) → ⊥
      clash z = cc

      at :
          Oldest lib m none id t
          → ((l : AccountLimiter lib) × (lookup id m ≡ some l) × (l.last_seen ≡ t))
          → Roomy m (delete id m)
      at r (l, f, e) = record {
        distinct = delete-IsMap id m w;
        size = ground (arith, length-delete_old id l m f);
        kept = λ b. elim (Bool-cases (id == b)) [
          | inl q ↦
              (let same = (nat_eq.beq_iff id b).0 q in
                inr (
                  ground (arith, n),
                  ground (arith, lookup-delete id b m),
                  (
                    l,
                    subst (λ (x : Uuid). lookup x m ≡ some l) same f,
                    subst
                        (λ (u : Time). All (λ (x : Uuid × AccountLimiter lib). u ≤ x.1.last_seen) m)
                        (sym e) r.least,
                  ),
                ))
          | inr q ↦ inl (ground (arith, lookup-delete id b m))
        ];
      }

  make_room-Roomy :
      (m : Entries lib) → IsMap m → length m ≤ max_limiter_entries → Roomy m (make_room lib m)
  unfolding make_room evict_oldest
  make_room-Roomy m w n = elim (Bool-cases (leb max_limiter_entries (length m))) [
    | inl e ↦ rw e (evicted-Roomy m (find_oldest lib m none) refl w (ground arith))
    | inr e ↦ rw e (record { distinct = w; size = ground arith; kept = λ b. inl refl })
  ]

  -- The account's entry, or the one that it would get.
  abbrev pub entry_or_fresh :
      RateLimitConfig → Time → Option (AccountLimiter lib) → AccountLimiter lib
  entry_or_fresh config now none = fresh lib config now
  entry_or_fresh config now (some l) = l

  -- An account's call at a time. The verdict is that of its own bucket, a fresh one if it has no entry;
  -- any other account keeps its entry, unless the map was full, the caller new, and that account among
  -- the least recently seen: then its entry is gone.
  pub record Answers (kind : Kind) (now : Time) (id : Uuid) (rl rl' : RateLimiter lib)
      (verdict : Bool) : Type 0 where
    pub own :
        verdict
        ≡ (lib.allow (bucket lib kind (entry_or_fresh rl.config now (lookup id rl.limiters))) now).1
    pub others :
        (b : Uuid)
        → (id == b) ≡ false
        → (lookup b rl'.limiters ≡ lookup b rl.limiters)
          ⊎ ((lookup id rl.limiters ≡ none)
              × (max_limiter_entries ≤ length rl.limiters)
              × (lookup b rl'.limiters ≡ none)
              × ((l : AccountLimiter lib) × (lookup b rl.limiters ≡ some l)
                  × All
                      (λ (e : Uuid × AccountLimiter lib). l.last_seen ≤ e.1.last_seen)
                      rl.limiters))
    pub bounded : IsBounded rl'
    pub same_config : rl'.config ≡ rl.config

  bucket_seen :
      (kind : Kind) (l : AccountLimiter lib) (now : Time)
      → bucket lib kind (record l { last_seen = now }) ≡ bucket lib kind l
  bucket_seen Kind.mutate l now = refl
  bucket_seen Kind.read l now = refl
  bucket_seen Kind.metrics l now = refl

  twice :
      (id b : Uuid) (u v : AccountLimiter lib) (m : Entries lib)
      → (id == b) ≡ false
      → lookup b (insert id v (insert id u m)) ≡ lookup b m
  twice id b u v m h =
      lookup-insert id b v (insert id u m) ∙ rw h (lookup-insert id b u m ∙ rw h refl)

  allow_known :
      (kind : Kind) (now : Time) (id : Uuid) (rl : RateLimiter lib) (l : AccountLimiter lib)
      → IsBounded rl
      → lookup id rl.limiters ≡ some l
      → Answers kind now id rl (allow lib kind now id rl).0 (allow lib kind now id rl).1
  unfolding allow get_limiter
  allow_known kind now id rl l w h = rw h (
      let seen : AccountLimiter lib = record l { last_seen = now } in
      let m = insert id seen rl.limiters in
      let b = (lib.allow (bucket lib kind seen) now).0 in
      record {
        own =
            ap (λ x. (lib.allow x now).1) (bucket_seen kind l now)
            ∙ ap (λ (x : Option (AccountLimiter lib)). verdict_of x) (sym h);
        others = λ c e. inl (twice id c seen (with_bucket lib kind b seen) rl.limiters e);
        bounded = record {
          distinct = insert-IsMap id _ m (insert-IsMap id seen rl.limiters w.distinct);
          size = ground (
            arith,
            length-insert_old id (with_bucket lib kind b seen) seen m
                (lookup-insert_self id seen rl.limiters),
            length-insert_old id seen l rl.limiters h,
            w.size,
          );
        };
        same_config = refl;
      })
    where
      verdict_of : Option (AccountLimiter lib) → Bool
      verdict_of o = (lib.allow (bucket lib kind (entry_or_fresh rl.config now o)) now).1

  allow_new :
      (kind : Kind) (now : Time) (id : Uuid) (rl : RateLimiter lib)
      → IsBounded rl
      → lookup id rl.limiters ≡ none
      → Answers kind now id rl (allow lib kind now id rl).0 (allow lib kind now id rl).1
  unfolding allow get_limiter
  allow_new kind now id rl w h = rw h (
      let l = fresh lib rl.config now in
      let room = make_room-Roomy rl.limiters w.distinct w.size in
      let m = insert id l (make_room lib rl.limiters) in
      let b = (lib.allow (bucket lib kind l) now).0 in
      record {
        own = ap (λ (x : Option (AccountLimiter lib)). verdict_of x) (sym h);
        others = λ c e.
            (let same = twice id c l (with_bucket lib kind b l) (make_room lib rl.limiters) e in
              elim (room.kept c) [
                | inl q ↦ inl (same ∙ q)
                | inr (full, gone, who) ↦ inr (h, full, same ∙ gone, who)
              ]);
        bounded = record {
          distinct =
              insert-IsMap id _ m (insert-IsMap id l (make_room lib rl.limiters) room.distinct);
          size = ground (
            arith,
            length-insert_old id (with_bucket lib kind b l) l m
                (lookup-insert_self id l (make_room lib rl.limiters)),
            length-insert_any id l (make_room lib rl.limiters),
            room.size,
          );
        };
        same_config = refl;
      })
    where
      verdict_of : Option (AccountLimiter lib) → Bool
      verdict_of o = (lib.allow (bucket lib kind (entry_or_fresh rl.config now o)) now).1

  -- With any token bucket, a call of the rate limiter answers as the bucket of the caller's own
  -- entry and kind does, a fresh one if it has no entry; every other account keeps its entry,
  -- unless the map was full and the caller new: then one that no other was seen before may go.
  pub allow-Answers :
      (kind : Kind) (now : Time) (id : Uuid) (rl : RateLimiter lib)
      → IsBounded rl
      → Answers kind now id rl (allow lib kind now id rl).0 (allow lib kind now id rl).1
  allow-Answers kind now id rl w = elim (Option-cases (lookup id rl.limiters)) [
    | inl e ↦ allow_new kind now id rl w e
    | inr (l, e) ↦ allow_known kind now id rl l w e
  ]
