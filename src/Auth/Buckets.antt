-- ===== src/Auth/Buckets.antt =====
-- What the rate limiter of internal/auth/ratelimit.go keeps, over any token bucket.
pub mod Eviction
pub mod Ticks
use vpc_routing.Prelude.{
  ℕ, zero, suc, ◌+◌, ◌-◌, ◌≤◌, ◌<◌, ◌≡◌, ◌≢◌, ◌⊎◌, refl, sym, ap, ◌∙◌, inl, inr, arith, Bool, true,
  false, ◌&&◌, ◌||◌, not, Option, none, some, Option-cases, List, [], ◌∷◌, All, length, ltb, leb,
  ◌==◌, nat_eq, Bool-cases, if◌then◌else◌, subst,
}
use vpc_routing.Prelude.Maps.{
  Map, lookup, insert, delete, lookup-insert, lookup-delete, lookup-insert_self,
}
use vpc_routing.Model.Entities.{Uuid, Time}
use vpc_routing.Auth.RateLimit.{
  RateLib, Kind, mutate, read, metrics, AccountLimiter, RateLimiter, RateLimitConfig,
  max_limiter_entries, fresh, older, find_oldest, without, evict_oldest, make_room, limiter_of,
  get_limiter, bucket, with_bucket, allow, drop_idle, evict_tick, eviction_interval,
  new_rate_limiter,
}

-- No key has two entries.
abbrev pub IsMap : {V : Type 0} → Map Uuid V → Type 0
IsMap [] = Unit
IsMap ((k, v) ∷ m) = (lookup k m ≡ none) × IsMap m

module _ {V : Type 0} where
  pub insert-IsMap : (k : Uuid) (v : V) (m : Map Uuid V) → IsMap m → IsMap (insert k v m)
  unfolding insert lookup
  insert-IsMap k v [] h = (refl, tt)
  insert-IsMap k v ((j, w) ∷ m) h = ground (arith, insert-IsMap k v m h.1, lookup-insert k j v m)

  pub delete-IsMap : (k : Uuid) (m : Map Uuid V) → IsMap m → IsMap (delete k m)
  unfolding delete
  delete-IsMap k [] h = tt
  delete-IsMap k ((j, w) ∷ m) h = ground (arith, delete-IsMap k m h.1, lookup-delete k j m)

  pub length-insert_old :
      (k : Uuid) (v w : V) (m : Map Uuid V) → lookup k m ≡ some w → length (insert k v m) ≡ length m
  unfolding insert lookup
  length-insert_old k v w [] h = cc
  length-insert_old k v w ((j, u) ∷ m) h = ground (arith, length-insert_old k v w m)

  pub length-insert_any :
      (k : Uuid) (v : V) (m : Map Uuid V) → length (insert k v m) ≤ suc (length m)
  unfolding insert
  length-insert_any k v [] = omega arith
  length-insert_any k v ((j, u) ∷ m) = ground (arith, length-insert_any k v m)

  pub length-delete_any : (k : Uuid) (m : Map Uuid V) → length (delete k m) ≤ length m
  unfolding delete
  length-delete_any k [] = omega arith
  length-delete_any k ((j, u) ∷ m) = ground (arith, length-delete_any k m)

  pub length-delete_old :
      (k : Uuid) (w : V) (m : Map Uuid V) → lookup k m ≡ some w → length (delete k m) < length m
  unfolding delete lookup
  length-delete_old k w [] h = cc
  length-delete_old k w ((j, u) ∷ m) h =
      ground (arith, length-delete_old k w m, length-delete_any k m)

module _ (lib : RateLib) where
  abbrev pub Entries : Type 0
  Entries = Map Uuid (AccountLimiter lib)

  -- The entry that is found has the earliest time of all.
  pub record Oldest (m : Entries) (acc : Option (Uuid × Time)) (id : Uuid) (t : Time) : Type 0 where
    pub least : All (λ (e : Uuid × AccountLimiter lib). t ≤ e.1.last_seen) m
    pub bound : (i : Uuid) (u : Time) → acc ≡ some (i, u) → t ≤ u
    pub source :
        (acc ≡ some (id, t))
        ⊎ ((l : AccountLimiter lib) × (lookup id m ≡ some l) × (l.last_seen ≡ t))

  kept_source :
      (k id : Uuid) (l v : AccountLimiter lib) (m : Entries)
      → lookup k m ≡ none
      → lookup id m ≡ some l
      → lookup id ((k, v) ∷ m) ≡ some l
  unfolding lookup
  kept_source k id l v m f h = elim (Bool-cases (k == id)) [
    | inl e ↦
        (let q = (nat_eq.beq_iff k id).0 e in
          absurd (clash (sym f ∙ ap (λ (x : Uuid). lookup x m) q ∙ h)))
    | inr e ↦ rw e h
  ]
    where
      clash : none ≡ some l → ⊥
      clash z = cc

  found : (k : Uuid) (v : AccountLimiter lib) (m : Entries) → lookup k ((k, v) ∷ m) ≡ some v
  unfolding lookup
  found k v m = ground (arith, nat_eq.beq_iff k k)

  pub find_oldest-Oldest :
      (m : Entries) (acc : Option (Uuid × Time)) (id : Uuid) (t : Time)
      → IsMap m
      → find_oldest lib m acc ≡ some (id, t)
      → Oldest m acc id t
  unfolding find_oldest
  find_oldest-Oldest [] acc id t w h = record {
    least = tt;
    bound = λ i u e. same (sym e ∙ h);
    source = inl h;
  }
    where
      same :
          {i j : Uuid} {a b : Time}
          → ◌≡◌ {A = Option (Uuid × Time)} (some (i, a)) (some (j, b))
          → b ≤ a
      same e = ground arith
  find_oldest-Oldest ((k, v) ∷ m) none id t w h =
      let r = find_oldest-Oldest m (some (k, v.last_seen)) id t w.1 h in
      record {
        least = (r.bound k v.last_seen refl, r.least);
        bound = λ i u e. cc;
        source = inr (elim r.source [
          | inl e ↦ (
            v,
            subst (λ (x : Uuid). lookup x ((k, v) ∷ m) ≡ some v) (key e) (found k v m),
            time e,
          )
          | inr (l, f, e) ↦ (l, kept_source k id l v m w.0 f, e)
        ]);
      }
    where
      key : ◌≡◌ {A = Option (Uuid × Time)} (some (k, v.last_seen)) (some (id, t)) → k ≡ id
      key e = cc

      time : ◌≡◌ {A = Option (Uuid × Time)} (some (k, v.last_seen)) (some (id, t)) → v.last_seen ≡ t
      time e = cc
  find_oldest-Oldest ((k, v) ∷ m) (some (i, u)) id t w h = elim (Bool-cases (ltb v.last_seen u)) [
    | inl e ↦
        (let r = find_oldest-Oldest m (some (k, v.last_seen)) id t w.1 (rw e at h) in
          record {
            least = (r.bound k v.last_seen refl, r.least);
            bound = λ j s q. ground (arith, r.bound k v.last_seen refl);
            source = inr (elim r.source [
              | inl q ↦ (
                v,
                subst (λ (x : Uuid). lookup x ((k, v) ∷ m) ≡ some v) (key q) (found k v m),
                time q,
              )
              | inr (l, f, q) ↦ (l, kept_source k id l v m w.0 f, q)
            ]);
          })
    | inr e ↦
        (let r = find_oldest-Oldest m (some (i, u)) id t w.1 (rw e at h) in
          record {
            least = (ground (arith, r.bound i u refl), r.least);
            bound = λ j s q. r.bound j s q;
            source = (elim r.source [
              | inl q ↦ inl q
              | inr (l, f, q) ↦ inr (l, kept_source k id l v m w.0 f, q)
            ]);
          })
  ]
    where
      key : ◌≡◌ {A = Option (Uuid × Time)} (some (k, v.last_seen)) (some (id, t)) → k ≡ id
      key e = cc

      time : ◌≡◌ {A = Option (Uuid × Time)} (some (k, v.last_seen)) (some (id, t)) → v.last_seen ≡ t
      time e = cc

  pub find_oldest-some :
      (m : Entries) (i : Uuid) (t : Time)
      → (r : Uuid × Time) × (find_oldest lib m (some (i, t)) ≡ some r)
  unfolding find_oldest
  find_oldest-some [] i t = ((i, t), refl)
  find_oldest-some ((k, v) ∷ m) i t = elim (Bool-cases (ltb v.last_seen t)) [
    | inl e ↦ rw e (find_oldest-some m k v.last_seen)
    | inr e ↦ rw e (find_oldest-some m i t)
  ]

  -- A map with an entry has an oldest one.
  pub find_oldest-none : (m : Entries) → find_oldest lib m none ≡ none → m ≡ []
  unfolding find_oldest
  find_oldest-none [] h = refl
  find_oldest-none ((k, v) ∷ m) h =
      let (r, e) = find_oldest-some m k v.last_seen in absurd (clash (sym e ∙ h))
    where
      clash : {r : Uuid × Time} → some r ≡ none → ⊥
      clash z = cc
