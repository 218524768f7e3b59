-- ===== src/Api/Effective.antt =====
-- What `GetEffectiveRoutes` of internal/api/peering_handler.go shows of a peering's routes.
use vpc_routing.Prelude.{
  ℕ, ◌+◌, ◌≤◌, ◌<◌, ◌≡◌, ◌⊎◌, refl, sym, ◌∙◌, inl, inr, arith, Bool, true, false, ◌&&◌, List, [],
  ◌∷◌, All, In, In-append, count_by, count_by-append, is_positive, at_least, pos_part, ℤ, pos,
}
use vpc_routing.Model.Netip.{Prefix, IsPrefix}
use vpc_routing.Model.Policy.{RoutePolicy, PolicyDecision, accept, deny, filtered, evaluate_prefix}
use vpc_routing.Model.Policy.Decision.{
  SomeCovers, evaluate_prefix-deny_iff, evaluate_prefix-accept_iff,
}
use vpc_routing.Model.Entities.{RouteEntry, RouteState}
use vpc_routing.Api.Queries.{shown, show_routes}

-- Not marked as filtered.
abbrev pub is_open : RouteEntry → Bool
is_open re = elim re.state [ RouteState.filtered ↦ false | _ ↦ true ]

-- Every prefix is one that `ParsePrefix` gives.
pub record IsParsed (policy : RoutePolicy) : Type 0 where
  pub denied : All IsPrefix policy.denied_prefixes
  pub allowed : All IsPrefix policy.allowed_prefixes

accept-below :
    (policy : RoutePolicy) (x : Prefix) (n : ℕ)
    → (evaluate_prefix policy x n).0 ≡ accept
    → 0 < pos_part policy.max_prefixes
    → n < pos_part policy.max_prefixes
unfolding evaluate_prefix
accept-below policy x n h k = below policy.max_prefixes (ground arith) k
  where
    below : (z : ℤ) → (is_positive z && at_least n z) ≡ false → 0 < pos_part z → n < pos_part z
    below (pos m) e l = ground arith
    below (ℤ.negsuc m) e l = ground arith

-- The count of the routes that the policy accepted, and of those shown as not filtered.
record Tallies (policy : RoutePolicy) (w u : ℕ × List RouteEntry) : Type 0 where
  pub tally : count_by is_open u.1 + w.0 ≡ count_by is_open w.1 + u.0
  pub limit :
      0 < pos_part policy.max_prefixes
      → w.0 ≤ pos_part policy.max_prefixes
      → u.0 ≤ pos_part policy.max_prefixes

shown-Tallies :
    (policy : RoutePolicy) (re : RouteEntry) (w : ℕ × List RouteEntry) (d : PolicyDecision)
    → (evaluate_prefix policy re.prefix w.0).0 ≡ d
    → re.state ≡ RouteState.active
    → Tallies policy w (shown re w d)
shown-Tallies policy re (n, out) deny h a = record { tally = refl; limit = λ k l. l }
shown-Tallies policy re (n, out) filtered h a = record {
  tally =
      ground (arith, count_by-append is_open out (record re { state = RouteState.filtered } ∷ []));
  limit = λ k l. l;
}
shown-Tallies policy re (n, out) accept h a = record {
  tally = rw (count_by-append is_open out (re ∷ [])) (rw a (omega arith));
  limit = λ k l. omega (arith, accept-below policy re.prefix n h k);
}

show_routes-Tallies :
    (policy : RoutePolicy) (res : List RouteEntry) (w : ℕ × List RouteEntry)
    → All (λ (re : RouteEntry). re.state ≡ RouteState.active) res
    → Tallies policy w (show_routes policy res w)
unfolding show_routes
show_routes-Tallies policy [] w a = record { tally = refl; limit = λ k l. l }
show_routes-Tallies policy (re ∷ res) w a =
    let d = (evaluate_prefix policy re.prefix w.0).0 in
    let one = shown-Tallies policy re w d refl a.0 in
    let more = show_routes-Tallies policy res (shown re w d) a.1 in
    record {
      tally = omega (arith, one.tally, more.tally);
      limit = λ k l. more.limit k (one.limit k l);
    }

-- If every route of a peering is active and its policy's limit is above 0, `GetEffectiveRoutes`
-- shows at most that many of them as not filtered.
pub show_routes-bound :
    (policy : RoutePolicy) (res : List RouteEntry)
    → All (λ (re : RouteEntry). re.state ≡ RouteState.active) res
    → 0 < pos_part policy.max_prefixes
    → count_by is_open (show_routes policy res (0, [])).1 ≤ pos_part policy.max_prefixes
show_routes-bound policy res a k =
    let t = show_routes-Tallies policy res (0, []) a in
    omega (arith, t.tally, t.limit k (omega arith))

-- How `v` shows the route `re` of the peering.
pub record Shows (policy : RoutePolicy) (re v : RouteEntry) : Type 0 where
  pub same_prefix : v.prefix ≡ re.prefix
  pub same_origin : v.origin_vpc_id ≡ re.origin_vpc_id
  pub not_denied : SomeCovers policy.denied_prefixes v.prefix → ⊥
  pub allowed :
      is_open v ≡ true
      → (policy.allowed_prefixes ≡ []) ⊎ SomeCovers policy.allowed_prefixes v.prefix

shown-Shows :
    (policy : RoutePolicy) (re : RouteEntry) (w : ℕ × List RouteEntry) (d : PolicyDecision)
    → IsParsed policy
    → IsPrefix re.prefix
    → (evaluate_prefix policy re.prefix w.0).0 ≡ d
    → (v : RouteEntry) → In v (shown re w d).1
    → In v w.1 ⊎ Shows policy re v
shown-Shows policy re (n, out) deny q k h v m = inl m
shown-Shows policy re (n, out) filtered q k h v m =
    elim ((In-append v out (record re { state = RouteState.filtered } ∷ [])).0 m) [
      | inl o ↦ inl o
      | inr (inl e) ↦ inr (
          rw e (record {
            same_prefix = refl;
            same_origin = refl;
            not_denied = λ c.
                deny-ne-filtered (
                  sym ((evaluate_prefix-deny_iff policy re.prefix n q.denied q.allowed k).1 c) ∙ h);
            allowed = λ z. cc;
          }))
      | inr (inr e) ↦ absurd e
    ]
  where
    deny-ne-filtered : ◌≡◌ {A = PolicyDecision} deny filtered → ⊥
    deny-ne-filtered z = cc
shown-Shows policy re (n, out) accept q k h v m = elim ((In-append v out (re ∷ [])).0 m) [
  | inl o ↦ inl o
  | inr (inl e) ↦ inr (
      rw e (
        let f = (evaluate_prefix-accept_iff policy re.prefix n q.denied q.allowed k).0 h in
        record { same_prefix = refl; same_origin = refl; not_denied = f.0; allowed = λ z. f.1 }))
  | inr (inr e) ↦ absurd e
]

pub show_routes-Shows :
    (policy : RoutePolicy) (res : List RouteEntry) (w : ℕ × List RouteEntry)
    → IsParsed policy
    → All (λ (re : RouteEntry). IsPrefix re.prefix) res
    → (v : RouteEntry) → In v (show_routes policy res w).1
    → In v w.1 ⊎ ((re : RouteEntry) × In re res × Shows policy re v)
unfolding show_routes
show_routes-Shows policy [] w q k v m = inl m
show_routes-Shows policy (re ∷ res) w q k v m =
    let d = (evaluate_prefix policy re.prefix w.0).0 in
    elim (show_routes-Shows policy res (shown re w d) q k.1 v m) [
      | inl o ↦ (elim (shown-Shows policy re w d q k.0 refl v o) [
        | inl before ↦ inl before
        | inr s ↦ inr (re, inl refl, s)
      ])
      | inr (r, n, s) ↦ inr (r, inr n, s)
    ]
