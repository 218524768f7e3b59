-- ===== src/Api/Marked.antt =====
-- A description of what `GetEffectiveRoutes` of internal/api/peering_handler.go shows of one peering, which counts the
-- routes that the policy allows, not those that it has accepted.
use vpc_routing.Prelude.{
  ℕ, ◌+◌, ◌≡◌, ◌⊎◌, refl, sym, ap, ◌∙◌, inl, inr, arith, Bool, true, false, ◌&&◌, ◌||◌, not, List,
  [], ◌∷◌, ◌++◌, any, length, ltb, is_positive, at_least, ℤ, pos, negsuc, Bool-cases, if◌then◌else◌,
}
use vpc_routing.Model.Policy.{
  RoutePolicy, PolicyDecision, accept, deny, filtered, prefix_contains, evaluate_prefix,
}
use vpc_routing.Model.Entities.{RouteEntry, RouteState, state_eq}
use vpc_routing.Api.Queries.{shown, show_routes}

abbrev pub is_denied : RoutePolicy → RouteEntry → Bool
is_denied policy re = any (λ d. prefix_contains d re.prefix) policy.denied_prefixes

abbrev pub is_allowed : RoutePolicy → RouteEntry → Bool
is_allowed policy re =
    not (ltb 0 (length policy.allowed_prefixes))
    || any (λ a. prefix_contains a re.prefix) policy.allowed_prefixes

-- The limit is on, and `n` has reached it.
abbrev pub is_full : RoutePolicy → ℕ → Bool
is_full policy n = is_positive policy.max_prefixes && at_least n policy.max_prefixes

abbrev pub as_filtered : RouteEntry → RouteEntry
as_filtered re = record re { state = RouteState.filtered }

-- The routes that are not denied, in order: as stored where the policy allows the route and `n`, the
-- count of those that it allows before, is below the limit, and marked as filtered elsewhere.
unfoldable pub marked : RoutePolicy → ℕ → List RouteEntry → List RouteEntry
marked policy n [] = []
marked policy n (re ∷ res) =
    let rest = marked policy n res in
    let after = marked policy (n + 1) res in
    if is_denied policy re
    then rest
    else if is_allowed policy re
    then (if is_full policy n then as_filtered re ∷ after else re ∷ after)
    else as_filtered re ∷ rest

-- Two counts that the limit does not tell apart.
abbrev pub Alike : RoutePolicy → ℕ → ℕ → Type 0
Alike policy m n = (m ≡ n) ⊎ ((is_full policy m ≡ true) × (is_full policy n ≡ true))

Alike-full :
    (policy : RoutePolicy) (m n : ℕ) → Alike policy m n → is_full policy m ≡ is_full policy n
Alike-full policy m n (inl e) = ap (is_full policy) e
Alike-full policy m n (inr (h, k)) = h ∙ sym k

full-suc : (policy : RoutePolicy) (n : ℕ) → is_full policy n ≡ true → is_full policy (n + 1) ≡ true
full-suc policy n h = over policy.max_prefixes h
  where
    over :
        (z : ℤ)
        → (is_positive z && at_least n z) ≡ true
        → (is_positive z && at_least (n + 1) z) ≡ true
    over (pos m) e = ground arith
    over (negsuc m) e = cc

Alike-after :
    (policy : RoutePolicy) (m n : ℕ)
    → Alike policy m n
    → is_full policy m ≡ true
    → Alike policy m (n + 1)
Alike-after policy m n a h = inr (h, full-suc policy n (sym (Alike-full policy m n a) ∙ h))

Alike-both :
    (policy : RoutePolicy) (m n : ℕ)
    → Alike policy m n
    → is_full policy m ≡ false
    → Alike policy (m + 1) (n + 1)
Alike-both policy m n (inl e) h = inl (ap (λ k. k + 1) e)
Alike-both policy m n (inr (f, k)) h = absurd (clash (sym f ∙ h))
  where
    clash : true ≡ false → ⊥
    clash z = cc

append-cons :
    (xs : List RouteEntry) (y : RouteEntry) (ys : List RouteEntry)
    → (xs ++ y ∷ []) ++ ys ≡ xs ++ y ∷ ys
append-cons [] y ys = refl
append-cons (x ∷ xs) y ys = ap (λ (zs : List RouteEntry). x ∷ zs) (append-cons xs y ys)

pub append-nil : (xs : List RouteEntry) → xs ++ [] ≡ xs
append-nil [] = refl
append-nil (x ∷ xs) = ap (λ (zs : List RouteEntry). x ∷ zs) (append-nil xs)

-- The decision on one route, and what the description then shows.
record Step (policy : RoutePolicy) (re : RouteEntry) (res : List RouteEntry) (m n : ℕ)
    (d : PolicyDecision) (ys : List RouteEntry) : Type 0 where
  decided : (evaluate_prefix policy re.prefix m).0 ≡ d
  described : marked policy n (re ∷ res) ≡ ys

denied-Step :
    (policy : RoutePolicy) (re : RouteEntry) (res : List RouteEntry) (m n : ℕ)
    → is_denied policy re ≡ true
    → Step policy re res m n deny (marked policy n res)
unfolding evaluate_prefix marked
denied-Step policy re res m n h = record { decided = rw h refl; described = rw h refl }

allowed_not : (a b : Bool) → (not a || b) ≡ true → (a && not b) ≡ false
allowed_not a b h = ground arith

barred_not : (a b : Bool) → (not a || b) ≡ false → (a && not b) ≡ true
barred_not a b h = ground arith

barred-Step :
    (policy : RoutePolicy) (re : RouteEntry) (res : List RouteEntry) (m n : ℕ)
    → is_denied policy re ≡ false
    → is_allowed policy re ≡ false
    → Step policy re res m n filtered (as_filtered re ∷ marked policy n res)
unfolding evaluate_prefix marked
barred-Step policy re res m n h l = record {
  decided = rw (h, barred_not _ _ l) refl;
  described = rw (h, l) refl;
}

full-Step :
    (policy : RoutePolicy) (re : RouteEntry) (res : List RouteEntry) (m n : ℕ)
    → is_denied policy re ≡ false
    → is_allowed policy re ≡ true
    → is_full policy m ≡ true
    → is_full policy n ≡ true
    → Step policy re res m n filtered (as_filtered re ∷ marked policy (n + 1) res)
unfolding evaluate_prefix marked
full-Step policy re res m n h l f g = record {
  decided = rw (h, allowed_not _ _ l, f) refl;
  described = rw (h, l, g) refl;
}

open-Step :
    (policy : RoutePolicy) (re : RouteEntry) (res : List RouteEntry) (m n : ℕ)
    → is_denied policy re ≡ false
    → is_allowed policy re ≡ true
    → is_full policy m ≡ false
    → is_full policy n ≡ false
    → Step policy re res m n accept (re ∷ marked policy (n + 1) res)
unfolding evaluate_prefix marked
open-Step policy re res m n h l f g = record {
  decided = rw (h, allowed_not _ _ l, f) refl;
  described = rw (h, l, g) refl;
}

taken :
    (policy : RoutePolicy) (re : RouteEntry) (res : List RouteEntry) (m n : ℕ)
    (out : List RouteEntry) (d : PolicyDecision) (ys : List RouteEntry)
    → Step policy re res m n d ys
    → (show_routes policy res (shown re (m, out) d)).1 ≡ out ++ ys
    → (show_routes policy (re ∷ res) (m, out)).1 ≡ out ++ marked policy n (re ∷ res)
unfolding show_routes
taken policy re res m n out d ys s e =
    ap (λ c. (show_routes policy res (shown re (m, out) c)).1) s.decided
    ∙ e
    ∙ ap (λ (zs : List RouteEntry). out ++ zs) (sym s.described)

pub from-marked :
    (policy : RoutePolicy) (res : List RouteEntry) (m n : ℕ) (out : List RouteEntry)
    → Alike policy m n
    → (show_routes policy res (m, out)).1 ≡ out ++ marked policy n res
unfolding show_routes marked
from-marked policy [] m n out a = sym (append-nil out)
from-marked policy (re ∷ res) m n out a =
    let same = Alike-full policy m n a in
    elim (Bool-cases (is_denied policy re)) [
      | inl d ↦
          taken policy re res m n out deny _ (denied-Step policy re res m n d)
            (from-marked policy res m n out a)
      | inr d ↦ (elim (Bool-cases (is_allowed policy re)) [
        | inl l ↦ (elim (Bool-cases (is_full policy m)) [
          | inl f ↦
              taken policy re res m n out filtered _
                (full-Step policy re res m n d l f (sym same ∙ f))
                (from-marked policy res m (n + 1) (out ++ as_filtered re ∷ [])
                    (Alike-after policy m n a f)
                  ∙ append-cons out (as_filtered re) (marked policy (n + 1) res))
          | inr f ↦
              taken policy re res m n out accept _
                (open-Step policy re res m n d l f (sym same ∙ f))
                (from-marked policy res (m + 1) (n + 1) (out ++ re ∷ []) (Alike-both policy m n a f)
                  ∙ append-cons out re (marked policy (n + 1) res))
        ])
        | inr l ↦ taken policy re res m n out filtered _ (barred-Step policy re res m n d l) (
            from-marked policy res m n (out ++ as_filtered re ∷ []) a
            ∙ append-cons out (as_filtered re) (marked policy n res))
      ])
    ]
