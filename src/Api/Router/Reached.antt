-- ===== src/Api/Router/Reached.antt =====
-- The requests that internal/api/router.go hands to a handler.
use vpc_routing.Prelude.{
  ℕ, ◌≡◌, refl, sym, ap, ◌∙◌, inl, inr, ◌&&◌, not, Option, List, [], ◌∷◌, ◌++◌, ◌==◌, nat_eq,
  nat_beq_iff, Bool-cases, subst,
}
use vpc_routing.Model.Entities.{Uuid}
use vpc_routing.Auth.Access.{bytes_beq, healthz}
use vpc_routing.Auth.Bearer.{bytes_beq_iff}
use vpc_routing.Api.Router.{
  Method, Endpoint, Target, serves, answers, split, is_clean, is_connect, route, routed, below_root,
  v1_target, v1_word,
}
use vpc_routing.Api.Router.Paths.{method_of, join}
use vpc_routing.Api.Router.Fits.{Names, Fits, v1-Fits}

join-split : (cs : List ℕ) → (split cs).0 ++ join (split cs).1 ≡ cs
unfolding split
join-split [] = refl
join-split (c ∷ cs) = elim (Bool-cases (c == b'/')) [
  | inl e ↦ rw e (
      ap (λ d. d ∷ (split cs).0 ++ join (split cs).1) (sym ((nat_beq_iff c (b'/')).0 e))
      ∙ ap (λ ds. c ∷ ds) (join-split cs))
  | inr e ↦ rw e (ap (λ ds. c ∷ ds) (join-split cs))
]

module _ (parse : List ℕ → Option Uuid) where
  -- The request calls the endpoint: by its method, and by a path that names it.
  pub record IsCall (m : Method) (path : List ℕ) (e : Endpoint) : Type 0 where
    pub parts : List (List ℕ)
    pub method : m ≡ method_of e
    pub names : Names parse e parts
    pub written : path ≡ join (v1_word ∷ parts)

  -- What a target says of the request that it comes from.
  abbrev Called : Method → List ℕ → Target → Type 0
  Called m path (serves e) = IsCall m path e
  Called m path (answers a) = Unit {0}

  Fits-Called :
      (m : Method) (path : List ℕ) (qs : List (List ℕ)) (t : Target)
      → path ≡ join (v1_word ∷ qs)
      → Fits parse m qs t
      → Called m path t
  Fits-Called m path qs (answers a) p h = tt
  Fits-Called m path qs (serves e) p h = record {
    parts = qs;
    method = h.0;
    names = h.1;
    written = p;
  }

  below_root-Called :
      (m : Method) (path : List ℕ) (s : List ℕ × List (List ℕ))
      → s.0 ++ join s.1 ≡ path
      → Called m path (below_root parse m s)
  below_root-Called m path ([], []) h = tt
  below_root-Called m path (c ∷ cs, qs) h = tt
  below_root-Called m path ([], q ∷ qs) h = elim (Bool-cases (bytes_beq q v1_word)) [
    | inl e ↦ rw e (
        Fits-Called m path qs (v1_target parse m qs)
          (sym h ∙ ap (λ w. join (w ∷ qs)) ((bytes_beq_iff q v1_word).0 e)) (v1-Fits parse m qs))
    | inr e ↦ rw e tt
  ]

  routed-Called :
      (m : Method) (path : List ℕ) (s : List ℕ × List (List ℕ))
      → s.0 ++ join s.1 ≡ path
      → Called m path (routed parse m path s)
  routed-Called m path s h = elim (Bool-cases (not (is_connect m) && not (is_clean s))) [
    | inl e ↦ rw e tt
    | inr e ↦ (elim (Bool-cases (bytes_beq path healthz)) [
      | inl f ↦ rw (e, f) tt
      | inr f ↦ rw (e, f) (below_root-Called m path s h)
    ])
  ]

  pub route-IsCall :
      (m : Method) (path : List ℕ) (e : Endpoint) → route parse m path ≡ serves e → IsCall m path e
  unfolding route
  route-IsCall m path e h =
      subst (Called m path) h (routed-Called m path (split path) (join-split path))
