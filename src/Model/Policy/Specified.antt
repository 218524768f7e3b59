-- ===== src/Model/Policy/Specified.antt =====
-- The decisions of `EvaluatePrefix` of internal/model/policy.go beside FR-5.2 of
-- docs/design/vpc-interconnect-functional-spec.md.
use vpc_routing.Prelude.{
  ◌≢◌, Option, none, some, subst, ℕ, ◌<◌, ◌≡◌, refl, sym, ◌∙◌, ◌↔◌, ◌⊎◌, inl, inr, List, [], ◌∷◌,
  All, pos_part, arith,
}
use vpc_routing.Model.Netip.{Prefix, prefix_eq, IsPrefix}
use vpc_routing.Model.Policy.{RoutePolicy, accept, evaluate_prefix}
use vpc_routing.Model.Policy.Decision.{SomeCovers, BelowLimit, evaluate_prefix-accept_iff}

-- The allowed prefixes as a policy is written, where null is not the empty list; the code reads both as a
-- slice of length 0.
abbrev pub as_slice : Option (List Prefix) → List Prefix
as_slice none = []
as_slice (some ps) = ps

abbrev pub Listed : Option (List Prefix) → Prefix → Type 0
Listed none x = Unit {0}
Listed (some ps) x = SomeCovers ps x

-- What FR-5.2 of docs/design/vpc-interconnect-functional-spec.md accepts: no denied prefix matches, an
-- allowed one does if the list is not null, and one more prefix does not exceed the limit.
abbrev pub Fr52 : Option (List Prefix) → RoutePolicy → Prefix → ℕ → Type 0
Fr52 written policy x n =
    (SomeCovers policy.denied_prefixes x → ⊥)
    × Listed written x
    × (n < pos_part policy.max_prefixes)

-- The policies that the code takes for more permissive ones: an empty list for no list, and a limit of 0
-- or less for no limit.
abbrev pub IsLoosened : Option (List Prefix) → RoutePolicy → Type 0
IsLoosened written policy = (written ≡ some []) ⊎ (pos_part policy.max_prefixes ≡ 0)

module _ (policy : RoutePolicy) (x : Prefix) (n : ℕ) (denied : All IsPrefix policy.denied_prefixes)
    (allowed : All IsPrefix policy.allowed_prefixes) (known : IsPrefix x) where
  accepts : ((evaluate_prefix policy x n).0 ≡ accept) ↔ (
      (SomeCovers policy.denied_prefixes x → ⊥)
      × ((policy.allowed_prefixes ≡ []) ⊎ SomeCovers policy.allowed_prefixes x)
      × BelowLimit policy n)
  accepts = evaluate_prefix-accept_iff policy x n denied allowed known

  Listed-as_slice :
      (written : Option (List Prefix))
      → policy.allowed_prefixes ≡ as_slice written
      → Listed written x
      → (policy.allowed_prefixes ≡ []) ⊎ SomeCovers policy.allowed_prefixes x
  Listed-as_slice none e l = inl e
  Listed-as_slice (some ps) e l = inr (subst (λ qs. SomeCovers qs x) (sym e) l)

  as_slice-Listed :
      (written : Option (List Prefix))
      → policy.allowed_prefixes ≡ as_slice written
      → written ≢ some []
      → (policy.allowed_prefixes ≡ []) ⊎ SomeCovers policy.allowed_prefixes x
      → Listed written x
  as_slice-Listed none e k a = tt
  as_slice-Listed (some []) e k a = absurd (k refl)
  as_slice-Listed (some (p ∷ ps)) e k (inl f) = absurd (some_none (sym e ∙ f))
    where
      some_none : p ∷ ps ≡ [] → ⊥
      some_none h = cc
  as_slice-Listed (some (p ∷ ps)) e k (inr c) = subst (λ qs. SomeCovers qs x) e c

  loose_denied :
      (written : Option (List Prefix)) → Fr52 written policy x n → IsLoosened written policy → ⊥
  loose_denied written (d, l, h) (inl e) = (subst (λ w. Listed w x) e l).1
  loose_denied written (d, l, h) (inr e) = omega (arith, h, e)

  -- `EvaluatePrefix` accepts a prefix exactly when no denied prefix covers it, the slice of
  -- allowed prefixes has length 0 or one of them covers it, and the limit is not positive or the
  -- count is below it. So FR-5.2 accepts a prefix exactly when `EvaluatePrefix` does and the
  -- policy is written neither with an empty list of allowed prefixes, which is not null, nor
  -- with a limit of 0 or less: FR-5.2 accepts nothing of these two, and the code takes them for
  -- no list and no limit. All the prefixes are as `ParsePrefix` gives them.
  pub evaluate_prefix-Fr52 :
      (written : Option (List Prefix))
      → policy.allowed_prefixes ≡ as_slice written
      → (((evaluate_prefix policy x n).0 ≡ accept) ↔ (
          (SomeCovers policy.denied_prefixes x → ⊥)
          × ((policy.allowed_prefixes ≡ []) ⊎ SomeCovers policy.allowed_prefixes x)
          × BelowLimit policy n))
        × (Fr52 written policy x n
            ↔ (((evaluate_prefix policy x n).0 ≡ accept) × (IsLoosened written policy → ⊥)))
  evaluate_prefix-Fr52 written e = (
    accepts,
    (
      λ (f : Fr52 written policy x n).
          (accepts.1 (f.0, Listed-as_slice written e f.1, inr f.2), loose_denied written f),
      λ r.
          let a = accepts.0 r.0 in
          (
            a.0,
            as_slice-Listed written e (λ k. r.1 (inl k)) a.1,
            elim a.2 [ inl z ↦ absurd (r.1 (inr z)) | inr h ↦ h ],
          ),
    ),
  )
