-- ===== src/Lifecycle/Stored.antt =====
-- A peering store as a Go map whose entries lie under their own identifiers: what `range` over it
-- gives, and what a write to one key leaves alone.
use vpc_routing.Prelude.{
  ◌≡◌, refl, sym, ◌∙◌, ap, ◌≢◌, inl, inr, arith, Bool, false, none, some, List, [], ◌∷◌, ◌==◌,
  nat_eq, nat_beq_iff, Bool-cases, some-ne-none, All, Pairwise, In, In-All, In-keep, keep,
}
use vpc_routing.Prelude.Maps.{lookup, insert, lookup-insert, values}
use vpc_routing.Model.Entities.{Uuid, Peering}
use vpc_routing.Store.Peerings.{PeeringStore}

-- Each key occurs once, and is the identifier of its entry.
abbrev pub IsStore : PeeringStore → Type 0
IsStore [] = Unit
IsStore ((k, p) ∷ s) = (p.id ≡ k) × (lookup k s ≡ none) × IsStore s

some-inj : {p q : Peering} → some p ≡ some q → p ≡ q
some-inj h = cc

pub IsStore-keyed :
    (s : PeeringStore) → IsStore s → (k : Uuid) (p : Peering) → lookup k s ≡ some p → p.id ≡ k
unfolding lookup
IsStore-keyed [] w k p h = cc
IsStore-keyed ((j, q) ∷ s) w k p h = elim (Bool-cases (j == k)) [
  | inl e ↦ ap (λ (x : Peering). x.id) (sym (some-inj (rw e at h))) ∙ w.0 ∙ (nat_beq_iff j k).0 e
  | inr e ↦ IsStore-keyed s w.2 k p (rw e at h)
]

pub IsStore-insert :
    (s : PeeringStore) (k : Uuid) (p : Peering) → p.id ≡ k → IsStore s → IsStore (insert k p s)
unfolding insert lookup
IsStore-insert [] k p e w = (e, refl, tt)
IsStore-insert ((j, q) ∷ s) k p e w = elim (Bool-cases (j == k)) [
  | inl t ↦ rw t (e ∙ sym ((nat_beq_iff j k).0 t), w.1, w.2)
  | inr t ↦ rw t (w.0, apart t, IsStore-insert s k p e w.2)
]
  where
    apart : (j == k) ≡ false → lookup j (insert k p s) ≡ none
    apart t = ground (arith, lookup-insert k j p s, nat_beq_iff j k, nat_beq_iff k j, w.1)

-- What `range` visits can be looked up.
pub In-lookup :
    (s : PeeringStore) (p : Peering) → IsStore s → In p (values s) → lookup p.id s ≡ some p
unfolding lookup
In-lookup [] p w m = absurd m
In-lookup ((k, q) ∷ s) p w (inl e) =
    let t : k ≡ p.id = sym w.0 ∙ ap (λ (x : Peering). x.id) (sym e) in
    rw ((nat_beq_iff k p.id).1 t) (ap some (sym e))
In-lookup ((k, q) ∷ s) p w (inr m) =
    let r = In-lookup s p w.2 m in
    elim (Bool-cases (k == p.id)) [
      | inl e ↦
          absurd
            (some-ne-none (sym r ∙ ap (λ i. lookup i s) (sym ((nat_beq_iff k p.id).0 e)) ∙ w.1))
      | inr e ↦ rw e r
    ]

-- A list that `range` gave: its entries are current, and have different identifiers.
abbrev pub IsCurrent : PeeringStore → List Peering → Type 0
IsCurrent s ps =
    All (λ (p : Peering). lookup p.id s ≡ some p) ps × Pairwise (λ (p q : Peering). p.id ≢ q.id) ps

distinct-values :
    (s : PeeringStore) (p : Peering → Bool)
    → IsStore s
    → Pairwise (λ (x y : Peering). x.id ≢ y.id) (keep p (values s))
distinct-values [] p w = tt
distinct-values ((k, q) ∷ s) p w = elim (Bool-cases (p q)) [
  | inl e ↦ rw e (
    In-All _ (keep p (values s)) (λ y m h. some-ne-none (
        sym (In-lookup s y w.2 ((In-keep p (values s) y).0 m).0)
        ∙ ap (λ i. lookup i s) (sym h ∙ w.0)
        ∙ w.1)),
    distinct-values s p w.2,
  )
  | inr e ↦ rw e (distinct-values s p w.2)
]

pub keep-IsCurrent :
    (s : PeeringStore) (p : Peering → Bool) → IsStore s → IsCurrent s (keep p (values s))
keep-IsCurrent s p w = (
  In-All _ (keep p (values s)) (λ y m. In-lookup s y w ((In-keep p (values s) y).0 m).0),
  distinct-values s p w,
)

-- Only the entry under `k` may differ.
abbrev pub Only : Uuid → PeeringStore → PeeringStore → Type 0
Only k s t = (j : Uuid) → k ≢ j → lookup j t ≡ lookup j s

pub insert-Only : (s : PeeringStore) (k : Uuid) (p : Peering) → Only k s (insert k p s)
insert-Only s k p j h = ground (arith, lookup-insert k j p s, nat_beq_iff k j)

-- The rest of the list stays current where only the first entry's key was written.
pub IsCurrent-tail :
    (s t : PeeringStore) (p : Peering) (ps : List Peering)
    → Only p.id s t
    → IsCurrent s (p ∷ ps)
    → IsCurrent t ps
IsCurrent-tail s t p ps o c = (rest ps c.0.1 c.1.0, c.1.1)
  where
    rest :
        (qs : List Peering)
        → All (λ (q : Peering). lookup q.id s ≡ some q) qs
        → All (λ (q : Peering). p.id ≢ q.id) qs
        → All (λ (q : Peering). lookup q.id t ≡ some q) qs
    rest [] a d = tt
    rest (q ∷ qs) a d = (o q.id d.0 ∙ a.0, rest qs a.1 d.1)
