-- ===== src/Lifecycle/Invariant.antt =====
-- What every change to the peering store keeps.
use vpc_routing.Prelude.{
  ◌≤◌, ◌<◌, ◌≡◌, refl, sym, ◌∙◌, ap, ◌≢◌, ◌⊎◌, inl, inr, arith, Bool, true, false, ◌&&◌, ◌||◌, List,
  [], ◌∷◌, ok, ◌==◌, nat_eq, nat_beq_iff, first-none, any, count_by, Bool-cases, subst, and_true,
  or_true,
}
use vpc_routing.Prelude.Maps.{
  insert, values, count_values, bool_nat, AllValues, AllValues-insert, AllValues-lookup,
  count_values-insert_le, count_values-insert_any,
}
use vpc_routing.Model.Entities.{
  Uuid, Peering, PeeringState, pending_acceptance, provisioning, degraded, failed, state_eq,
}
use vpc_routing.Store.Peerings.{
  PeeringStore, is_live, joins, is_between, touches, find_by_vpcs, count_by_vpc,
}
use vpc_routing.Api.PeeringHandler.{admits, default_max_peerings}
use vpc_routing.Lifecycle.Stored.{IsStore, IsStore-insert, IsStore-keyed}
use vpc_routing.Lifecycle.Change.{
  ◌⟶◌, accepts, rejects, expires, activates, retries, removes, edits, Moves, IsAdmitted, Change,
  stays, adds, moves, Changes, done, next,
}

-- A state in which a peering may be found: no code puts one into the other three.
abbrev pub IsUsed : PeeringState → Type 0
IsUsed s = (s ≢ degraded) × (s ≢ PeeringState.deleting) × (s ≢ failed)

pub record Inv (s : PeeringStore) : Type 0 where
  pub stored : IsStore s
  pub unique : (a b : Uuid) → count_values (is_between a b) s ≤ 1
  pub quota : (v : Uuid) → count_values (touches v) s ≤ default_max_peerings
  pub used : AllValues (λ p. IsUsed p.state) s

⟶-live : {s t : PeeringState} → s ⟶ t → is_live t ≡ true → is_live s ≡ true
⟶-live accepts h = refl
⟶-live rejects h = refl
⟶-live expires h = refl
⟶-live activates h = refl
⟶-live retries h = refl
⟶-live removes h = cc
⟶-live edits h = h

⟶-IsUsed : {s t : PeeringState} → s ⟶ t → IsUsed s → IsUsed t
⟶-IsUsed accepts h = (λ e. cc, λ e. cc, λ e. cc)
⟶-IsUsed rejects h = (λ e. cc, λ e. cc, λ e. cc)
⟶-IsUsed expires h = (λ e. cc, λ e. cc, λ e. cc)
⟶-IsUsed activates h = (λ e. cc, λ e. cc, λ e. cc)
⟶-IsUsed retries h = (λ e. cc, λ e. cc, λ e. cc)
⟶-IsUsed removes h = (λ e. cc, λ e. cc, λ e. cc)
⟶-IsUsed edits h = h

Moves-live : {p q : Peering} → Moves p q → is_live q.state ≡ true → is_live p.state ≡ true
Moves-live m h = ⟶-live m.edge h

between-Moves :
    (a b : Uuid) (p q : Peering) → Moves p q → is_between a b q ≡ true → is_between a b p ≡ true
between-Moves a b p q m h = ground (arith, Moves-live m, m.same_requester, m.same_accepter)

touches-Moves : (v : Uuid) (p q : Peering) → Moves p q → touches v q ≡ true → touches v p ≡ true
touches-Moves v p q m h = ground (arith, Moves-live m, m.same_requester, m.same_accepter)

-- A test that no entry passes counts none.
count-none : (p : Peering → Bool) (xs : List Peering) → any p xs ≡ false → count_by p xs ≡ 0
count-none p [] h = refl
count-none p (x ∷ xs) h = ground (arith, count-none p xs)

count-ext :
    (p q : Peering → Bool) (xs : List Peering)
    → ((x : Peering) → p x ≡ q x)
    → count_by p xs ≡ count_by q xs
count-ext p q [] h = refl
count-ext p q (x ∷ xs) h = ground (arith, h x, count-ext p q xs h)

pub admits-ok :
    (s : PeeringStore) (a b : Uuid)
    → admits s a b ≡ ok tt
    → (count_values (is_between a b) s ≡ 0)
      × (count_values (touches a) s < default_max_peerings)
      × (count_values (touches b) s < default_max_peerings)
unfolding admits find_by_vpcs count_by_vpc
admits-ok s a b h = (
  count-none (is_between a b) (values s) (first-none (is_between a b) (values s) (ground arith)),
  ground arith,
  ground arith,
)

joined :
    (a b : Uuid) (p : Peering)
    → is_between a b p ≡ true
    → ((p.requester_vpc_id ≡ a) × (p.accepter_vpc_id ≡ b))
      ⊎ ((p.requester_vpc_id ≡ b) × (p.accepter_vpc_id ≡ a))
joined a b p h = elim (or_true _ _ ((and_true (is_live p.state) (joins a b p) h).1)) [
  | inl e ↦ inl (both a b e)
  | inr e ↦ inr (both b a e)
]
  where
    both :
        (c d : Uuid)
        → (p.requester_vpc_id == c && p.accepter_vpc_id == d) ≡ true
        → (p.requester_vpc_id ≡ c) × (p.accepter_vpc_id ≡ d)
    both c d e =
        let r = and_true (p.requester_vpc_id == c) (p.accepter_vpc_id == d) e in
        ((nat_beq_iff p.requester_vpc_id c).0 r.0, (nat_beq_iff p.accepter_vpc_id d).0 r.1)

or_comm : (a b : Bool) → (a || b) ≡ (b || a)
or_comm a b = ground arith

-- A pair that the new peering joins is its own pair, in one order or the other.
between-same :
    (a b : Uuid) (p x : Peering)
    → is_between a b p ≡ true
    → is_between a b x ≡ is_between p.requester_vpc_id p.accepter_vpc_id x
between-same a b p x h = elim (joined a b p h) [
  | inl e ↦
      ap (λ c. is_between c b x) (sym e.0) ∙ ap (λ c. is_between p.requester_vpc_id c x) (sym e.1)
  | inr e ↦
      ap (λ c. is_live x.state && c)
        (or_comm (x.requester_vpc_id == a && x.accepter_vpc_id == b)
          (x.requester_vpc_id == b && x.accepter_vpc_id == a))
      ∙ ap (λ c. is_between c a x) (sym e.0)
      ∙ ap (λ c. is_between p.requester_vpc_id c x) (sym e.1)
]

between-adds :
    (s : PeeringStore) (p : Peering) (a b : Uuid)
    → IsAdmitted s p
    → count_values (is_between a b) s ≤ 1
    → count_values (is_between a b) (insert p.id p s) ≤ 1
between-adds s p a b m h =
    let i = count_values-insert_any (is_between a b) p.id p s in
    elim (Bool-cases (is_between a b p)) [
      | inl e ↦
          (let z = (admits-ok s p.requester_vpc_id p.accepter_vpc_id m.room).0 in
            let c = count-ext (is_between a b) _ (values s) (λ x. between-same a b p x e) in
            omega (arith, i, ap bool_nat e, z, c))
      | inr e ↦ omega (arith, i, ap bool_nat e, h)
    ]

touches-own :
    (v : Uuid) (p : Peering)
    → touches v p ≡ true
    → (v ≡ p.requester_vpc_id) ⊎ (v ≡ p.accepter_vpc_id)
touches-own v p h = elim (Bool-cases (p.requester_vpc_id == v)) [
  | inl e ↦ inl (sym ((nat_beq_iff p.requester_vpc_id v).0 e))
  | inr e ↦ inr (ground arith)
]

touches-adds :
    (s : PeeringStore) (p : Peering) (v : Uuid)
    → IsAdmitted s p
    → count_values (touches v) s ≤ default_max_peerings
    → count_values (touches v) (insert p.id p s) ≤ default_max_peerings
touches-adds s p v m h =
    let i = count_values-insert_any (touches v) p.id p s in
    let r = admits-ok s p.requester_vpc_id p.accepter_vpc_id m.room in
    elim (Bool-cases (touches v p)) [
      | inl e ↦ (elim (touches-own v p e) [
        | inl q ↦ omega (arith, i, ap bool_nat e, r.1, ap (λ w. count_values (touches w) s) q)
        | inr q ↦ omega (arith, i, ap bool_nat e, r.2, ap (λ w. count_values (touches w) s) q)
      ])
      | inr e ↦ omega (arith, i, ap bool_nat e, h)
    ]

initial-IsUsed : {t : PeeringState} → (t ≡ pending_acceptance) ⊎ (t ≡ provisioning) → IsUsed t
initial-IsUsed (inl e) = (λ q. cc, λ q. cc, λ q. cc)
initial-IsUsed (inr e) = (λ q. cc, λ q. cc, λ q. cc)

-- One change keeps the invariant.
pub Change-Inv : (s t : PeeringStore) → Change s t → Inv s → Inv t
Change-Inv s t (stays e) i = subst Inv (sym e) i
Change-Inv s t (adds p m e) i = subst Inv (sym e) (record {
  stored = IsStore-insert s p.id p refl i.stored;
  unique = λ a b. between-adds s p a b m (i.unique a b);
  quota = λ v. touches-adds s p v m (i.quota v);
  used = AllValues-insert (λ x. IsUsed x.state) p.id p s (initial-IsUsed m.initial) i.used;
})
Change-Inv s t (moves k old new l m e) i = subst Inv (sym e) (record {
  stored = IsStore-insert s k new (m.same_id ∙ IsStore-keyed s i.stored k old l) i.stored;
  unique = λ a b. omega (
    arith,
    i.unique a b,
    count_values-insert_le (is_between a b) k new old s l (between-Moves a b old new m),
  );
  quota = λ v. omega (
    arith,
    i.quota v,
    count_values-insert_le (touches v) k new old s l (touches-Moves v old new m),
  );
  used =
      AllValues-insert (λ x. IsUsed x.state) k new s
        (⟶-IsUsed m.edge (AllValues-lookup (λ x. IsUsed x.state) k old s l i.used)) i.used;
})

pub Changes-Inv : (s t : PeeringStore) → Changes s t → Inv s → Inv t
Changes-Inv s t done i = i
Changes-Inv s t (next {t = u} r c) i = Change-Inv u t c (Changes-Inv s u r i)
