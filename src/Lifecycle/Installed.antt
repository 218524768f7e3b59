-- ===== src/Lifecycle/Installed.antt =====
-- The routes that `ProvisionPeering` of internal/controller/provisioner.go stores.
use vpc_routing.Prelude.{
  ◌+◌, ◌≡◌, refl, sym, ap, ◌∙◌, ◌↔◌, ◌⊎◌, inl, inr, arith, Bool, true, ◌&&◌, ◌||◌, List, [], ◌∷◌,
  ◌++◌, if◌then◌else◌, ◌==◌, nat_eq, nat_beq_iff, any, any_elim, any_intro, In, In-append,
  Bool-cases, length, length-append, subst, and_true, or_true,
}
use vpc_routing.Model.Netip.{Prefix, prefix_eq, prefix_beq_iff}
use vpc_routing.Model.Entities.{
  Uuid, Vpc, Peering, PeeringDirection, bidirectional, requester_to_accepter, accepter_to_requester,
  other_direction, RouteEntry,
}
use vpc_routing.Store.Routes.{has_key}
use vpc_routing.Store.Routes
use vpc_routing.Controller.Provisioner.{is_two_way, store_routes, installed, route_total}

-- A route of the peering for the prefix is stored.
abbrev pub HasRoute : Uuid → Prefix → List RouteEntry → Type 0
HasRoute j c rs = (r : RouteEntry) × In r rs × (r.peering_id ≡ j) × (r.prefix ≡ c)

-- The blocks that a peering announces: the accepter's, and the requester's unless traffic flows only
-- from the requester to the accepter.
abbrev pub announced : PeeringDirection → Vpc → Vpc → List Prefix
announced bidirectional v w = w.cidr_blocks ++ v.cidr_blocks
announced accepter_to_requester v w = w.cidr_blocks ++ v.cidr_blocks
announced requester_to_accepter v w = w.cidr_blocks
announced (other_direction s) v w = w.cidr_blocks

pub route_total_lem :
    (p : Peering) (v w : Vpc) → route_total p v w ≡ length (announced p.direction v w)
unfolding route_total
route_total_lem p v w = at p.direction
  where
    at :
        (d : PeeringDirection)
        → length w.cidr_blocks + (if is_two_way d then length v.cidr_blocks else 0)
          ≡ length (announced d v w)
    at bidirectional = sym (length-append w.cidr_blocks v.cidr_blocks)
    at accepter_to_requester = sym (length-append w.cidr_blocks v.cidr_blocks)
    at requester_to_accepter = omega arith
    at (other_direction s) = omega arith

same_key :
    (j : Uuid) (c : Prefix) (r x : RouteEntry)
    → has_key r.peering_id r.prefix x ≡ true
    → has_key j c x ≡ has_key j c r
same_key j c r x h =
    let e = and_true (x.peering_id == r.peering_id) (x.prefix == r.prefix) h in
    ap (λ i. i == j && x.prefix == c) ((nat_beq_iff x.peering_id r.peering_id).0 e.0)
    ∙ ap (λ q. r.peering_id == j && q == c) ((prefix_beq_iff x.prefix r.prefix).0 e.1)

any-upsert :
    (j : Uuid) (c : Prefix) (rs : List RouteEntry) (r : RouteEntry)
    → any (has_key j c) (Routes.upsert rs r) ≡ (any (has_key j c) rs || has_key j c r)
unfolding Routes.upsert
any-upsert j c [] r = ground arith
any-upsert j c (x ∷ rs) r = elim (Bool-cases (has_key r.peering_id r.prefix x)) [
  | inl e ↦ rw (e, same_key j c r x e) (ground arith)
  | inr e ↦ rw (e, any-upsert j c rs r) (ground arith)
]

regroup : (a b c d : Bool) → ((a || (b && c)) || (b && d)) ≡ (a || (b && (c || d)))
regroup a b c d = ground arith

any-store_routes :
    (j k o : Uuid) (c : Prefix) (cs : List Prefix) (rs : List RouteEntry)
    → any (has_key j c) (store_routes k o cs rs)
      ≡ (any (has_key j c) rs || (k == j && any (λ d. d == c) cs))
unfolding store_routes
any-store_routes j k o c [] rs = ground arith
any-store_routes j k o c (d ∷ cs) rs =
    any-store_routes j k o c cs _
    ∙ ap (λ b. b || (k == j && any (λ d. d == c) cs)) (any-upsert j c rs _)
    ∙ regroup (any (has_key j c) rs) (k == j) (d == c) (any (λ d. d == c) cs)

-- Exactly the routes for `ps` of the peering `k` have come to the table.
abbrev pub Gains : Uuid → List Prefix → List RouteEntry → List RouteEntry → Type 0
Gains k ps rs rs' =
    (j : Uuid) (c : Prefix) → HasRoute j c rs' ↔ (HasRoute j c rs ⊎ ((j ≡ k) × In c ps))

any-HasRoute :
    (j : Uuid) (c : Prefix) (rs : List RouteEntry) → (any (has_key j c) rs ≡ true) ↔ HasRoute j c rs
any-HasRoute j c rs = (
  λ h.
      let (r, m, e) = any_elim (has_key j c) rs h in
      let q = and_true (r.peering_id == j) (r.prefix == c) e in
      (r, m, (nat_beq_iff r.peering_id j).0 q.0, (prefix_beq_iff r.prefix c).0 q.1),
  λ (r, m, e, q).
      any_intro (has_key j c) rs r m
        (ground (arith, nat_beq_iff r.peering_id j, prefix_beq_iff r.prefix c, e, q)),
)

is_in_iff : (c : Prefix) (ps : List Prefix) → (any (λ d. d == c) ps ≡ true) ↔ In c ps
is_in_iff c ps = (
  λ h.
      let (d, m, e) = any_elim (λ d. d == c) ps h in
      subst (λ q. In q ps) ((prefix_beq_iff d c).0 e) m,
  λ m. any_intro (λ d. d == c) ps c m ((prefix_beq_iff c c).1 refl),
)

store_routes-Gains :
    (k o : Uuid) (cs : List Prefix) (rs : List RouteEntry) → Gains k cs rs (store_routes k o cs rs)
store_routes-Gains k o cs rs j c = (
  λ h. elim (or_true _ _ (sym (any-store_routes j k o c cs rs) ∙ (any-HasRoute j c _).1 h)) [
    | inl e ↦ inl ((any-HasRoute j c rs).0 e)
    | inr e ↦
        (let q = and_true (k == j) _ e in
          inr (sym ((nat_beq_iff k j).0 q.0), (is_in_iff c cs).0 q.1))
  ],
  λ h. (any-HasRoute j c (store_routes k o cs rs)).0 (
      any-store_routes j k o c cs rs ∙ (elim h [
        | inl r ↦ rw ((any-HasRoute j c rs).1 r) refl
        | inr (e, m) ↦
            rw ((nat_beq_iff k j).1 (sym e), (is_in_iff c cs).1 m)
              (either_true (any (has_key j c) rs))
      ])),
)
  where
    either_true : (b : Bool) → (b || true) ≡ true
    either_true b = ground arith

Gains-trans :
    (k : Uuid) (ps qs : List Prefix) (rs ss ts : List RouteEntry)
    → Gains k ps rs ss
    → Gains k qs ss ts
    → Gains k (ps ++ qs) rs ts
Gains-trans k ps qs rs ss ts f g j c = (
  λ h. elim ((g j c).0 h) [
    | inl s ↦ (elim ((f j c).0 s) [
      | inl r ↦ inl r
      | inr (e, m) ↦ inr (e, (In-append c ps qs).1 (inl m))
    ])
    | inr (e, m) ↦ inr (e, (In-append c ps qs).1 (inr m))
  ],
  λ h. elim h [
    | inl r ↦ (g j c).1 (inl ((f j c).1 (inl r)))
    | inr (e, m) ↦ (elim ((In-append c ps qs).0 m) [
      | inl a ↦ (g j c).1 (inl ((f j c).1 (inr (e, a))))
      | inr b ↦ (g j c).1 (inr (e, b))
    ])
  ],
)

pub installed-Gains :
    (k : Uuid) (p : Peering) (v w : Vpc) (rs : List RouteEntry)
    → Gains k (announced p.direction v w) rs (installed k p v w rs)
unfolding installed
installed-Gains k p v w rs = at p.direction
  where
    one : List RouteEntry
    one = store_routes k w.id w.cidr_blocks rs

    both : Gains k (w.cidr_blocks ++ v.cidr_blocks) rs (store_routes k v.id v.cidr_blocks one)
    both =
        Gains-trans k w.cidr_blocks v.cidr_blocks rs one _
          (store_routes-Gains k w.id w.cidr_blocks rs) (store_routes-Gains k v.id v.cidr_blocks one)

    at :
        (d : PeeringDirection)
        → Gains k
            (announced d v w)
            rs
            (if is_two_way d then store_routes k v.id v.cidr_blocks one else one)
    at bidirectional = both
    at accepter_to_requester = both
    at requester_to_accepter = store_routes-Gains k w.id w.cidr_blocks rs
    at (other_direction s) = store_routes-Gains k w.id w.cidr_blocks rs
