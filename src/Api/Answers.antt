-- ===== src/Api/Answers.antt =====
-- The answer of `GetEffectiveRoutes` of internal/api/peering_handler.go.
use vpc_routing.Prelude.{
  ◌≡◌, ◌⊎◌, refl, sym, ap, ◌∙◌, inl, inr, arith, Bool, true, ◌||◌, none, some, List, [], ◌∷◌, All,
  All-In, In, In-keep, In-All, ok, ok-inj, >>=-eq-ok, ◌==◌, nat_eq, Bool-cases, subst, pos, keep,
}
use vpc_routing.Prelude.Maps.{values, AllValues}
use vpc_routing.Model.Netip.{IsPrefix}
use vpc_routing.Model.Entities.{Uuid, Vpc, Peering, PeeringState, state_eq, RouteEntry}
use vpc_routing.Store.Page.{page_of-IsPage}
use vpc_routing.Store.Vpcs
use vpc_routing.Store.Peerings
use vpc_routing.Store.Peerings.{is_listed}
use vpc_routing.Store.Routes
use vpc_routing.Auth.Access.{account_from_context, require_vpc_owner}
use vpc_routing.Api.Db.{Db, Env}
use vpc_routing.Api.Queries.{show_peering, show_peerings, get_effective_routes, items_of}
use vpc_routing.Api.Effective.{IsParsed, Shows, show_routes-Shows}
use vpc_routing.Api.Visible.{guard-holds, account-known}

-- The prefixes in the stores are as `ParsePrefix` gives them.
pub record IsClean (db : Db) : Type 0 where
  pub policies : AllValues (λ (p : Peering). IsParsed p.route_policy) db.peerings
  pub routes : All (λ (re : RouteEntry). IsPrefix re.prefix) db.routes

-- `v` shows a stored route of an active peering of `peerings`.
pub record IsEffective (db : Db) (peerings : List Peering) (v : RouteEntry) : Type 0 where
  pub peering : Peering
  pub among : In peering peerings
  pub active : peering.state ≡ PeeringState.active
  pub route : RouteEntry
  pub stored : In route db.routes
  pub of_peering : route.peering_id ≡ peering.id
  pub shows : Shows peering.route_policy route v

All-keep :
    (f : RouteEntry → Bool) (P : RouteEntry → Type 0) (xs : List RouteEntry)
    → All P xs
    → All P (keep f xs)
All-keep f P xs a = In-All P (keep f xs) (λ x m. All-In P xs x a ((In-keep f xs x).0 m).0)

show_peering-IsEffective :
    (db : Db) (ps : List Peering) (p : Peering) (out : List RouteEntry)
    → IsClean db
    → In p ps
    → IsParsed p.route_policy
    → (v : RouteEntry) → In v (show_peering db p out)
    → In v out ⊎ IsEffective db ps v
unfolding show_peering Routes.list_by_peering
show_peering-IsEffective db ps p out c m q v n =
    elim (Bool-cases (p.state == PeeringState.active)) [
      | inl e ↦
          (elim (show_routes-Shows p.route_policy (keep (λ r. r.peering_id == p.id) db.routes)
            (0, out) q (All-keep (λ r. r.peering_id == p.id) _ db.routes c.routes) v (rw e at n)) [
              | inl o ↦ inl o
              | inr (re, k, s) ↦
                  (let (i, o) = (In-keep (λ r. r.peering_id == p.id) db.routes re).0 k in
                    inr (record {
                      peering = p;
                      among = m;
                      active = (state_eq.beq_iff p.state PeeringState.active).0 e;
                      route = re;
                      stored = i;
                      of_peering = (nat_eq.beq_iff re.peering_id p.id).0 o;
                      shows = s;
                    }))
            ])
      | inr e ↦ inl (rw e at n)
    ]

show_peerings-IsEffective :
    (db : Db) (all ps : List Peering) (out : List RouteEntry)
    → IsClean db
    → ((p : Peering) → In p ps → In p all)
    → All (λ (p : Peering). IsParsed p.route_policy) ps
    → (v : RouteEntry) → In v (show_peerings db ps out)
    → In v out ⊎ IsEffective db all v
unfolding show_peerings
show_peerings-IsEffective db all [] out c sub a v n = inl n
show_peerings-IsEffective db all (p ∷ ps) out c sub a v n =
    elim (show_peerings-IsEffective db all ps (show_peering db p out) c (λ x m. sub x (inr m)) a.1 v
      n) [
        | inl o ↦ show_peering-IsEffective db all p out c (sub p (inl refl)) a.0 v o
        | inr e ↦ inr e
      ]

-- What a caller is shown for one of its VPCs: routes of active peerings that its own account made and
-- that the VPC is a side of.
pub record IsAnswer (env : Env) (db : Db) (vpc_id : Uuid) (v : RouteEntry) : Type 0 where
  pub vpc : Vpc
  pub found : Vpcs.get db.vpcs vpc_id ≡ ok vpc
  pub owner : env.ctx ≡ some vpc.account_id
  pub effective : IsEffective db (values db.peerings) v
  pub made : effective.peering.account_id ≡ vpc.account_id
  pub side :
      (effective.peering.requester_vpc_id ≡ vpc_id) ⊎ (effective.peering.accepter_vpc_id ≡ vpc_id)

-- The page that the handler goes through.
abbrev pages : Db → Uuid → Uuid → List Peering
pages db account_id vpc_id = items_of (
    Peerings.list db.peerings account_id (some vpc_id) none
      (record { page_size = pos 200; page_token = "" }))

paged :
    (db : Db) (account_id vpc_id : Uuid) (p : Peering)
    → In p (pages db account_id vpc_id)
    → In p (values db.peerings)
      × (p.account_id ≡ account_id)
      × ((p.requester_vpc_id ≡ vpc_id) ⊎ (p.accepter_vpc_id ≡ vpc_id))
unfolding Peerings.list
paged db account_id vpc_id p m =
    let ms = keep (is_listed account_id (some vpc_id) none) (values db.peerings) in
    let k =
      (page_of-IsPage (λ q. q.created_at) ms
          (record { page_size = pos 200; page_token = "" })).among
        p m in
    let (i, f) = (In-keep (is_listed account_id (some vpc_id) none) (values db.peerings) p).0 k in
    (i, (nat_eq.beq_iff p.account_id account_id).0 (ground arith), sides (ground arith))
  where
    sides :
        (p.requester_vpc_id == vpc_id || p.accepter_vpc_id == vpc_id) ≡ true
        → (p.requester_vpc_id ≡ vpc_id) ⊎ (p.accepter_vpc_id ≡ vpc_id)
    sides h = elim (Bool-cases (p.requester_vpc_id == vpc_id)) [
      | inl q ↦ inl ((nat_eq.beq_iff p.requester_vpc_id vpc_id).0 q)
      | inr q ↦ inr ((nat_eq.beq_iff p.accepter_vpc_id vpc_id).0 (ground arith))
    ]

-- Where the prefixes in the stores are as `ParsePrefix` gives them, every route that
-- `GetEffectiveRoutes` answers with is shown to the owner of the VPC, and shows a stored route
-- of an active peering of that VPC, made by the owner's account: the prefix is none that the
-- peering's policy denies, and one that it allows unless the route is marked as filtered.
pub get_effective_routes-IsAnswer :
    (env : Env) (vpc_id : Uuid) (db : Db) (vs : List RouteEntry)
    → IsClean db
    → get_effective_routes env vpc_id db ≡ ok vs
    → (v : RouteEntry) → In v vs
    → IsAnswer env db vpc_id v
unfolding get_effective_routes require_vpc_owner
get_effective_routes-IsAnswer env vpc_id db vs c h v m =
    let (vpc, g, h1) = >>=-eq-ok (Vpcs.get db.vpcs vpc_id) _ h in
    let (u, o, h2) = >>=-eq-ok (require_vpc_owner env.ctx vpc) _ h1 in
    let (a, e, o1) = >>=-eq-ok (account_from_context env.ctx) _ o in
    let own = (nat_eq.beq_iff vpc.account_id a).0 (guard-holds (vpc.account_id == a) _ u o1) in
    let all = pages db vpc.account_id vpc_id in
    let parsed =
      In-All (λ (p : Peering). IsParsed p.route_policy) all
        (λ p i.
          All-In (λ (q : Peering). IsParsed q.route_policy) (values db.peerings) p c.policies
            (paged db vpc.account_id vpc_id p i).0) in
    elim (show_peerings-IsEffective db all all [] c (λ p i. i) parsed v
      (subst (In v) (sym (ok-inj h2)) m)) [
        | inl z ↦ absurd z
        | inr s ↦
            (let t = paged db vpc.account_id vpc_id s.peering s.among in
              record {
                vpc = vpc;
                found = g;
                owner = account-known env.ctx a e ∙ ap some (sym own);
                effective = record {
                  peering = s.peering;
                  among = t.0;
                  active = s.active;
                  route = s.route;
                  stored = s.stored;
                  of_peering = s.of_peering;
                  shows = s.shows;
                };
                made = t.1;
                side = t.2;
              })
      ]
