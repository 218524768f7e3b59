-- ===== src/Lifecycle/Created.antt =====
-- What `Create` of internal/api/peering_handler.go has done where it answers with a peering.
use vpc_routing.Prelude.{
  ◌<◌, ◌≡◌, ◌≢◌, refl, sym, ap, arith, Option, some, List, [], ◌∷◌, ◌++◌, ok, Result, >>=-eq-ok,
  ok-inj, In, All, true-ne-false, nat_eq, ◌∙◌, false,
}
use vpc_routing.Prelude.Maps.{lookup, insert, AllValues, AllValues-lookup, count_values}
use vpc_routing.Model.Netip.{Prefix, IsPrefix}
use vpc_routing.Model.Cidr.{cidrs_overlap}
use vpc_routing.Model.Cidr.Blocks.{Disjoint, cidrs_overlap_iff}
use vpc_routing.Model.Entities.{Uuid, Vpc, VpcState, Peering, peering_created, AppError}
use vpc_routing.Store.Vpcs
use vpc_routing.Store.Vpcs.{VpcStore}
use vpc_routing.Store.Events
use vpc_routing.Store.Peerings
use vpc_routing.Store.Peerings.{is_between, touches}
use vpc_routing.Api.Db.{Db, Externals, Env, emit_event}
use vpc_routing.Api.PeeringHandler.{CreatePeeringRequest, proposed}
use vpc_routing.Api.PeeringHandler as Handler
use vpc_routing.Api.Settled.{settle, settle-answer, try_create}
use vpc_routing.Api.Settled.Handlers.{create-settle}
use vpc_routing.Lifecycle.Creation.{Starts, proposed-IsProposed}
use vpc_routing.Lifecycle.Invariant.{admits-ok}

-- A VPC that the store holds and that is not deleted.
abbrev pub Holds : VpcStore → Uuid → Vpc → Type 0
Holds s k v = (lookup k s ≡ some v) × (v.state ≢ VpcState.deleted)

get-Holds : (s : VpcStore) (k : Uuid) (v : Vpc) → Vpcs.get s k ≡ ok v → Holds s k v
unfolding Vpcs.get
get-Holds s k v h = (ground arith, λ e. ground arith)

pub record Creates (env : Env) (db db' : Db) (p : Peering) : Type 0 where
  pub requester : Vpc
  pub accepter : Vpc
  pub requester_held : Holds db.vpcs p.requester_vpc_id requester
  pub accepter_held : Holds db.vpcs p.accepter_vpc_id accepter
  pub apart : p.requester_vpc_id ≢ p.accepter_vpc_id
  pub caller : env.ctx ≡ some requester.account_id
  pub disjoint :
      (c d : Prefix) → In c requester.cidr_blocks → In d accepter.cidr_blocks → Disjoint c d
  pub unpaired : count_values (is_between p.requester_vpc_id p.accepter_vpc_id) db.peerings ≡ 0
  pub requester_room : count_values (touches p.requester_vpc_id) db.peerings < 125
  pub accepter_room : count_values (touches p.accepter_vpc_id) db.peerings < 125
  pub starts : Starts requester accepter p
  pub stored : db'.peerings ≡ insert p.id p db.peerings
  pub told :
      db'.events
      ≡ db.events
        ++ record {
          id = env.event_id;
          peering_id = p.id;
          type = peering_created;
          timestamp = env.now;
        }
          ∷ []

apart-blocks :
    (xs ys : List Prefix)
    → All IsPrefix xs
    → All IsPrefix ys
    → cidrs_overlap xs ys ≡ false
    → (c d : Prefix) → In c xs
    → In d ys
    → Disjoint c d
apart-blocks xs ys u v h c d m n a i j =
    true-ne-false (sym ((cidrs_overlap_iff xs ys u v).1 (c, m, (d, n, (a, i, j)))) ∙ h)

-- What `Create` writes, once its checks have let `p` through.
written :
    (x : Externals) (env : Env) (body : Option CreatePeeringRequest) (db : Db) (p : Peering)
    → proposed x env body db ≡ ok p
    → (Handler.create x env body db).0
      ≡ emit_event env (record db { peerings = insert p.id p db.peerings }) p.id peering_created
unfolding settle try_create Peerings.create
written x env body db p h =
    ap (λ (w : Db × Result AppError Peering). w.0) (create-settle x env body db) ∙ rw h refl

-- The peering that the checks let through is the one that is answered with.
let_through :
    (x : Externals) (env : Env) (body : Option CreatePeeringRequest) (db : Db) (p : Peering)
    → (Handler.create x env body db).1 ≡ ok p
    → proposed x env body db ≡ ok p
unfolding try_create Peerings.create
let_through x env body db p h =
    let (db', t) = settle-answer db (try_create x env body db) p (create-settle x env body db) h in
    let (q, f, h1) = >>=-eq-ok (proposed x env body db) _ t in
    f ∙ ap (λ (z : Db × Peering). ok z.1) (ok-inj h1)

-- Where `Create` answers with a peering, its requester and its accepter are two VPCs that are
-- not deleted, of which the caller owns the requester; no block of the one shares an address
-- with a block of the other; no live peering joined the two, and each had fewer than 125 of
-- them; the peering starts as provisioning if both VPCs have one owner, and as pending
-- acceptance otherwise; and the stores have gained that peering, under its identifier, and the
-- event of its creation. The blocks in the store are prefixes as `ParsePrefix` gives them.
pub create-Creates :
    (x : Externals) (env : Env) (body : Option CreatePeeringRequest) (db : Db) (p : Peering)
    → AllValues (λ v. All IsPrefix v.cidr_blocks) db.vpcs
    → (Handler.create x env body db).1 ≡ ok p
    → Creates env db (Handler.create x env body db).0 p
unfolding emit_event Events.append
create-Creates x env body db p blocks h =
    let f = let_through x env body db p h in
    let i = proposed-IsProposed x env body db p f in
    let w = written x env body db p f in
    let a = admits-ok db.peerings p.requester_vpc_id p.accepter_vpc_id i.admitted.room in
    let r = get-Holds db.vpcs p.requester_vpc_id i.requester i.requester_found in
    let s = get-Holds db.vpcs p.accepter_vpc_id i.accepter i.accepter_found in
    let are_prefixes = AllValues-lookup (λ v. All IsPrefix v.cidr_blocks) in
    record {
      requester = i.requester;
      accepter = i.accepter;
      requester_held = r;
      accepter_held = s;
      apart = i.admitted.apart;
      caller = i.caller ∙ ap some (sym i.owned);
      disjoint =
          apart-blocks i.requester.cidr_blocks i.accepter.cidr_blocks
            (are_prefixes p.requester_vpc_id i.requester db.vpcs r.0 blocks)
            (are_prefixes p.accepter_vpc_id i.accepter db.vpcs s.0 blocks) i.no_overlap;
      unpaired = a.0;
      requester_room = a.1;
      accepter_room = a.2;
      starts = i.started;
      stored = ap (λ (d : Db). d.peerings) w;
      told = ap (λ (d : Db). d.events) w;
    }
