-- ===== src/Lifecycle/Races.antt =====
-- Two runs of `Create` of internal/api/peering_handler.go that overlap: it reads the peerings and stores
-- the new one in separate calls of the store, and holds no lock from one to the other.
use vpc_routing.Prelude.{
  ◌≡◌, ◌≢◌, refl, ap, inl, inr, arith, true, Option, none, ok, nat_eq, nat_beq_iff,
}
use vpc_routing.Prelude.Maps.{
  lookup, insert, lookup-insert, count_values, count_values-insert_new, bool_nat,
}
use vpc_routing.Model.Entities.{Uuid, Peering, state_eq}
use vpc_routing.Store.Peerings.{PeeringStore, is_live, joins, is_between}
use vpc_routing.Store.Peerings
use vpc_routing.Api.Db.{Db, Externals, Env, emit_event}
use vpc_routing.Api.PeeringHandler.{CreatePeeringRequest, proposed, store_proposed}
use vpc_routing.Lifecycle.Creation.{proposed-IsProposed}
use vpc_routing.Lifecycle.Change.{IsAdmitted}
use vpc_routing.Lifecycle.Invariant.{admits-ok}

-- The second half of `Create`, on the stores as they then are.
unfoldable pub stored_later : Env → Peering → Db → Db
stored_later env p db = (store_proposed env p db).0

stored_later-peerings :
    (env : Env) (p : Peering) (db : Db)
    → (stored_later env p db).peerings ≡ insert p.id p db.peerings
unfolding stored_later store_proposed emit_event Peerings.create
stored_later-peerings env p db = refl

admitted_between :
    (s : PeeringStore) (a b : Uuid) (p : Peering)
    → IsAdmitted s p
    → p.requester_vpc_id ≡ a
    → p.accepter_vpc_id ≡ b
    → is_between a b p ≡ true
admitted_between s a b p h q r = elim h.initial [
  | inl e ↦
      ground (arith, e, q, r, nat_beq_iff p.requester_vpc_id a, nat_beq_iff p.accepter_vpc_id b)
  | inr e ↦
      ground (arith, e, q, r, nat_beq_iff p.requester_vpc_id a, nat_beq_iff p.accepter_vpc_id b)
]

-- If two requests to create a peering, from one requester to one accepter, each pass their
-- checks before the other has stored, and draw two identifiers that are not in use, then both
-- store, and the pair of VPCs has two live peerings.
pub stored_later_twice :
    (x : Externals) (env env' : Env) (body body' : Option CreatePeeringRequest) (db : Db)
    (p q : Peering)
    → proposed x env body db ≡ ok p
    → proposed x env' body' db ≡ ok q
    → q.requester_vpc_id ≡ p.requester_vpc_id
    → q.accepter_vpc_id ≡ p.accepter_vpc_id
    → p.id ≢ q.id
    → lookup p.id db.peerings ≡ none
    → lookup q.id db.peerings ≡ none
    → count_values
        (is_between p.requester_vpc_id p.accepter_vpc_id)
        (stored_later env' q (stored_later env p db)).peerings
      ≡ 2
stored_later_twice x env env' body body' db p q hp hq r a n fp fq =
    let f = is_between p.requester_vpc_id p.accepter_vpc_id in
    let ip = (proposed-IsProposed x env body db p hp).admitted in
    let iq = (proposed-IsProposed x env' body' db q hq).admitted in
    let s = insert p.id p db.peerings in
    let none_before = (admits-ok db.peerings p.requester_vpc_id p.accepter_vpc_id ip.room).0 in
    let first_on =
      admitted_between db.peerings p.requester_vpc_id p.accepter_vpc_id p ip refl refl in
    let second_on = admitted_between db.peerings p.requester_vpc_id p.accepter_vpc_id q iq r a in
    let fresh : lookup q.id s ≡ none = still_none p q db.peerings n fq in
    rw (stored_later-peerings env' q (stored_later env p db), stored_later-peerings env p db)
      (ground (
        arith,
        count_values-insert_new f q.id q s fresh,
        count_values-insert_new f p.id p db.peerings fp,
        none_before,
        ap bool_nat first_on,
        ap bool_nat second_on,
      ))
  where
    still_none :
        (p q : Peering) (s : PeeringStore)
        → p.id ≢ q.id
        → lookup q.id s ≡ none
        → lookup q.id (insert p.id p s) ≡ none
    still_none p q s n h = ground (arith, lookup-insert p.id q.id p s, n, nat_beq_iff p.id q.id)
