-- ===== src/Lifecycle/Handlers.antt =====
-- Each handler of internal/api/peering_handler.go changes the peering store along the diagram.
use vpc_routing.Prelude.{
  ◌≡◌, refl, sym, ◌∙◌, ap, arith, Option, none, some, Result, ok, err, ◌==◌, nat_eq, >>=-eq-ok,
  guard, String, ◌||◌, subst,
}
use vpc_routing.Prelude.Maps.{lookup}
use vpc_routing.Model.Netip.{Prefix}
use vpc_routing.Model.Entities.{
  Uuid, Time, Peering, PeeringState, pending_acceptance, provisioning, rejected, state_eq,
  state_beq_iff, AppError, err_invalid_state,
}
use vpc_routing.Store.Peerings
use vpc_routing.Store.Peerings.{PeeringStore}
use vpc_routing.Auth.Access.{account_from_context}
use vpc_routing.Api.Db.{Db, Externals, Env, or_fail, emit_event}
use vpc_routing.Api.PeeringHandler.{
  CreatePeeringRequest, UpdatePeeringRequest, RoutePolicyRequest, admits, proposed,
  chosen_direction, parse_route_policy, new_peering, redirected, with_policy, pending_for,
  require_peering_auth, or_unchanged, is_owner, OverrideRouteRequest, override,
}
use vpc_routing.Api.PeeringHandler as Handler
use vpc_routing.Api.Settled.{settle, try_accept, try_delete, try_reject, try_update}
use vpc_routing.Api.Settled.Handlers.{accept-settle, delete-settle, reject-settle, update-settle}
use vpc_routing.Lifecycle.Change.{accepts, rejects, removes, edits, Moves, Change, stays, moves}

-- Entries are stored under their own identifiers.
abbrev pub IsKeyed : PeeringStore → Type 0
IsKeyed s = (k : Uuid) (p : Peering) → lookup k s ≡ some p → p.id ≡ k

pub get-ok :
    (s : PeeringStore) (k : Uuid) (p : Peering) → Peerings.get s k ≡ ok p → lookup k s ≡ some p
unfolding Peerings.get
get-ok s k p h = ground arith

-- A write through `Update` of what `Get` returned, after a transition.
update-Change :
    (s t : PeeringStore) (k : Uuid) (old new : Peering)
    → IsKeyed s
    → Peerings.get s k ≡ ok old
    → Moves old new
    → Peerings.update s new ≡ ok t
    → Change s t
unfolding Peerings.update
update-Change s t k old new keyed g m h =
    let l = get-ok s k old g in
    let e : new.id ≡ k = m.same_id ∙ keyed k old l in moves k old new l m (ground arith)

pub settle-Change {ℓ} :
    {A : Type ℓ} (db : Db) {w : Db × Result AppError A} {r : Result AppError (Db × A)}
    → w ≡ settle db r
    → ((db' : Db) (a : A) → r ≡ ok (db', a) → Change db.peerings db'.peerings)
    → Change db.peerings w.0.peerings
unfolding settle
settle-Change {A = A} db {r = err e} p h =
    stays (ap (λ (z : Db × Result AppError A). z.0.peerings) p)
settle-Change {A = A} db {r = ok (db', a)} p h =
    subst (Change db.peerings) (ap (λ (z : Db × Result AppError A). z.0.peerings) (sym p))
      (h db' a refl)

pub ok-state {ℓ} :
    {A : Type ℓ} {x y : Db} {a b : A}
    → ◌≡◌ {A = Result AppError (Db × A)} (ok (x, a)) (ok (y, b))
    → x ≡ y
ok-state h = cc

state-known :
    (q : Peering) (t : PeeringState) (u : Unit {0}) (e : AppError)
    → guard (q.state == t) e ≡ ok u
    → q.state ≡ t
state-known q t u e h = ground (arith, state_beq_iff q.state t)

pending_for-ok :
    (env : Env) (k : Uuid) (db : Db) (p : Peering)
    → pending_for env k db ≡ ok p
    → (Peerings.get db.peerings k ≡ ok p) × (p.state ≡ pending_acceptance)
unfolding pending_for
pending_for-ok env k db p h =
    let (a, _, h1) = >>=-eq-ok (account_from_context env.ctx) _ h in
    let (q, g, h2) = >>=-eq-ok (Peerings.get db.peerings k) _ h1 in
    let (u, s, h3) = >>=-eq-ok (guard (q.state == pending_acceptance) _) _ h2 in
    let (_, _, h4) = >>=-eq-ok (guard (is_owner _ a) _) _ h3 in
    let e : q ≡ p = cc in
    (
      g ∙ ap ok e,
      ap (λ (x : Peering). x.state) (sym e)
          ∙ state-known q pending_acceptance u err_invalid_state s,
    )

pub accept-Change :
    (env : Env) (k : Uuid) (db : Db)
    → IsKeyed db.peerings
    → Change db.peerings (Handler.accept env k db).0.peerings
unfolding try_accept emit_event
accept-Change env k db keyed = settle-Change db (accept-settle env k db) λ db' a h.
    let (p, f, h1) = >>=-eq-ok (pending_for env k db) _ h in
    let (t, u, h2) =
      >>=-eq-ok (Peerings.update db.peerings (record p { state = provisioning })) _ h1 in
    let (g, s) = pending_for-ok env k db p f in
    let e : t ≡ db'.peerings = ap (λ (r : Db). r.peerings) (ok-state h2) in
    update-Change db.peerings db'.peerings k p (record p { state = provisioning }) keyed g
      (record { same_id = refl; same_requester = refl; same_accepter = refl; edge = rw s accepts })
      (u ∙ ap ok e)

reject-written :
    (s : PeeringStore) (k : Uuid) (p : Peering)
    → IsKeyed s
    → Peerings.get s k ≡ ok p
    → p.state ≡ pending_acceptance
    → (r : Result AppError PeeringStore) → Peerings.update s (record p { state = rejected }) ≡ r
    → Change s (or_unchanged s r)
reject-written s k p keyed g e (err x) h = stays refl
reject-written s k p keyed g e (ok t) h =
    update-Change s t k p (record p { state = rejected }) keyed g
      (record { same_id = refl; same_requester = refl; same_accepter = refl; edge = rw e rejects })
      h

pub reject-Change :
    (env : Env) (k : Uuid) (db : Db)
    → IsKeyed db.peerings
    → Change db.peerings (Handler.reject env k db).0.peerings
unfolding try_reject
reject-Change env k db keyed = settle-Change db (reject-settle env k db) λ db' a h.
    let (p, f, h1) = >>=-eq-ok (pending_for env k db) _ h in
    let (g, s) = pending_for-ok env k db p f in
    subst (Change db.peerings) (ap (λ (r : Db). r.peerings) (ok-state h1))
      (reject-written db.peerings k p keyed g s _ refl)

with_policy-Moves :
    (parse : String → Option Prefix) (o : Option RoutePolicyRequest) (d : Option String)
    (p q : Peering)
    → with_policy parse o (redirected d p) ≡ ok q
    → Moves p q
with_policy-Moves parse o d p q h = record {
  same_id = (kept o d h).0;
  same_requester = (kept o d h).1;
  same_accepter = (kept o d h).2;
  edge = rw (kept o d h).3 edits;
}
  where
    kept :
        (o : Option RoutePolicyRequest) (d : Option String)
        → with_policy parse o (redirected d p) ≡ ok q
        → (q.id ≡ p.id)
          × (q.requester_vpc_id ≡ p.requester_vpc_id)
          × (q.accepter_vpc_id ≡ p.accepter_vpc_id)
          × (q.state ≡ p.state)
    kept none none h = ground arith
    kept none (some s) h = ground arith
    kept (some r) none h = ground arith
    kept (some r) (some s) h = ground arith

pub update-handler-Change :
    (x : Externals) (env : Env) (body : Option UpdatePeeringRequest) (k : Uuid) (db : Db)
    → IsKeyed db.peerings
    → Change db.peerings (Handler.update x env body k db).0.peerings
unfolding try_update emit_event
update-handler-Change x env body k db keyed =
    settle-Change db (update-settle x env body k db) λ db' a h.
      let (acc, _, h1) = >>=-eq-ok (account_from_context env.ctx) _ h in
      let (p, g, h2) = >>=-eq-ok (Peerings.get db.peerings k) _ h1 in
      let (_, _, h3) = >>=-eq-ok (guard (is_owner _ acc) _) _ h2 in
      let (_, _, h4) =
        >>=-eq-ok (guard (p.state == PeeringState.active || p.state == provisioning) _) _ h3 in
      let (req, _, h5) = >>=-eq-ok (or_fail body _) _ h4 in
      let (q, c, h6) =
        >>=-eq-ok (with_policy x.parse_prefix req.route_policy (redirected req.direction p)) _ h5 in
      let (t, u, h7) = >>=-eq-ok (Peerings.update db.peerings q) _ h6 in
      update-Change db.peerings db'.peerings k p q keyed g
        (with_policy-Moves x.parse_prefix req.route_policy req.direction p q c)
        (u ∙ ap ok (ap (λ (r : Db). r.peerings) (ok-state h7)))

removed-Change :
    (s t : PeeringStore) (k : Uuid) (p : Peering) (now : Time)
    → IsKeyed s
    → Peerings.get s k ≡ ok p
    → Peerings.delete s k now ≡ ok t
    → Change s t
unfolding Peerings.delete
removed-Change s t k p now keyed g h =
    let l = get-ok s k p g in
    moves k p (record p { state = PeeringState.deleted; deleted_at = some now }) l
      (record { same_id = refl; same_requester = refl; same_accepter = refl; edge = removes })
      (ground arith)

pub delete-Change :
    (env : Env) (k : Uuid) (db : Db)
    → IsKeyed db.peerings
    → Change db.peerings (Handler.delete env k db).0.peerings
unfolding try_delete emit_event
delete-Change env k db keyed = settle-Change db (delete-settle env k db) λ db' a h.
    let (p, g, h1) = >>=-eq-ok (Peerings.get db.peerings k) _ h in
    let (_, _, h2) = >>=-eq-ok (require_peering_auth env db p) _ h1 in
    let (t, u, h3) = >>=-eq-ok (Peerings.delete db.peerings k env.now) _ h2 in
    removed-Change db.peerings db'.peerings k p env.now keyed g
      (u ∙ ap ok (ap (λ (r : Db). r.peerings) (ok-state h3)))
