-- ===== src/Lifecycle/Control.antt =====
-- The controller changes the peering store along the diagram, one peering at a time, whatever the BGP
-- service answers.
use vpc_routing.Prelude.{
  ◌≡◌, refl, sym, ◌∙◌, ap, inl, inr, arith, some, Result, ok, err, ◌==◌, nat_eq, Bool-cases,
}
use vpc_routing.Prelude.Maps.{lookup, insert}
use vpc_routing.Model.Entities.{
  Uuid, Vpc, Peering, PeeringState, provisioning, state_eq, state_beq_iff, AppError,
}
use vpc_routing.Store.Vpcs
use vpc_routing.Store.Peerings
use vpc_routing.Store.Peerings.{PeeringStore}
use vpc_routing.Api.Db.{Db, Externals, Env, emit_event}
use vpc_routing.Api.PeeringHandler.{or_unchanged}
use vpc_routing.Bgp.Service.{Service, BgpError}
use vpc_routing.Controller.Provisioner.{
  ProvisionError, ready, commit, activated, set_fabric, provision_peering, on_ready, on_fabric,
  on_peering, on_requester, on_accepter, finish,
}
use vpc_routing.Controller.Reconciler.{write_state}
use vpc_routing.Lifecycle.Change.{◌⟶◌, activates, Moves, Change, stays, moves}
use vpc_routing.Lifecycle.Stored.{IsStore, IsStore-keyed, Only, insert-Only}
use vpc_routing.Lifecycle.Handlers.{get-ok}

-- A change that writes the entry under `k` at most.
abbrev pub Writes : Uuid → PeeringStore → PeeringStore → Type 0
Writes k s t = Change s t × Only k s t

pub stays-Writes : (k : Uuid) (s : PeeringStore) → Writes k s s
stays-Writes k s = (stays refl, λ j h. refl)

written :
    (s t : PeeringStore) (k : Uuid) (old new : Peering)
    → IsStore s
    → lookup k s ≡ some old
    → Moves old new
    → Peerings.update s new ≡ ok t
    → Writes k s t
unfolding Peerings.update
written s t k old new w l m h =
    let e : new.id ≡ k = m.same_id ∙ IsStore-keyed s w k old l in
    let q : t ≡ insert k new s = ground (arith, ap (λ i. lookup i s) e) in
    (moves k old new l m q, λ j d. ap (lookup j) q ∙ insert-Only s k new j d)

-- A write that drops its error.
dropped :
    (s : PeeringStore) (k : Uuid) (old new : Peering)
    → IsStore s
    → lookup k s ≡ some old
    → Moves old new
    → (r : Result AppError PeeringStore) → Peerings.update s new ≡ r
    → Writes k s (or_unchanged s r)
dropped s k old new w l m (err e) h = stays-Writes k s
dropped s k old new w l m (ok t) h = written s t k old new w l m h

pub write_state-Writes :
    (t : PeeringState) (p : Peering) (db : Db)
    → IsStore db.peerings
    → lookup p.id db.peerings ≡ some p
    → p.state ⟶ t
    → Writes p.id db.peerings (write_state t p db).peerings
unfolding write_state
write_state-Writes t p db w l g =
    dropped db.peerings p.id p (record p { state = t }) w l
      (record { same_id = refl; same_requester = refl; same_accepter = refl; edge = g })
      (Peerings.update db.peerings (record p { state = t })) refl

finish-Writes :
    (env : Env) (k : Uuid) (db : Db) (old new : Peering)
    → IsStore db.peerings
    → lookup k db.peerings ≡ some old
    → Moves old new
    → (r : Result AppError PeeringStore) → Peerings.update db.peerings new ≡ r
    → Writes k db.peerings (finish env k db r).0.peerings
unfolding emit_event
finish-Writes env k db old new w l m (err e) h = stays-Writes k db.peerings
finish-Writes env k db old new w l m (ok t) h = written db.peerings t k old new w l m h

commit-Writes :
    (env : Env) (k : Uuid) (db : Db) (p : Peering) (requester accepter : Vpc)
    → IsStore db.peerings
    → lookup k db.peerings ≡ some p
    → p.state ≡ provisioning
    → Writes k db.peerings (commit env k db p requester accepter).0.peerings
unfolding commit
commit-Writes env k db p requester accepter w l e =
    finish-Writes env k _ p (activated env p _) w l
      (record {
        same_id = refl;
        same_requester = refl;
        same_accepter = refl;
        edge = rw e activates;
      })
      _ refl

pub ready-ok :
    (db : Db) (k : Uuid) (t : Peering × Vpc × Vpc)
    → ready db k ≡ ok t
    → (lookup k db.peerings ≡ some t.0) × (t.0.state ≡ provisioning)
unfolding ready
ready-ok db k (p, r, a) h = at-peering (Peerings.get db.peerings k) refl h
  where
    err-ne-ok :
        {e : ProvisionError}
        → ◌≡◌ {A = Result ProvisionError (Peering × Vpc × Vpc)} (err e) (ok (p, r, a))
        → ⊥
    err-ne-ok h = cc

    at-accepter :
        (q : Peering) (v : Vpc) (o : Result AppError Vpc)
        → ◌≡◌ {A = Result ProvisionError (Peering × Vpc × Vpc)} (on_accepter q v o) (ok (p, r, a))
        → q ≡ p
    at-accepter q v (err e) h = cc
    at-accepter q v (ok w) h = cc

    at-requester :
        (q : Peering) (o : Result AppError Vpc)
        → ◌≡◌ {A = Result ProvisionError (Peering × Vpc × Vpc)} (on_requester db q o) (ok (p, r, a))
        → q ≡ p
    at-requester q (err e) h = cc
    at-requester q (ok v) h = at-accepter q v (Vpcs.get db.vpcs q.accepter_vpc_id) h

    at-peering :
        (o : Result AppError Peering)
        → Peerings.get db.peerings k ≡ o
        → ◌≡◌ {A = Result ProvisionError (Peering × Vpc × Vpc)} (on_peering db o) (ok (p, r, a))
        → (lookup k db.peerings ≡ some p) × (p.state ≡ provisioning)
    at-peering (err e) g h = cc
    at-peering (ok q) g h = elim (Bool-cases (q.state == provisioning)) [
      | inl e ↦
          (let same = at-requester q (Vpcs.get db.vpcs q.requester_vpc_id) (rw e at h) in
            (
              get-ok db.peerings k q g ∙ ap some same,
              ap (λ (x : Peering). x.state) (sym same) ∙ (state_beq_iff q.state provisioning).0 e,
            ))
      | inr e ↦ absurd (err-ne-ok (rw e at h))
    ]

module _ (svc : Service) (x : Externals) (env : Env) (k : Uuid) where
  open svc use {State}

  provisioned-Writes :
      (db : Db) (s : State) (t : Peering × Vpc × Vpc)
      → IsStore db.peerings
      → (lookup k db.peerings ≡ some t.0) × (t.0.state ≡ provisioning)
      → (o : State × Result BgpError (Unit {0}))
      → Writes k db.peerings (on_fabric svc env k db t.0 t.1 t.2 o).0.peerings
  provisioned-Writes db s t w h (s', err e) = stays-Writes k db.peerings
  provisioned-Writes db s t w h (s', ok u) = commit-Writes env k db t.0 t.1 t.2 w h.0 h.1

  -- `ProvisionPeering`, with any BGP service, changes the peering store along the state diagram
  -- and under the identifier that it is given at most.
  pub provision_peering-Writes :
      (db : Db) (s : State)
      → IsStore db.peerings
      → Writes k db.peerings (provision_peering svc x env k db s).0.peerings
  unfolding provision_peering
  provision_peering-Writes db s w = at (ready db k) refl
    where
      at :
          (r : Result ProvisionError (Peering × Vpc × Vpc))
          → ready db k ≡ r
          → Writes k db.peerings (on_ready svc x env k db s r).0.peerings
      at (err e) h = stays-Writes k db.peerings
      at (ok (p, q, a)) h =
          provisioned-Writes db s (p, q, a) w (ready-ok db k (p, q, a) h) (set_fabric svc x p q a s)
