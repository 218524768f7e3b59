-- ===== src/Lifecycle/Passes.antt =====
-- A whole pass of internal/controller/reconciler.go follows the diagram.
use vpc_routing.Prelude.{
  ◌≡◌, refl, sym, ◌∙◌, inl, inr, some, List, [], ◌∷◌, subst, ◌==◌, nat_eq, Bool-cases, keep, All,
  In-All, In-keep,
}
use vpc_routing.Prelude.Maps.{lookup, values}
use vpc_routing.Model.Entities.{
  Uuid, Time, Peering, PeeringState, provisioning, pending_acceptance, failed, expired, state_eq,
  state_beq_iff,
}
use vpc_routing.Store.Peerings
use vpc_routing.Store.Peerings.{PeeringStore}
use vpc_routing.Api.Db.{Db, Externals, Env}
use vpc_routing.Bgp.Service.{Service}
use vpc_routing.Controller.Reconciler.{
  ReconcileReport, is_overdue, is_recent, listed, write_state, expire_one, expire_each,
  provision_one, provision_each, deprovision_each, retry_one, retry_each, expiring, empty_report,
  reconcile_all, Pass, add_retry, add_provisioned, in_state,
}
use vpc_routing.Lifecycle.Change.{expires, retries, Change, stays, adds, moves, Changes, done, next}
use vpc_routing.Lifecycle.Stored.{
  IsStore, IsStore-keyed, IsStore-insert, IsCurrent, IsCurrent-tail, keep-IsCurrent, Only,
}
use vpc_routing.Lifecycle.Control.{
  Writes, stays-Writes, write_state-Writes, provision_peering-Writes,
}

pub Change-IsStore : (s t : PeeringStore) → Change s t → IsStore s → IsStore t
Change-IsStore s t (stays e) w = subst IsStore (sym e) w
Change-IsStore s t (adds p m e) w = subst IsStore (sym e) (IsStore-insert s p.id p refl w)
Change-IsStore s t (moves k old new l m e) w =
    subst IsStore (sym e) (IsStore-insert s k new (m.same_id ∙ IsStore-keyed s w k old l) w)

pub Changes-IsStore : (s t : PeeringStore) → Changes s t → IsStore s → IsStore t
Changes-IsStore s t done w = w
Changes-IsStore s t (next {t = u} r c) w = Change-IsStore u t c (Changes-IsStore s u r w)

pub Changes-trans : (s t u : PeeringStore) → Changes s t → Changes t u → Changes s u
Changes-trans s t u r done = r
Changes-trans s t u r (next {t = v} q c) = next (Changes-trans s t v r q) c

pub first-Changes : (s t u : PeeringStore) → Change s t → Changes t u → Changes s u
first-Changes s t u c r = Changes-trans s t u (next done c) r

-- Peerings that are current and all in one state.
abbrev AllIn : PeeringState → List Peering → Type 0
AllIn t = All (λ (p : Peering). p.state ≡ t)

expire_one-Writes :
    (now : Time) (p : Peering) (w : Db × ReconcileReport)
    → IsStore w.0.peerings
    → lookup p.id w.0.peerings ≡ some p
    → p.state ≡ pending_acceptance
    → Writes p.id w.0.peerings (expire_one now p w).0.peerings
unfolding expire_one
expire_one-Writes now p (db, r) i l a = elim (Bool-cases (is_overdue now p)) [
  | inl e ↦ rw e (write_state-Writes expired p db i l (rw a expires))
  | inr e ↦ rw e (stays-Writes p.id db.peerings)
]

expire_each-Changes :
    (now : Time) (ps : List Peering) (w : Db × ReconcileReport)
    → IsStore w.0.peerings
    → IsCurrent w.0.peerings ps
    → AllIn pending_acceptance ps
    → Changes w.0.peerings (expire_each now ps w).0.peerings
unfolding expire_each
expire_each-Changes now [] w i c a = done
expire_each-Changes now (p ∷ ps) w i c a =
    let v = expire_one now p w in
    let h = expire_one-Writes now p w i c.0.0 a.0 in
    first-Changes w.0.peerings v.0.peerings _ h.0 (
      expire_each-Changes now ps v (Change-IsStore w.0.peerings v.0.peerings h.0 i)
        (IsCurrent-tail w.0.peerings v.0.peerings p ps h.1 c) a.1)

-- What `ListByState` gives is current and in that state.
list_by_state-IsCurrent :
    (s : PeeringStore) (t : PeeringState)
    → IsStore s
    → IsCurrent s (listed (Peerings.list_by_state s t))
      × AllIn t (listed (Peerings.list_by_state s t))
unfolding Peerings.list_by_state
list_by_state-IsCurrent s t i = (
  keep-IsCurrent s (λ p. p.state == t) i,
  In-All _ (keep (λ p. p.state == t) (values s))
      (λ p m. (state_beq_iff p.state t).0 ((In-keep (λ p. p.state == t) (values s) p).0 m).1),
)

module _ (svc : Service) (x : Externals) (now : Time) (env_of : Uuid → Env) where
  open svc use {State}

  provision_one-Writes :
      (f : ReconcileReport → ReconcileReport) (k : Uuid) (w : Pass svc x now env_of)
      → IsStore w.0.peerings
      → Writes k w.0.peerings (provision_one svc x now env_of f k w).0.peerings
  unfolding provision_one
  provision_one-Writes f k (db, s, r) i = provision_peering-Writes svc x (env_of k) k db s i

  provision_each-Changes :
      (ps : List Peering) (w : Pass svc x now env_of)
      → IsStore w.0.peerings
      → Changes w.0.peerings (provision_each svc x now env_of ps w).0.peerings
  unfolding provision_each
  provision_each-Changes [] w i = done
  provision_each-Changes (p ∷ ps) w i =
      let v = provision_one svc x now env_of add_provisioned p.id w in
      let h = provision_one-Writes add_provisioned p.id w i in
      first-Changes w.0.peerings v.0.peerings _ h.0
        (provision_each-Changes ps v (Change-IsStore w.0.peerings v.0.peerings h.0 i))

  deprovision_each-same :
      (ps : List Peering) (w : Pass svc x now env_of)
      → (deprovision_each svc x now env_of ps w).0 ≡ w.0
  unfolding deprovision_each
  deprovision_each-same [] w = refl
  deprovision_each-same (p ∷ ps) (db, s, r) = deprovision_each-same ps _

  Writes_trans : (k : Uuid) (s t u : PeeringStore) → Only k s t → Only k t u → Only k s u
  Writes_trans k s t u a b j h = b j h ∙ a j h

  -- A retry makes two changes, both to the one peering.
  retry_one-Changes :
      (p : Peering) (w : Pass svc x now env_of)
      → IsStore w.0.peerings
      → lookup p.id w.0.peerings ≡ some p
      → p.state ≡ failed
      → Changes w.0.peerings (retry_one svc x now env_of p w).0.peerings
        × Only p.id w.0.peerings (retry_one svc x now env_of p w).0.peerings
  unfolding retry_one
  retry_one-Changes p (db, s, r) i l a = elim (Bool-cases (is_recent now p)) [
    | inl e ↦ rw e (
        let t = write_state provisioning p db in
        let h = write_state-Writes provisioning p db i l (rw a retries) in
        let g =
          provision_one-Writes add_retry p.id (t, s, r)
            (Change-IsStore db.peerings t.peerings h.0 i) in
        (next (next done h.0) g.0, Writes_trans p.id db.peerings t.peerings _ h.1 g.1))
    | inr e ↦ rw e (done, λ j h. refl)
  ]

  retry_each-Changes :
      (ps : List Peering) (w : Pass svc x now env_of)
      → IsStore w.0.peerings
      → IsCurrent w.0.peerings ps
      → AllIn failed ps
      → Changes w.0.peerings (retry_each svc x now env_of ps w).0.peerings
  unfolding retry_each
  retry_each-Changes [] w i c a = done
  retry_each-Changes (p ∷ ps) w i c a =
      let v = retry_one svc x now env_of p w in
      let h = retry_one-Changes p w i c.0.0 a.0 in
      Changes-trans w.0.peerings v.0.peerings _ h.0 (
        retry_each-Changes ps v (Changes-IsStore w.0.peerings v.0.peerings h.0 i)
          (IsCurrent-tail w.0.peerings v.0.peerings p ps h.1 c) a.1)

  expiring-Changes :
      (w : Pass svc x now env_of)
      → IsStore w.0.peerings
      → Changes w.0.peerings (expiring svc x now env_of w).0.peerings
  expiring-Changes (db, s, r) i =
      let c = list_by_state-IsCurrent db.peerings pending_acceptance i in
      expire_each-Changes now _ (db, r) i c.0 c.1

  -- A pass of the reconciler, with any BGP service, changes the peering store along the state
  -- diagram only.
  pub reconcile_all-Changes :
      (db : Db) (s : State)
      → IsStore db.peerings
      → Changes db.peerings (reconcile_all svc x now env_of db s).0.peerings
  unfolding reconcile_all
  reconcile_all-Changes db s i =
      let w0 : Pass svc x now env_of = (db, s, empty_report svc x now env_of) in
      let w1 = provision_each svc x now env_of (in_state svc x now env_of provisioning w0) w0 in
      let c1 = provision_each-Changes (in_state svc x now env_of provisioning w0) w0 i in
      let i1 = Changes-IsStore db.peerings w1.0.peerings c1 i in
      let ps = in_state svc x now env_of PeeringState.deleting w1 in
      let w2 = deprovision_each svc x now env_of ps w1 in
      let same : w2.0 ≡ w1.0 = deprovision_each-same ps w1 in
      let i2 : IsStore w2.0.peerings = subst (λ (d : Db). IsStore d.peerings) (sym same) i1 in
      let c2 = subst (λ (d : Db). Changes db.peerings d.peerings) (sym same) c1 in
      let w3 = expiring svc x now env_of w2 in
      let c3 = expiring-Changes w2 i2 in
      let i3 = Changes-IsStore w2.0.peerings w3.0.peerings c3 i2 in
      let c = list_by_state-IsCurrent w3.0.peerings failed i3 in
      Changes-trans db.peerings w3.0.peerings _
        (Changes-trans db.peerings w2.0.peerings w3.0.peerings c2 c3)
        (retry_each-Changes (in_state svc x now env_of failed w3) w3 i3 c.0 c.1)
