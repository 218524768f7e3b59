-- ===== src/Controller/Reconciler.antt =====
-- internal/controller/reconciler.go: one pass over the peerings. Each phase lists the store once and
-- then works through that list. `env_of` gives the clock and the fresh identifiers of each call.
use vpc_routing.Prelude.{
  ℕ, ◌+◌, ◌-◌, ◌*◌, Bool, List, [], ◌∷◌, ◌++◌, if◌then◌else◌, ltb, Result, ok, err,
}
use vpc_routing.Model.Entities.{
  Uuid, Time, Peering, PeeringState, provisioning, pending_acceptance, failed, expired, AppError,
}
use vpc_routing.Store.Peerings
use vpc_routing.Store.Peerings.{PeeringStore}
use vpc_routing.Api.Db.{Db, Externals, Env}
use vpc_routing.Api.PeeringHandler.{or_unchanged}
use vpc_routing.Bgp.Service.{Service}
use vpc_routing.Controller.Provisioner.{ProvisionError, provision_peering, deprovision_peering}

pub record ReconcileReport : Type 0 where
  pub provisioned : ℕ
  pub deprovisioned : ℕ
  pub expired_pending : ℕ
  pub failed_retries : ℕ
  pub errors : List ProvisionError

abbrev pub second : ℕ
second = 1_000_000_000

-- Seven days and ten minutes.
abbrev pub pending_expiry : ℕ
pending_expiry = 7 * 24 * 3600 * second

abbrev pub retry_window : ℕ
retry_window = 600 * second

-- `time.Since(p.CreatedAt) > 7*24*time.Hour`; a time in the future is no time ago.
abbrev pub is_overdue : Time → Peering → Bool
is_overdue now p = ltb pending_expiry (now - p.created_at)

abbrev pub is_recent : Time → Peering → Bool
is_recent now p = ltb (now - p.created_at) retry_window

abbrev pub listed {ℓ} : {A : Type ℓ} → Result AppError (List A) → List A
listed (ok xs) = xs
listed (err e) = []

-- `r.peerings.Update(ctx, &p)` with the state changed; its error is dropped.
unfoldable pub write_state : PeeringState → Peering → Db → Db
write_state t p db = record db {
  peerings = or_unchanged db.peerings (Peerings.update db.peerings (record p { state = t }));
}

-- The body of the loop that expires, and the loop.
unfoldable pub expire_one : Time → Peering → Db × ReconcileReport → Db × ReconcileReport
expire_one now p (db, r) =
    if is_overdue now p
    then (write_state expired p db, record r { expired_pending = r.expired_pending + 1 })
    else (db, r)

unfoldable pub expire_each : Time → List Peering → Db × ReconcileReport → Db × ReconcileReport
expire_each now [] w = w
expire_each now (p ∷ ps) w = expire_each now ps (expire_one now p w)

abbrev count_error {ℓ} :
    {A : Type ℓ}
    → (ReconcileReport → ReconcileReport)
    → Result ProvisionError A
    → ReconcileReport
    → ReconcileReport
count_error done (ok a) r = done r
count_error done (err e) r = record r { errors = r.errors ++ e ∷ [] }

abbrev pub add_provisioned : ReconcileReport → ReconcileReport
add_provisioned r = record r { provisioned = r.provisioned + 1 }

abbrev pub add_deprovisioned : ReconcileReport → ReconcileReport
add_deprovisioned r = record r { deprovisioned = r.deprovisioned + 1 }

abbrev pub add_retry : ReconcileReport → ReconcileReport
add_retry r = record r { failed_retries = r.failed_retries + 1 }

module _ (svc : Service) (x : Externals) (now : Time) (env_of : Uuid → Env) where
  open svc use {State}

  -- The stores, the fabric and the report so far.
  abbrev pub Pass : Type 0
  Pass = Db × State × ReconcileReport

  unfoldable pub provision_one : (ReconcileReport → ReconcileReport) → Uuid → Pass → Pass
  provision_one done id (db, s, r) =
      let (db', s', e) = provision_peering svc x (env_of id) id db s in
      (db', s', count_error done e r)

  unfoldable pub provision_each : List Peering → Pass → Pass
  provision_each [] w = w
  provision_each (p ∷ ps) w = provision_each ps (provision_one add_provisioned p.id w)

  unfoldable pub deprovision_each : List Peering → Pass → Pass
  deprovision_each [] w = w
  deprovision_each (p ∷ ps) (db, s, r) =
      let (s', e) = deprovision_peering svc x p.id db s in
      deprovision_each ps (db, s', count_error add_deprovisioned e r)

  -- The body of the loop that retries: the state is written back, and the peering provisioned at
  -- once; and the loop.
  unfoldable pub retry_one : Peering → Pass → Pass
  retry_one p (db, s, r) =
      if is_recent now p
      then provision_one add_retry p.id (write_state provisioning p db, s, r)
      else (db, s, r)

  unfoldable pub retry_each : List Peering → Pass → Pass
  retry_each [] w = w
  retry_each (p ∷ ps) w = retry_each ps (retry_one p w)

  abbrev pub in_state : PeeringState → Pass → List Peering
  in_state t w = listed (Peerings.list_by_state w.0.peerings t)

  abbrev pub expiring : Pass → Pass
  expiring (db, s, r) =
      let (db', r') =
        expire_each now (listed (Peerings.list_by_state db.peerings pending_acceptance)) (db, r) in
      (db', s, r')

  abbrev pub empty_report : ReconcileReport
  empty_report = record {
    provisioned = 0;
    deprovisioned = 0;
    expired_pending = 0;
    failed_retries = 0;
    errors = [];
  }

  unfoldable pub reconcile_all : Db → State → Pass
  reconcile_all db s =
      let w1 = provision_each (in_state provisioning (db, s, empty_report)) (db, s, empty_report) in
      let w2 = deprovision_each (in_state PeeringState.deleting w1) w1 in
      let w3 = expiring w2 in retry_each (in_state failed w3) w3
