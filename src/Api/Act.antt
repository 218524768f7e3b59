-- ===== src/Api/Act.antt =====
-- How the handlers of internal/api that write run: from the stores before to the stores after, with
-- the answer. `writeError(w, err); return` ends a handler, and what it wrote before stays written.
use vpc_routing.Prelude.{Result, ok, err}
use vpc_routing.Model.Entities.{Uuid, EventType, AppError}
use vpc_routing.Store.Vpcs.{VpcStore}
use vpc_routing.Store.Peerings.{PeeringStore}
use vpc_routing.Api.Db.{Db, Env, emit_event}

abbrev pub Act : Type 0 → Type 0
Act A = Db → Db × Result AppError A

abbrev pub pure : {A : Type 0} → A → Act A
pure a db = (db, ok a)

-- The rest of the handler, unless it has ended.
abbrev pub go_on : {A B : Type 0} → Db × Result AppError A → (A → Act B) → Db × Result AppError B
go_on (db, err e) f = (db, err e)
go_on (db, ok a) f = f a db

infixl 5 ◌>>=◌ ◌>>◌
abbrev pub ◌>>=◌ : {A B : Type 0} → Act A → (A → Act B) → Act B
◌>>=◌ m f db = go_on (m db) f

abbrev pub ◌>>◌ : {A B : Type 0} → Act A → Act B → Act B
m >> k = m >>= λ _. k

-- A call that only reads, and a check of what is known already.
abbrev pub reads : {A : Type 0} → (Db → Result AppError A) → Act A
reads g db = (db, g db)

abbrev pub check : {A : Type 0} → Result AppError A → Act A
check r db = (db, r)

abbrev pub modifies : (Db → Db) → Act (Unit {0})
modifies f db = (f db, ok tt)

-- A write to one store, which changes nothing where it fails.
abbrev pub with_peerings : Db → Result AppError PeeringStore → Db × Result AppError (Unit {0})
with_peerings db (err e) = (db, err e)
with_peerings db (ok s) = (record db { peerings = s }, ok tt)

abbrev pub set_peerings : (PeeringStore → Result AppError PeeringStore) → Act (Unit {0})
set_peerings f db = with_peerings db (f db.peerings)

abbrev pub with_vpcs : Db → Result AppError VpcStore → Db × Result AppError (Unit {0})
with_vpcs db (err e) = (db, err e)
with_vpcs db (ok s) = (record db { vpcs = s }, ok tt)

abbrev pub set_vpcs : (VpcStore → Result AppError VpcStore) → Act (Unit {0})
set_vpcs f db = with_vpcs db (f db.vpcs)

-- The result of the call is dropped.
abbrev pub dropping : Act (Unit {0}) → Act (Unit {0})
dropping m db = ((m db).0, ok tt)

abbrev pub emits : Env → Uuid → EventType → Act (Unit {0})
emits env peering_id type db = (emit_event env db peering_id type, ok tt)
