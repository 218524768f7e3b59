-- ===== src/Lifecycle/Tenants.antt =====
-- The VPC handlers keep `NetInv`.
use vpc_routing.Prelude.{
  ℕ, ◌+◌, ◌≤◌, ◌≡◌, refl, sym, ◌∙◌, ap, arith, false, not, Option, none, some, List, Result, ok,
  err, ok-inj, ◌==◌, nat_eq, string_eq, >>=-eq-ok, guard, subst, ltb,
}
use vpc_routing.Prelude.Maps.{lookup, insert, count_values, bool_nat, count_values-insert_old}
use vpc_routing.Model.Netip.{Prefix}
use vpc_routing.Model.Entities.{Uuid, Time, Vpc, VpcState, is_deleted, AppError}
use vpc_routing.Store.Vpcs
use vpc_routing.Store.Vpcs.{VpcStore}
use vpc_routing.Store.Peerings
use vpc_routing.Vni.{Allocator, VniError, allocate, is_allocated, release}
use vpc_routing.Vni.Pool.{allocate-Allocates, is_allocated-release, allocate-ok_known}
use vpc_routing.Auth.Access.{require_vpc_owner}
use vpc_routing.Api.Settled.{settle, try_delete_vpc}
use vpc_routing.Api.Settled.Handlers.{delete_vpc-settle}
use vpc_routing.Api.Db.{Db, Externals, Env, is_none}
use vpc_routing.Api.VpcHandler.{
  CreateVpcRequest, parse_blocks, as_invalid_cidr, as_vni_exhausted, built, requested, unclaimed,
  checked, allocated, create_checked,
}
use vpc_routing.Api.VpcHandler
use vpc_routing.Lifecycle.Network.{NetInv, uses, stored_as-NetInv, deleted-apart}

is_none-none :
    {A : Type 0} (o : Option A) (e : AppError) (u : Unit {0})
    → guard (is_none o) e ≡ ok u
    → o ≡ none
is_none-none none e u h = refl
is_none-none (some a) e u h = cc

-- The last check before the allocation found no overlap.
unclaimed-ok :
    (db : Db) (w t : Uuid × CreateVpcRequest × List Prefix)
    → unclaimed db w ≡ ok t
    → Vpcs.find_overlapping_cidr db.vpcs t.0 t.2 ≡ ok none
unclaimed-ok db (acc, req, cidrs) t h =
    let (o, _, h1) = >>=-eq-ok (Vpcs.find_by_name db.vpcs acc req.region_id req.name) _ h in
    let (_, _, h2) = >>=-eq-ok (guard (is_none o) _) _ h1 in
    let (p, f, h3) = >>=-eq-ok (Vpcs.find_overlapping_cidr db.vpcs acc cidrs) _ h2 in
    let (u, g, h4) = >>=-eq-ok (guard (is_none p) _) _ h3 in
    subst
      (λ (z : Uuid × CreateVpcRequest × List Prefix).
        Vpcs.find_overlapping_cidr db.vpcs z.0 z.2 ≡ ok none)
      (ok-inj h4) (f ∙ ap ok (is_none-none p _ u g))

checked-ok :
    (x : Externals) (env : Env) (body : Option CreateVpcRequest) (db : Db)
    (t : Uuid × CreateVpcRequest × List Prefix)
    → checked x env body db ≡ ok t
    → Vpcs.find_overlapping_cidr db.vpcs t.0 t.2 ≡ ok none
unfolding checked
checked-ok x env body db t h =
    let (w, _, h1) = >>=-eq-ok (requested x env body) _ h in unclaimed-ok db w t h1

vni-ok :
    (r : Result VniError (ℕ × Allocator)) (p : ℕ × Allocator) → as_vni_exhausted r ≡ ok p → r ≡ ok p
vni-ok (ok q) p h = cc
vni-ok (err e) p h = cc

-- Creating a VPC keeps the registered region numbers below 16, each VNI in use by one VPC at
-- most and taken in the pool, and the blocks of one account's VPCs apart, whichever way the
-- request ends.
pub create_vpc-NetInv :
    (x : Externals) (env : Env) (body : Option CreateVpcRequest) (db : Db)
    → NetInv db
    → NetInv (VpcHandler.create x env body db).0
unfolding VpcHandler.create
create_vpc-NetInv x env body db inv = at_checked (checked x env body db) refl
  where
    at_allocated :
        (acc : Uuid) (req : CreateVpcRequest) (cidrs : List Prefix)
        → Vpcs.find_overlapping_cidr db.vpcs acc cidrs ≡ ok none
        → (r : Result AppError (ℕ × Allocator))
        → as_vni_exhausted (allocate (x.shard_hash acc) db.alloc req.region_id) ≡ r
        → NetInv (allocated x env db acc req cidrs r).0
    at_allocated acc req cidrs f (err e) h = inv
    at_allocated acc req cidrs f (ok (vni, alloc)) h =
        let a = vni-ok _ (vni, alloc) h in
        let (r, k) = allocate-ok_known (x.shard_hash acc) db.alloc req.region_id vni alloc a in
        let took =
          allocate-Allocates (x.shard_hash acc) db.alloc req.region_id r k
            (inv.regions req.region_id r k) vni alloc a in
        stored_as-NetInv db inv alloc r vni took (built x env acc req cidrs vni) _ refl f refl

    at_checked :
        (t : Result AppError (Uuid × CreateVpcRequest × List Prefix))
        → checked x env body db ≡ t
        → NetInv (create_checked x env db t).0
    at_checked (err e) h = inv
    at_checked (ok (acc, req, cidrs)) h =
        at_allocated acc req cidrs (checked-ok x env body db (acc, req, cidrs) h) _ refl

present-live :
    (s : VpcStore) (k : Uuid) (v : Vpc)
    → Vpcs.get s k ≡ ok v
    → (lookup k s ≡ some v) × (is_deleted v.state ≡ false)
unfolding Vpcs.get
present-live s k v h = ground arith

abbrev gone : Time → Vpc → Vpc
gone now v = record v { state = VpcState.deleted; deleted_at = some now }

deleted-ok :
    (s t : VpcStore) (k : Uuid) (v : Vpc) (now : Time)
    → lookup k s ≡ some v
    → Vpcs.delete s k now ≡ ok t
    → t ≡ insert k (gone now v) s
unfolding Vpcs.delete
deleted-ok s t k v now l h = ground arith

released-regions : (a : Allocator) (v : ℕ) → (release a v).region_map ≡ a.region_map
unfolding release
released-regions a v = refl

pool-shrinks :
    (a : Allocator) (v n c d : ℕ)
    → c ≤ bool_nat (is_allocated a n)
    → d + bool_nat (v == n) ≡ c
    → d ≤ bool_nat (is_allocated (release a v) n)
pool-shrinks a v n c d h k = ground (arith, is_allocated-release a v n)

deleted-NetInv :
    (db : Db) (k : Uuid) (v : Vpc) (now : Time) (t : VpcStore)
    → NetInv db
    → Vpcs.get db.vpcs k ≡ ok v
    → Vpcs.delete db.vpcs k now ≡ ok t
    → NetInv (record db { vpcs = t; alloc = release db.alloc v.vni })
deleted-NetInv db k v now t inv g h =
    let (l, live) = present-live db.vpcs k v g in
    let e = deleted-ok db.vpcs t k v now l h in
    record {
      regions = λ name r q.
          inv.regions name r (ap (lookup name) (sym (released-regions db.alloc v.vni)) ∙ q);
      vnis = λ n.
          pool-shrinks db.alloc v.vni n (count_values (uses n) db.vpcs) (count_values (uses n) t)
            (inv.vnis n) (rw e (fewer n l live));
      apart = rw e (deleted-apart k (gone now v) db.vpcs refl inv.apart);
    }
  where
    fewer :
        (n : ℕ)
        → lookup k db.vpcs ≡ some v
        → is_deleted v.state ≡ false
        → count_values (uses n) (insert k (gone now v) db.vpcs) + bool_nat (v.vni == n)
          ≡ count_values (uses n) db.vpcs
    fewer n l d = ground (arith, count_values-insert_old (uses n) k (gone now v) v db.vpcs l)

-- Deleting a VPC keeps the same invariant: its VNI goes back to the pool, and no other VPC uses
-- it.
pub delete_vpc-NetInv :
    (env : Env) (k : Uuid) (db : Db) → NetInv db → NetInv (VpcHandler.delete env k db).0
delete_vpc-NetInv env k db inv =
    subst (λ (w : Db × Result AppError (Unit {0})). NetInv w.0) (sym (delete_vpc-settle env k db))
      (at (try_delete_vpc env k db) refl)
  where
    removed : (db' : Db) (u : Unit {0}) → try_delete_vpc env k db ≡ ok (db', u) → NetInv db'
    removed db' u h =
        unfold try_delete_vpc in
        (let (v, g, h1) = >>=-eq-ok (Vpcs.get db.vpcs k) _ h in
          let (_, _, h2) = >>=-eq-ok (require_vpc_owner env.ctx v) _ h1 in
          let (c, _, h3) = >>=-eq-ok (Peerings.count_by_vpc db.peerings k) _ h2 in
          let (_, _, h4) = >>=-eq-ok (guard (not (ltb 0 c)) _) _ h3 in
          let (t, d, h5) = >>=-eq-ok (Vpcs.delete db.vpcs k env.now) _ h4 in
          subst NetInv (ap (λ (z : Db × Unit {0}). z.0) (ok-inj h5))
            (deleted-NetInv db k v env.now t inv g d))

    at :
        (r : Result AppError (Db × Unit {0})) → try_delete_vpc env k db ≡ r → NetInv (settle db r).0
    at (err e) h = unfold settle in inv
    at (ok (db', u)) h = unfold settle in removed db' u h
