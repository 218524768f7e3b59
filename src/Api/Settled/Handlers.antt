-- ===== src/Api/Settled/Handlers.antt =====
-- The handlers of internal/api that write refuse before their first write.
use vpc_routing.Prelude.{
  ◌≡◌, refl, inl, inr, Bool-cases, ℕ, ◌||◌, not, Option, String, ltb, ◌==◌, nat_eq, string_eq,
  Result, ok, err, ◌>>=◌, guard,
}
use vpc_routing.Model.Netip.{Prefix}
use vpc_routing.Model.Entities.{
  EventType, Uuid, Peering, PeeringState, provisioning, rejected, state_eq, peering_created,
  peering_accepted, peering_deleted, policy_updated, AppError,
}
use vpc_routing.Store.Vpcs.{VpcStore}
use vpc_routing.Store.Vpcs
use vpc_routing.Store.Peerings
use vpc_routing.Store.Peerings.{PeeringStore}
use vpc_routing.Auth.Access.{account_from_context}
use vpc_routing.Api.Db.{Db, Externals, Env, or_fail, emit_event}
use vpc_routing.Vni.{release}
use vpc_routing.Auth.Access.{require_vpc_owner}
use vpc_routing.Api.PeeringHandler.{
  CreatePeeringRequest, UpdatePeeringRequest, OverrideRouteRequest, proposed, with_policy,
  redirected, is_owner, or_unchanged, pending_for, require_peering_auth, static_route,
}
use vpc_routing.Api.PeeringHandler as Handler
use vpc_routing.Api.VpcHandler
use vpc_routing.Api.Act.{Act, go_on, with_peerings, with_vpcs}
use vpc_routing.Api.Settled.{
  settle, try_store, try_create, try_update, try_delete, try_delete_vpc, try_accept, try_reject,
  try_override, try_override_route,
}

module _ {A B : Type 0} (db : Db) where
  -- A step that writes nothing, before a rest that settles.
  goes_on-settle :
      (r : Result AppError A) (f : A → Act B) (g : A → Result AppError (Db × B))
      → ((a : A) → f a db ≡ settle db (g a))
      → go_on (db, r) f ≡ settle db (r >>= g)
  unfolding settle
  goes_on-settle (err e) f g h = refl
  goes_on-settle (ok a) f g h = h a

-- The one write that may fail, its event, and the answer.
written-settle :
    {B : Type 0} (env : Env) (k : Uuid) (type : EventType) (db : Db)
    (r : Result AppError PeeringStore) (b : B)
    → go_on (with_peerings db r) (λ _ d. (emit_event env d k type, ok b))
      ≡ settle db (r >>= λ s. ok (emit_event env (record db { peerings = s }) k type, b))
unfolding settle
written-settle env k type db (err e) b = refl
written-settle env k type db (ok s) b = refl

pub store_proposed-settle :
    (env : Env) (p : Peering) (db : Db)
    → Handler.store_proposed env p db ≡ settle db (try_store env db p)
unfolding Handler.store_proposed
store_proposed-settle env p db =
    written-settle env p.id peering_created db (Peerings.create db.peerings p) p

pub create-settle :
    (x : Externals) (env : Env) (body : Option CreatePeeringRequest) (db : Db)
    → Handler.create x env body db ≡ settle db (try_create x env body db)
unfolding Handler.create try_create
create-settle x env body db =
    goes_on-settle db (proposed x env body db) _ _ (λ p. store_proposed-settle env p db)

pub update-settle :
    (x : Externals) (env : Env) (body : Option UpdatePeeringRequest) (k : Uuid) (db : Db)
    → Handler.update x env body k db ≡ settle db (try_update x env body k db)
unfolding Handler.update try_update
update-settle x env body k db = goes_on-settle db (account_from_context env.ctx) _ _ λ acc.
    goes_on-settle db (Peerings.get db.peerings k) _ _ λ p.
      goes_on-settle db (guard (is_owner _ acc) _) _ _ λ _.
        goes_on-settle db (guard (p.state == PeeringState.active || p.state == provisioning) _) _ _
          λ _. goes_on-settle db (or_fail body _) _ _ λ req.
            goes_on-settle db
              (with_policy x.parse_prefix req.route_policy (redirected req.direction p)) _ _
              λ q. written-settle env k policy_updated db (Peerings.update db.peerings q) q

pub delete-settle :
    (env : Env) (k : Uuid) (db : Db) → Handler.delete env k db ≡ settle db (try_delete env k db)
unfolding Handler.delete try_delete
delete-settle env k db = goes_on-settle db (Peerings.get db.peerings k) _ _ λ p.
    goes_on-settle db (require_peering_auth env db p) _ _
      λ _. written-settle env k peering_deleted db (Peerings.delete db.peerings k env.now) tt

pub accept-settle :
    (env : Env) (k : Uuid) (db : Db) → Handler.accept env k db ≡ settle db (try_accept env k db)
unfolding Handler.accept try_accept
accept-settle env k db = goes_on-settle db (pending_for env k db) _ _ λ p.
    written-settle env k peering_accepted db
      (Peerings.update db.peerings (record p { state = provisioning })) _

dropped-settle :
    (db : Db) (r : Result AppError PeeringStore) (p : Peering)
    → go_on ((with_peerings db r).0, ok tt) (λ _ d. (d, ok p))
      ≡ settle db (ok (record db { peerings = or_unchanged db.peerings r }, p))
unfolding settle
dropped-settle db (err e) p = refl
dropped-settle db (ok s) p = refl

pub reject-settle :
    (env : Env) (k : Uuid) (db : Db) → Handler.reject env k db ≡ settle db (try_reject env k db)
unfolding Handler.reject try_reject
reject-settle env k db =
    goes_on-settle db (pending_for env k db) _ _
      λ p. dropped-settle db (Peerings.update db.peerings (record p { state = rejected })) _

override-settle :
    (env : Env) (k : Uuid) (action : String) (q : Prefix) (db : Db)
    → Handler.override env k action q db ≡ settle db (try_override env db k action q)
unfolding Handler.override settle
override-settle env k action q db = elim (Bool-cases (action == "add_static")) [
  | inl e ↦ rw e refl
  | inr e ↦ (elim (Bool-cases (action == "withdraw")) [
    | inl f ↦ rw (e, f) refl
    | inr f ↦ rw (e, f) refl
  ])
]

pub override_route-settle :
    (x : Externals) (env : Env) (body : Option OverrideRouteRequest) (k : Uuid) (db : Db)
    → Handler.override_route x env body k db ≡ settle db (try_override_route x env body k db)
unfolding Handler.override_route try_override_route
override_route-settle x env body k db = goes_on-settle db (Peerings.get db.peerings k) _ _ λ p.
    goes_on-settle db (require_peering_auth env db p) _ _ λ _.
      goes_on-settle db (or_fail body _) _ _ λ req.
        goes_on-settle db (or_fail (x.parse_prefix req.prefix) _) _ _
          λ q. override-settle env k req.action q db

removed-settle :
    (db : Db) (r : Result AppError VpcStore) (n : ℕ)
    → go_on (with_vpcs db r) (λ _ d. (record d { alloc = release d.alloc n }, ok tt))
      ≡ settle db (r >>= λ s. ok (record db { vpcs = s; alloc = release db.alloc n }, tt))
unfolding settle
removed-settle db (err e) n = refl
removed-settle db (ok s) n = refl

pub delete_vpc-settle :
    (env : Env) (k : Uuid) (db : Db)
    → VpcHandler.delete env k db ≡ settle db (try_delete_vpc env k db)
unfolding VpcHandler.delete try_delete_vpc
delete_vpc-settle env k db = goes_on-settle db (Vpcs.get db.vpcs k) _ _ λ v.
    goes_on-settle db (require_vpc_owner env.ctx v) _ _ λ _.
      goes_on-settle db (Peerings.count_by_vpc db.peerings k) _ _ λ n.
        goes_on-settle db (guard (not (ltb 0 n)) _) _ _
          λ _. removed-settle db (Vpcs.delete db.vpcs k env.now) v.vni
