-- ===== src/Api/VpcHandler.antt =====
-- internal/api/vpc_handler.go. A JSON body that does not decode is `none`. `VPCResponse` renders the
-- VPC that the handler answers with.
mod Removal
unfoldable pub use Removal.*
use Prim.Native.String.{len, slice, ◌++◌}
use vpc_routing.Prelude.{
  ℕ, ◌||◌, not, Option, none, String, List, [], ◌∷◌, ltb, ◌==◌, nat_eq, string_eq, Result, ok, err,
  ◌>>=◌, ◌>>◌, guard, pos,
}
use vpc_routing.Model.Netip.{Prefix}
use vpc_routing.Model.Cidr.{CidrError, validate_cidr_blocks}
use vpc_routing.Model.Entities.{
  Uuid, Vpc, VpcState, AppError, err_invalid_input, err_invalid_cidr, err_conflict,
  err_cidr_overlap, err_vni_exhausted, err_has_active_peerings,
}
use vpc_routing.Store.Page.{ListResult}
use vpc_routing.Store.Vpcs
use vpc_routing.Store.Vpcs.{VpcStore}
use vpc_routing.Store.Peerings
use vpc_routing.Vni.{VniError, Allocator, allocate, release}
use vpc_routing.Auth.Access.{account_from_context, require_vpc_owner}
use vpc_routing.Api.Db.{Db, Externals, Env, or_fail, is_none}

pub record CreateVpcRequest : Type 0 where
  pub name : String
  pub region_id : String
  pub cidr_blocks : List String

-- The loop that parses the blocks.
abbrev pub parse_blocks : (String → Option Prefix) → List String → Result AppError (List Prefix)
parse_blocks parse [] = ok []
parse_blocks parse (s ∷ ss) = do
  p ← or_fail (parse s) err_invalid_cidr
  ps ← parse_blocks parse ss
  ok (p ∷ ps)

abbrev pub as_invalid_cidr : Result CidrError (List Prefix) → Result AppError (List Prefix)
as_invalid_cidr (ok cidrs) = ok cidrs
as_invalid_cidr (err e) = err err_invalid_cidr

abbrev pub as_vni_exhausted : Result VniError (ℕ × Allocator) → Result AppError (ℕ × Allocator)
as_vni_exhausted (ok r) = ok r
as_vni_exhausted (err e) = err err_vni_exhausted

-- `id.String()[:8]`.
abbrev pub short : Externals → Uuid → String
short x id = slice (x.text id) 0 8

abbrev pub built : Externals → Env → Uuid → CreateVpcRequest → List Prefix → ℕ → Vpc
built x env account_id req cidrs vni = record {
  id = env.new_id;
  account_id = account_id;
  region_id = req.region_id;
  name = req.name;
  cidr_blocks = cidrs;
  vni = vni;
  vrf_name = "vpc-" ++ short x env.new_id;
  rd = req.region_id ++ ":" ++ short x env.new_id;
  export_rt = "target:" ++ short x account_id ++ ":" ++ short x env.new_id;
  state = VpcState.active;
  peering_count = 0;
  created_at = env.now;
  deleted_at = none;
}

-- The caller, the request, and the blocks that it asks for.
unfoldable pub requested :
    Externals
    → Env
    → Option CreateVpcRequest
    → Result AppError (Uuid × CreateVpcRequest × List Prefix)
requested x env body = do
  account_id ← account_from_context env.ctx
  req ← or_fail body err_invalid_input
  guard (not (req.name == "" || ltb 128 (len req.name))) err_invalid_input
  guard (not (req.region_id == "")) err_invalid_input
  parsed ← parse_blocks x.parse_prefix req.cidr_blocks
  cidrs ← as_invalid_cidr (validate_cidr_blocks parsed)
  ok (account_id, req, cidrs)

-- The checks against the account's other VPCs.
abbrev pub unclaimed :
    Db
    → Uuid × CreateVpcRequest × List Prefix
    → Result AppError (Uuid × CreateVpcRequest × List Prefix)
unclaimed db (account_id, req, cidrs) = do
  existing ← Vpcs.find_by_name db.vpcs account_id req.region_id req.name
  guard (is_none existing) err_conflict
  overlap ← Vpcs.find_overlapping_cidr db.vpcs account_id cidrs
  guard (is_none overlap) err_cidr_overlap
  ok (account_id, req, cidrs)

-- Up to the allocation.
unfoldable pub checked :
    Externals
    → Env
    → Option CreateVpcRequest
    → Db
    → Result AppError (Uuid × CreateVpcRequest × List Prefix)
checked x env body db = do wanted ← requested x env body; unclaimed db wanted

-- After the allocation: the pool keeps the VNI also where the store refuses the VPC.
abbrev pub stored_as : Db → Allocator → Vpc → Result AppError VpcStore → Db × Result AppError Vpc
stored_as db alloc vpc (err e) = (record db { alloc = alloc }, err e)
stored_as db alloc vpc (ok vpcs) = (record db { alloc = alloc; vpcs = vpcs }, ok vpc)

abbrev pub stored : Db → Allocator → Vpc → Db × Result AppError Vpc
stored db alloc vpc = stored_as db alloc vpc (Vpcs.create db.vpcs vpc)

abbrev pub allocated :
    Externals
    → Env
    → Db
    → Uuid
    → CreateVpcRequest
    → List Prefix
    → Result AppError (ℕ × Allocator)
    → Db × Result AppError Vpc
allocated x env db account_id req cidrs (err e) = (db, err e)
allocated x env db account_id req cidrs (ok (vni, alloc)) =
    stored db alloc (built x env account_id req cidrs vni)

abbrev pub create_checked :
    Externals
    → Env
    → Db
    → Result AppError (Uuid × CreateVpcRequest × List Prefix)
    → Db × Result AppError Vpc
create_checked x env db (err e) = (db, err e)
create_checked x env db (ok (account_id, req, cidrs)) =
    allocated x env db account_id req cidrs
      (as_vni_exhausted (allocate (x.shard_hash account_id) db.alloc req.region_id))

unfoldable pub create : Externals → Env → Option CreateVpcRequest → Db → Db × Result AppError Vpc
create x env body db = create_checked x env db (checked x env body db)

unfoldable pub get : Env → Uuid → Db → Result AppError Vpc
get env vpc_id db = do
  vpc ← Vpcs.get db.vpcs vpc_id
  require_vpc_owner env.ctx vpc
  count ← Peerings.count_by_vpc db.peerings vpc_id
  ok (record vpc { peering_count = count })

-- `region_id` is the query parameter, empty if there is none.
unfoldable pub list : Env → String → Db → Result AppError (ListResult Vpc)
list env region_id db = do
  account_id ← account_from_context env.ctx
  Vpcs.list db.vpcs account_id region_id (record { page_size = pos 50; page_token = "" })
