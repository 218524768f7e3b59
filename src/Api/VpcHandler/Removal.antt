-- ===== src/Api/VpcHandler/Removal.antt =====
-- `Delete` of internal/api/vpc_handler.go.
use vpc_routing.Prelude.{not, ltb, guard}
use vpc_routing.Model.Entities.{Uuid, err_has_active_peerings}
use vpc_routing.Store.Vpcs
use vpc_routing.Store.Peerings
use vpc_routing.Vni.{release}
use vpc_routing.Auth.Access.{require_vpc_owner}
use vpc_routing.Api.Db.{Env}
use vpc_routing.Api.Act.{Act, ◌>>=◌, ◌>>◌, reads, check, modifies, set_vpcs}

unfoldable pub delete : Env → Uuid → Act (Unit {0})
delete env vpc_id = do
  vpc ← reads (λ db. Vpcs.get db.vpcs vpc_id)
  check (require_vpc_owner env.ctx vpc)
  count ← reads (λ db. Peerings.count_by_vpc db.peerings vpc_id)
  check (guard (not (ltb 0 count)) err_has_active_peerings)
  set_vpcs (λ s. Vpcs.delete s vpc_id env.now)
  modifies (λ db. record db { alloc = release db.alloc vpc.vni })
