-- ===== src/Lifecycle/Change.antt =====
-- The state diagram of a peering, and the changes to the store that follow it.
use vpc_routing.Prelude.{◌≡◌, ◌≢◌, ◌⊎◌, some, ok, nat_eq}
use vpc_routing.Prelude.Maps.{lookup, insert}
use vpc_routing.Model.Entities.{
  Uuid, Peering, PeeringState, pending_acceptance, provisioning, failed, rejected, expired,
}
use vpc_routing.Store.Peerings.{PeeringStore}
use vpc_routing.Api.PeeringHandler.{admits}

infix 40 ◌⟶◌
pub data ◌⟶◌ : PeeringState → PeeringState → Type 0 where
  accepts : pending_acceptance ⟶ provisioning
  rejects : pending_acceptance ⟶ rejected
  expires : pending_acceptance ⟶ expired
  activates : provisioning ⟶ PeeringState.active
  retries : failed ⟶ provisioning
  removes : {s : PeeringState} → s ⟶ PeeringState.deleted
  edits : {s : PeeringState} → s ⟶ s

-- `new` is `old` after a transition: the same peering of the same two VPCs.
pub record Moves (old new : Peering) : Type 0 where
  pub same_id : new.id ≡ old.id
  pub same_requester : new.requester_vpc_id ≡ old.requester_vpc_id
  pub same_accepter : new.accepter_vpc_id ≡ old.accepter_vpc_id
  pub edge : old.state ⟶ new.state

-- A peering as `Create` may store it.
pub record IsAdmitted (s : PeeringStore) (p : Peering) : Type 0 where
  pub room : admits s p.requester_vpc_id p.accepter_vpc_id ≡ ok tt
  pub apart : p.requester_vpc_id ≢ p.accepter_vpc_id
  pub initial : (p.state ≡ pending_acceptance) ⊎ (p.state ≡ provisioning)

pub data Change (s s' : PeeringStore) : Type 0 where
  stays : s' ≡ s → Change s s'
  adds : (p : Peering) → IsAdmitted s p → s' ≡ insert p.id p s → Change s s'
  moves :
      (k : Uuid) (old new : Peering)
      → lookup k s ≡ some old
      → Moves old new
      → s' ≡ insert k new s
      → Change s s'

pub data Changes (s : PeeringStore) : PeeringStore → Type 0 where
  done : Changes s s
  next : {t u : PeeringStore} → Changes s t → Change t u → Changes s u
