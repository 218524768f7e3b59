-- ===== src/Api/Gathered.antt =====
-- The routes that `GetEffectiveRoutes` of internal/api/peering_handler.go gathers from several peerings.
use vpc_routing.Prelude.{
  ◌==◌, ◌≡◌, refl, sym, ap, ◌∙◌, inl, inr, List, [], ◌∷◌, ◌++◌, Bool-cases, if◌then◌else◌,
}
use vpc_routing.Model.Entities.{RouteEntry, Peering, PeeringState, state_eq}
use vpc_routing.Api.Queries.{show_peering, show_peerings}
use vpc_routing.Api.Db.{Db}
use vpc_routing.Store.Routes
use vpc_routing.Api.Marked.{marked, from-marked, append-nil}

-- What a peering adds, if it is active, and the peerings one after the other.
abbrev pub effective_of : Db → Peering → List RouteEntry
effective_of db p =
    if p.state == PeeringState.active
    then marked p.route_policy 0 (Routes.list_by_peering db.routes p.id)
    else []

unfoldable pub effective : Db → List Peering → List RouteEntry
effective db [] = []
effective db (p ∷ ps) = effective_of db p ++ effective db ps

show_peering-effective :
    (db : Db) (p : Peering) (out : List RouteEntry)
    → show_peering db p out ≡ out ++ effective_of db p
unfolding show_peering
show_peering-effective db p out = elim (Bool-cases (p.state == PeeringState.active)) [
  | inl e ↦
      rw e (from-marked p.route_policy (Routes.list_by_peering db.routes p.id) 0 0 out (inl refl))
  | inr e ↦ rw e (sym (append-nil out))
]

append-append : (xs ys zs : List RouteEntry) → (xs ++ ys) ++ zs ≡ xs ++ (ys ++ zs)
append-append [] ys zs = refl
append-append (x ∷ xs) ys zs = ap (λ (ws : List RouteEntry). x ∷ ws) (append-append xs ys zs)

from-effective :
    (db : Db) (ps : List Peering) (out : List RouteEntry)
    → show_peerings db ps out ≡ out ++ effective db ps
unfolding show_peerings effective
from-effective db [] out = sym (append-nil out)
from-effective db (p ∷ ps) out =
    from-effective db ps (show_peering db p out)
    ∙ ap (λ (ws : List RouteEntry). ws ++ effective db ps) (show_peering-effective db p out)
    ∙ append-append out (effective_of db p) (effective db ps)

-- The routes that `GetEffectiveRoutes` gathers from a list of peerings are, for each active
-- peering in turn, its stored routes in order, less those that a denied prefix contains: as
-- stored where the policy allows the route and the limit is off or above the number of such
-- routes that it allows before, and marked as filtered elsewhere.
pub show_peerings-effective :
    (db : Db) (ps : List Peering) → show_peerings db ps [] ≡ effective db ps
show_peerings-effective db ps = from-effective db ps []
