-- ===== src/Lifecycle/Loop.antt =====
-- The loop of internal/controller/reconciler.go over the stores and the fabric, with the requests of
-- the API meanwhile, each run to its end.
use vpc_routing.Prelude.{◌≡◌, subst, sym}
use vpc_routing.Model.Entities.{Uuid, Time}
use vpc_routing.Bgp.Service.{Service}
use vpc_routing.Api.Db.{Externals, Env}
use vpc_routing.Controller.Reconciler.{reconcile_all}
use vpc_routing.Lifecycle.History.{Op, World, step, step-Changes}
use vpc_routing.Lifecycle.Invariant.{Inv, Changes-Inv}
use vpc_routing.Loop.{Running, Reach, IsLoop, Reach-IsLoop, start}

-- What a tick brings: the clock, and what each call draws.
abbrev pub Tick : Type 0
Tick = Time × (Uuid → Env)

module _ (svc : Service) (x : Externals) where
  -- The pass of a tick.
  unfoldable pub pass : Tick → World svc x → World svc x
  pass (now, env_of) (db, s) = let w = reconcile_all svc x now env_of db s in (w.0, w.1)

  -- A request of the API, meanwhile.
  abbrev pub Requested : World svc x → World svc x → Type 0
  Requested v w = (o : Op) × (w ≡ step svc x o v)

  step-Inv : (o : Op) (w : World svc x) → Inv w.0.peerings → Inv (step svc x o w).0.peerings
  step-Inv o w i = Changes-Inv w.0.peerings (step svc x o w).0.peerings (step-Changes svc x o w i) i

  pass-Inv : (t : Tick) (w : World svc x) → Inv w.0.peerings → Inv (pass t w).0.peerings
  unfolding pass step
  pass-Inv (now, env_of) w i = step-Inv (Op.reconcile now env_of) w i

  -- In every state that the controller's loop reaches, through ticks, requests, calls of `Stop`
  -- and the end of its context in any order, the peering store keeps its invariant, a call of
  -- `Stop` does not panic and leaves the channel closed, and the loop has returned only after
  -- such a call or the end of the context.
  pub pass-IsLoop :
      (w : World svc x) (s : Running (World svc x))
      → Inv w.0.peerings
      → Reach pass Requested (start w) s
      → IsLoop pass Requested (λ v. Inv v.0.peerings) s
  pass-IsLoop w s i r =
      Reach-IsLoop pass Requested (λ v. Inv v.0.peerings) pass-Inv
        (λ v u o j. subst (λ z. Inv z.0.peerings) (sym o.1) (step-Inv o.0 v j)) w i s r
