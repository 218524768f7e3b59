-- ===== src/Loop.antt =====
-- `Start` and `Stop` of the two reconcilers, internal/controller/reconciler.go and
-- internal/agent/reconciler.go, which are the same code around two different passes. A state holds
-- what the pass works on, the channel and the once of `Stop`, whether the context is cancelled, and
-- whether the goroutine of `Start` has returned. A step is one case that its `select` picks, where
-- several may be ready, or what another goroutine does meanwhile.
use vpc_routing.Prelude.{
  ◌≡◌, refl, sym, ◌∙◌, ap, ◌⊎◌, inl, inr, Bool, true, false, Option, none, some, true-ne-false,
}

pub data Channel : Type 0 where
  open_channel closed_channel : Channel

-- `close(ch)`, which panics on a closed channel.
abbrev pub close : Channel → Option Channel
close open_channel = some closed_channel
close closed_channel = none

pub record Stopper : Type 0 where
  pub stop_ch : Channel
  pub stop_once : Bool

abbrev pub new_stopper : Stopper
new_stopper = record { stop_ch = open_channel; stop_once = false }

abbrev pub set_stopped : Option Channel → Option Stopper
set_stopped none = none
set_stopped (some ch) = some (record { stop_ch = ch; stop_once = true })

-- `r.stopOnce.Do(func() { close(r.stopCh) })`; `none` is a panic.
abbrev pub do_once : Bool → Channel → Option Stopper
do_once true ch = some (record { stop_ch = ch; stop_once = true })
do_once false ch = set_stopped (close ch)

unfoldable pub stop : Stopper → Option Stopper
stop c = do_once c.stop_once c.stop_ch

-- The channel is closed once the once has run, and not before.
abbrev pub IsStopper : Stopper → Type 0
IsStopper c =
    ((c.stop_once ≡ false) × (c.stop_ch ≡ open_channel))
    ⊎ ((c.stop_once ≡ true) × (c.stop_ch ≡ closed_channel))

stop-closes :
    (c : Stopper)
    → IsStopper c
    → stop c ≡ some (record { stop_ch = closed_channel; stop_once = true })
unfolding stop
stop-closes c (inl (e, k)) = ap (λ b. do_once b c.stop_ch) e ∙ ap (λ ch. do_once false ch) k
stop-closes c (inr (e, k)) = ap (λ b. do_once b c.stop_ch) e ∙ ap (λ ch. do_once true ch) k

pub record Running (World : Type 0) : Type 0 where
  pub world : World
  pub stopper : Stopper
  pub cancelled : Bool
  pub returned : Bool

abbrev pub start : {World : Type 0} → World → Running World
start w = record { world = w; stopper = new_stopper; cancelled = false; returned = false }

-- `pass` is the pass of a tick, and `Other` what the other goroutines may do to the world.
module _ {World Tick : Type 0} (pass : Tick → World → World) (Other : World → World → Type 0) where
  pub data Step : Running World → Running World → Type 0 where
    ticks :
        (s : Running World) (t : Tick)
        → s.returned ≡ false
        → Step s (record s { world = pass t s.world })
    sees_stop :
        (s : Running World)
        → s.returned ≡ false
        → s.stopper.stop_ch ≡ closed_channel
        → Step s (record s { returned = true })
    sees_cancel :
        (s : Running World)
        → s.returned ≡ false
        → s.cancelled ≡ true
        → Step s (record s { returned = true })
    calls_stop :
        (s : Running World) (c : Stopper)
        → stop s.stopper ≡ some c
        → Step s (record s { stopper = c })
    cancels : (s : Running World) → Step s (record s { cancelled = true })
    changes : (s : Running World) (w : World) → Other s.world w → Step s (record s { world = w })

  pub data Reach (first : Running World) : Running World → Type 0 where
    here : Reach first first
    there : (s s' : Running World) → Reach first s → Step s s' → Reach first s'

  -- The world keeps a predicate, `Stop` does not panic and leaves the channel closed, and the
  -- goroutine has returned only after a call of `Stop` or the end of the context.
  pub record IsLoop (Keeps : World → Type 0) (s : Running World) : Type 0 where
    pub world : Keeps s.world
    pub stopper : IsStopper s.stopper
    pub stops : (c : Stopper) × (stop s.stopper ≡ some c) × (c.stop_ch ≡ closed_channel)
    pub excused : s.returned ≡ true → (s.stopper.stop_ch ≡ closed_channel) ⊎ (s.cancelled ≡ true)

  some-inj : {c d : Stopper} → some c ≡ some d → c ≡ d
  some-inj q = cc

  stop_facts :
      (c : Stopper) → IsStopper c → (d : Stopper) × (stop c ≡ some d) × (d.stop_ch ≡ closed_channel)
  stop_facts c i = (record { stop_ch = closed_channel; stop_once = true }, stop-closes c i, refl)

  Step-IsLoop :
      (Keeps : World → Type 0)
      → ((t : Tick) (w : World) → Keeps w → Keeps (pass t w))
      → ((v w : World) → Other v w → Keeps v → Keeps w)
      → (s s' : Running World) → Step s s'
      → IsLoop Keeps s
      → IsLoop Keeps s'
  Step-IsLoop Keeps p o _ _ (ticks s t e) h = record {
    world = p t s.world h.world;
    stopper = h.stopper;
    stops = h.stops;
    excused = h.excused;
  }
  Step-IsLoop Keeps p o _ _ (sees_stop s e k) h = record {
    world = h.world;
    stopper = h.stopper;
    stops = h.stops;
    excused = λ r. inl k;
  }
  Step-IsLoop Keeps p o _ _ (sees_cancel s e k) h = record {
    world = h.world;
    stopper = h.stopper;
    stops = h.stops;
    excused = λ r. inr k;
  }
  Step-IsLoop Keeps p o _ _ (calls_stop s c q) h =
      let d : record { stop_ch = closed_channel; stop_once = true } ≡ c =
        some-inj (sym (stop-closes s.stopper h.stopper) ∙ q) in
      let i : IsStopper c = inr (ap (λ z. z.stop_once) (sym d), ap (λ z. z.stop_ch) (sym d)) in
      record {
        world = h.world;
        stopper = i;
        stops = stop_facts c i;
        excused = λ r. inl (ap (λ z. z.stop_ch) (sym d));
      }
  Step-IsLoop Keeps p o _ _ (cancels s) h = record {
    world = h.world;
    stopper = h.stopper;
    stops = h.stops;
    excused = λ r. inr refl;
  }
  Step-IsLoop Keeps p o _ _ (changes s w k) h = record {
    world = o s.world w k h.world;
    stopper = h.stopper;
    stops = h.stops;
    excused = h.excused;
  }

  -- What a pass and the other goroutines keep holds in every state that the loop reaches.
  pub Reach-IsLoop :
      (Keeps : World → Type 0)
      → ((t : Tick) (w : World) → Keeps w → Keeps (pass t w))
      → ((v w : World) → Other v w → Keeps v → Keeps w)
      → (w : World) → Keeps w
      → (s : Running World) → Reach (start w) s
      → IsLoop Keeps s
  Reach-IsLoop Keeps p o w k _ here = record {
    world = k;
    stopper = inl (refl, refl);
    stops = stop_facts new_stopper (inl (refl, refl));
    excused = λ r. absurd (true-ne-false (sym r));
  }
  Reach-IsLoop Keeps p o w k _ (there s s' reached st) =
      Step-IsLoop Keeps p o s s' st (Reach-IsLoop Keeps p o w k s reached)

  -- Once the goroutine has returned it does no pass: a step leaves the world, or is another's.
  pub returned-still :
      (s s' : Running World)
      → Step s s'
      → s.returned ≡ true
      → (s'.returned ≡ true) × ((s'.world ≡ s.world) ⊎ Other s.world s'.world)
  returned-still _ _ (ticks s t e) r = absurd (true-ne-false (sym r ∙ e))
  returned-still _ _ (sees_stop s e k) r = absurd (true-ne-false (sym r ∙ e))
  returned-still _ _ (sees_cancel s e k) r = absurd (true-ne-false (sym r ∙ e))
  returned-still _ _ (calls_stop s c q) r = (r, inl refl)
  returned-still _ _ (cancels s) r = (r, inl refl)
  returned-still _ _ (changes s w k) r = (r, inr k)
