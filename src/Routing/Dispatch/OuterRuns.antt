-- ===== src/Routing/Dispatch/OuterRuns.antt =====
-- How often an outer middleware runs for one event.
use vaidcord.Base.{ℕ, suc, ◌+◌, ◌≡◌, refl, Bool, none, List, [], ◌∷◌, arith, ap, ◌∙◌}
use vaidcord.Base.Action.{◌>>=◌}
use vaidcord.Base.Int.{pos}
use vaidcord.Base.Result.{Result, ok}
use vaidcord.Routing.Registry.{ScopedConfig, get_handlers}
use vaidcord.Routing.Dispatch.{
  Event, World, Outcome, nothing, catch_stop, unless_nothing, Method, Continuation, Middleware,
  RouterState, Router, Routers, router, no_routers, more_routers, dependencies_of, outer_of,
  prepare_context, run_chain, run_handlers, propagate_event, propagate_children,
}

-- An outer middleware that counts its runs and hands every event on.
abbrev pub counter : {V : Type 0} → ScopedConfig (Middleware ℕ V)
counter = record {
  item = λ event rest w. rest event (record w { rest = w.rest + 1 });
  priority = pos 0;
  event_types = none;
}

unfoldable mutual
  pub router_count : {U V Ann : Type 0} → Router U V Ann → ℕ
  router_count (router s children) = suc (routers_count children)

  pub routers_count : {U V Ann : Type 0} → Routers U V Ann → ℕ
  routers_count no_routers = 0
  routers_count (more_routers r rs) = router_count r + routers_count rs

-- A router below has no outer middleware and no handler of its own, for the type.
unfoldable mutual
  pub IsBare : {U V Ann : Type 0} → ℕ → Router U V Ann → Type 0
  IsBare t (router s children) =
      (s.outer_middlewares ≡ []) × (get_handlers t s.handlers ≡ []) × AreBare t children

  pub AreBare : {U V Ann : Type 0} → ℕ → Routers U V Ann → Type 0
  AreBare t no_routers = Unit
  AreBare t (more_routers r rs) = IsBare t r × AreBare t rs

module _ {V Ann : Type 0} (matches : V → Ann → Bool) where
  -- The result None, and `n` runs more.
  abbrev pub Counts : ℕ → World ℕ V → Result (Outcome V) × World ℕ V → Type 0
  Counts n w x = (x.0 ≡ ok nothing) × (x.1.rest ≡ w.rest + n)

  -- The router has the counter for its outer middleware, all told, and those below add none.
  unfoldable IsCounted : ℕ → List (RouterState ℕ V Ann) → Router ℕ V Ann → Type 0
  IsCounted t up (router s children) =
      (outer_of t (s ∷ up) ≡ counter ∷ []) × (get_handlers t s.handlers ≡ []) × AreBare t children

  abbrev counted : World ℕ V → World ℕ V
  counted w = record w { rest = w.rest + 1 }

  run_chain-counter :
      (chain : List (ScopedConfig (Middleware ℕ V))) (handler : Continuation ℕ V) (event : Event V)
      (w : World ℕ V)
      → chain ≡ counter ∷ []
      → run_chain chain handler event w ≡ catch_stop (handler event) (counted w)
  unfolding run_chain
  run_chain-counter chain handler event w h = ap (λ c. run_chain c handler event w) h

  bind-Counts :
      (m : Method ℕ V (Outcome V)) (k : Outcome V → Method ℕ V (Outcome V)) (n i total : ℕ)
      (w : World ℕ V)
      → n + i ≡ total
      → Counts n w (m w)
      → Counts i (m w).1 (k nothing (m w).1)
      → Counts total w ((m >>= k) w)
  bind-Counts m k n i total w h (a, b) (c, d) = ground arith

  no-Counts :
      (w : World ℕ V) (x : Result (Outcome V) × World ℕ V) → x ≡ (ok nothing, w) → Counts 0 w x
  no-Counts w x h = ground arith

  catch-Counts :
      (m : Method ℕ V (Outcome V)) (n : ℕ) (w : World ℕ V)
      → Counts n w (m w)
      → Counts n w (catch_stop m w)
  catch-Counts m n w (a, b) = ground arith

  -- What the handlers of a router without any add to the result None of those below.
  bare_tail :
      (up : List (RouterState ℕ V Ann)) (s : RouterState ℕ V Ann) (children : Routers ℕ V Ann)
      (event : Event V) (n : ℕ) (w : World ℕ V)
      → get_handlers event.event_type s.handlers ≡ []
      → Counts n w (propagate_children matches (s ∷ up) children event nothing w)
      → Counts n w (
          catch_stop
            (do
              result ← propagate_children matches (s ∷ up) children event nothing
              run_handlers matches (s ∷ up) (get_handlers event.event_type s.handlers) event result)
            w)
  unfolding run_handlers
  bare_tail up s children event n w g c =
      catch-Counts
        (do
          result ← propagate_children matches (s ∷ up) children event nothing
          run_handlers matches (s ∷ up) (get_handlers event.event_type s.handlers) event result)
        n w
        (bind-Counts (propagate_children matches (s ∷ up) children event nothing)
          (λ result.
            run_handlers matches (s ∷ up) (get_handlers event.event_type s.handlers) event result)
          n 0 n w (omega arith) c
          (no-Counts (propagate_children matches (s ∷ up) children event nothing w).1
            (run_handlers matches (s ∷ up) (get_handlers event.event_type s.handlers) event nothing
              (propagate_children matches (s ∷ up) children event nothing w).1)
            (ap
              (λ hs.
                run_handlers matches (s ∷ up) hs event nothing
                  (propagate_children matches (s ∷ up) children event nothing w).1)
              g)))

  propagate_event-counter :
      (up : List (RouterState ℕ V Ann)) (s : RouterState ℕ V Ann) (children : Routers ℕ V Ann)
      (event : Event V) (w : World ℕ V)
      → outer_of event.event_type (s ∷ up) ≡ counter ∷ []
      → get_handlers event.event_type s.handlers ≡ []
      → (n : ℕ)
      → ((w' : World ℕ V)
          → Counts n w' (propagate_children matches (s ∷ up) children event nothing w'))
      → Counts (suc n) w (propagate_event matches up (router s children) event w)
  unfolding propagate_event run_chain run_handlers prepare_context
  propagate_event-counter up s children event w h g n rest =
      let p = (prepare_context (dependencies_of (s ∷ up)) event w).1 in
      let (a, b) = bare_tail up s children event n (counted p) g (rest (counted p)) in
      let e : (counted p).rest + n ≡ w.rest + suc n = omega arith in
      rw
        (run_chain-counter (outer_of event.event_type (s ∷ up))
          (λ current. do
            result ← propagate_children matches (s ∷ up) children current nothing
            run_handlers matches (s ∷ up) (get_handlers current.event_type s.handlers) current
                result)
          event p h)
        (a, b ∙ e)

  IsCounted-of :
      (t : ℕ) (up : List (RouterState ℕ V Ann)) (r : Router ℕ V Ann)
      → outer_of t up ≡ counter ∷ []
      → IsBare t r
      → IsCounted t up r
  unfolding IsCounted IsBare
  IsCounted-of t up (router s rs) h (o, g, b) = (rw (o, h) refl, g, b)

  mutual
    unfolding IsCounted IsBare AreBare router_count routers_count propagate_children

    propagate_event-Counts :
        (up : List (RouterState ℕ V Ann)) (r : Router ℕ V Ann) (event : Event V) (w : World ℕ V)
        → IsCounted event.event_type up r
        → Counts (router_count r) w (propagate_event matches up r event w)
    propagate_event-Counts up (router s children) event w (h, g, b) =
        propagate_event-counter up s children event w h g (routers_count children)
          (λ w'. propagate_children-Counts (s ∷ up) children event w' h b)

    propagate_children-Counts :
        (up : List (RouterState ℕ V Ann)) (children : Routers ℕ V Ann) (event : Event V)
        (w : World ℕ V)
        → outer_of event.event_type up ≡ counter ∷ []
        → AreBare event.event_type children
        → Counts (routers_count children) w (propagate_children matches up children event nothing w)
    propagate_children-Counts up no_routers event w h b = (refl, omega arith)
    propagate_children-Counts up (more_routers r more) event w h (b, bs) =
        bind-Counts (propagate_event matches up r event)
          (λ result. propagate_children matches up more event (unless_nothing result nothing))
          (router_count r) (routers_count more) (router_count r + routers_count more) w refl
          (propagate_event-Counts up r event w (IsCounted-of event.event_type up r h b))
          (propagate_children-Counts up more event (propagate_event matches up r event w).1 h bs)

  -- A router whose only outer middleware is the counter, and whose routers below have no outer
  -- middleware and no handler of their own for the event's type: one event runs the counter once for
  -- each router of the tree, and the result is None.
  pub propagate_event-router_count :
      (s : RouterState ℕ V Ann) (children : Routers ℕ V Ann) (event : Event V) (w : World ℕ V)
      → s.outer_middlewares ≡ counter ∷ []
      → get_handlers event.event_type s.handlers ≡ []
      → AreBare event.event_type children
      → ((propagate_event matches [] (router s children) event w).0 ≡ ok nothing)
        × ((propagate_event matches [] (router s children) event w).1.rest
            ≡ w.rest + router_count (router s children))
  unfolding IsCounted
  propagate_event-router_count s children event w o g b =
      propagate_event-Counts [] (router s children) event w (rw o refl, g, b)
