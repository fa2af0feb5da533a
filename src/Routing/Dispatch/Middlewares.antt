-- ===== src/Routing/Dispatch/Middlewares.antt =====
-- What a middleware that does not call on decides.
use vaidcord.Base.{◌≡◌, refl, Bool, List, [], ◌∷◌, ap, ◌∙◌}
use vaidcord.Base.Action.{pure, ◌>>=◌}
use vaidcord.Base.Result.{ok}
use vaidcord.Routing.Registry.{HandlerConfig, ScopedConfig, get_handlers}
use vaidcord.Routing.Dispatch.{
  Event, World, Outcome, value, nothing, catch_stop, Method, Continuation, Middleware, Handler,
  RouterState, Routers, router, dependencies_of, filters_of, middlewares_of, outer_of, items_of,
  prepare_context, run_chain, guarded_handler, run_handlers, propagate_event, propagate_children,
}

module _ {U V Ann : Type 0} (matches : V → Ann → Bool) where
  run_chain-answer :
      (chain : List (ScopedConfig (Middleware U V))) (handler : Continuation U V) (event : Event V)
      (m : ScopedConfig (Middleware U V)) (ms : List (ScopedConfig (Middleware U V)))
      (answer : Method U V (Outcome V))
      → chain ≡ m ∷ ms
      → ((rest : Continuation U V) → m.item event rest ≡ answer)
      → run_chain chain handler event ≡ catch_stop answer
  unfolding run_chain
  run_chain-answer chain handler event m ms answer h k =
      ap (λ c. run_chain c handler event) h ∙ ap catch_stop (k (run_chain ms handler))

  -- Where the first outer middleware of a router answers for an event whatever the rest of the chain is,
  -- that answer is the result, StopPropagation counting as None: no router below and no filter, handler
  -- or inner middleware has run, and the context was prepared.
  pub propagate_event-outer_answer :
      (up : List (RouterState U V Ann)) (s : RouterState U V Ann) (children : Routers U V Ann)
      (event : Event V) (m : ScopedConfig (Middleware U V))
      (ms : List (ScopedConfig (Middleware U V))) (answer : Method U V (Outcome V)) (w : World U V)
      → outer_of event.event_type (s ∷ up) ≡ m ∷ ms
      → ((rest : Continuation U V) → m.item event rest ≡ answer)
      → propagate_event matches up (router s children) event w
        ≡ catch_stop answer (prepare_context (dependencies_of (s ∷ up)) event w).1
  unfolding propagate_event prepare_context
  propagate_event-outer_answer up s children event m ms answer w h k =
      ap (λ (f : Method U V (Outcome V)). f (prepare_context (dependencies_of (s ∷ up)) event w).1)
        (run_chain-answer (outer_of event.event_type (s ∷ up))
          (λ current. do
            result ← propagate_children matches (s ∷ up) children current nothing
            run_handlers matches (s ∷ up) (get_handlers current.event_type s.handlers) current
                result)
          event m ms answer h k)

  -- Where the first inner middleware of a router answers a value for an event whatever the rest of the
  -- chain is, that value is the result of the router's handlers, whatever their filters would say: the
  -- filters have not run.
  pub run_handlers-inner_answer :
      (chain : List (RouterState U V Ann)) (c : HandlerConfig (Handler U V Ann))
      (cs : List (HandlerConfig (Handler U V Ann))) (event : Event V) (result : Outcome V)
      (m : ScopedConfig (Middleware U V)) (ms : List (ScopedConfig (Middleware U V))) (v : V)
      (w : World U V)
      → middlewares_of event.event_type chain ≡ m ∷ ms
      → ((rest : Continuation U V) → m.item event rest ≡ pure (value v))
      → run_handlers matches chain (c ∷ cs) event result w ≡ (ok (value v), w)
  unfolding run_handlers
  run_handlers-inner_answer chain c [] event result m ms v w h k =
      rw
        (run_chain-answer (middlewares_of event.event_type chain)
          (guarded_handler matches chain (items_of (filters_of event.event_type chain)) c.handler)
          event m ms (pure (value v)) h k)
        refl
  run_handlers-inner_answer chain c (d ∷ cs) event result m ms v w h k =
      rw
        (run_chain-answer (middlewares_of event.event_type chain)
          (guarded_handler matches chain (items_of (filters_of event.event_type chain)) c.handler)
          event m ms (pure (value v)) h k)
        (run_handlers-inner_answer chain d cs event (value v) m ms v w h k)
