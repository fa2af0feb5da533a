-- ===== src/Routing/Dispatch.antt =====
-- `propagate_event` of vaidcord-py/src/vaidcord/router.py, on a tree of routers. What a router inherits
-- is read from its ancestors, nearest first, which `Resolution` shows of the cached one. Handlers,
-- filters and middleware are any functions on a world, which holds the contexts of the events.
pub mod Middlewares
pub mod OuterRuns
pub mod Resolution
mod Examples
use Prim.Native.String.{String}
use vaidcord.Base.{
  ℕ, ◌≡◌, Bool, true, false, Option, none, some, List, [], ◌∷◌, ◌++◌, ◌==◌, if◌then◌else◌, is_some,
  map,
}
use vaidcord.Base.Action.{Action, pure, raise, gets, modify, ◌>>=◌, ◌>>◌}
use vaidcord.Base.Dict.{lookup, insert, nat_key}
use vaidcord.Base.Items.{insert_all}
use vaidcord.Base.Names.{name_key}
use vaidcord.Base.Result.{Raised, Result, ok, err, stop_propagation, cancelled_error}
use vaidcord.Routing.Filters.{Answer, Filter, passed, data_of}
use vaidcord.Routing.Kwargs.{Accepted, build_handler_kwargs}
use vaidcord.Routing.Registry.{HandlerConfig, Handlers, get_handlers, ScopedConfig, scoped}

-- An event object: `attributes` are those of the names that `propagate_event` lists that are not None,
-- in its order.
pub record Event (V : Type 0) : Type 0 where
  pub id : ℕ
  pub event_type : ℕ
  pub bot : Option V
  pub self : V
  pub attributes : List (String × V)

-- `context` without its entry "filter_data", which stands apart, by event.
pub record World (U V : Type 0) : Type 0 where
  pub context : ℕ → List (String × V)
  pub filter_data : ℕ → List (String × V)
  pub rest : U

-- What a call in the chain gives: the sentinel of a handler whose filters fail, None, or a value.
pub data Outcome (V : Type 0) : Type 0 where
  skipped nothing : Outcome V
  value : V → Outcome V

abbrev pub outcome : {V : Type 0} → Option V → Outcome V
outcome none = nothing
outcome (some v) = value v

abbrev pub at : {A : Type 0} → ℕ → A → (ℕ → A) → ℕ → A
at id new old other = if id == other then new else old other

-- `setdefault`
abbrev pub set_default : {V : Type 0} → String → V → List (String × V) → List (String × V)
set_default name v d = if is_some (lookup name d) then d else insert name v d

abbrev pub set_defaults : {V : Type 0} → List (String × V) → List (String × V) → List (String × V)
set_defaults [] d = d
set_defaults ((name, v) ∷ more) d = set_defaults more (set_default name v d)

abbrev pub put_bot : {V : Type 0} → Option V → List (String × V) → List (String × V)
put_bot none d = d
put_bot (some bot) d = insert "bot" bot d

-- `except Exception`, which lets a cancellation through.
abbrev pub is_exception : Raised → Bool
is_exception cancelled_error = false
is_exception _ = true

-- `try: … except StopPropagation: return None`
abbrev pub catch_stop : {W V : Type 0} → Action W (Outcome V) → Action W (Outcome V)
catch_stop m w =
    let (r, w') = m w in
    elim r [
      | ok o ↦ (ok o, w')
      | err e ↦ elim e [ stop_propagation ↦ (ok nothing, w') | other ↦ (err other, w') ]
    ]

abbrev pub unless_skipped : {V : Type 0} → Outcome V → Outcome V → Outcome V
unless_skipped skipped old = old
unless_skipped nothing old = nothing
unless_skipped (value v) old = value v

-- `if router_result is not None: result = router_result`
abbrev pub unless_nothing : {V : Type 0} → Outcome V → Outcome V → Outcome V
unless_nothing skipped old = skipped
unless_nothing nothing old = old
unless_nothing (value v) old = value v

abbrev pub Method : Type 0 → Type 0 → Type 0 → Type 0
Method U V A = Action (World U V) A

abbrev pub EventFilter : Type 0 → Type 0 → Type 0
EventFilter U V = Filter (World U V) (Event V) V

abbrev pub Continuation : Type 0 → Type 0 → Type 0
Continuation U V = Event V → Method U V (Outcome V)

-- A middleware, of either calling convention: it is given the rest of the chain.
abbrev pub Middleware : Type 0 → Type 0 → Type 0
Middleware U V = Event V → Continuation U V → Method U V (Outcome V)

-- A handler with the filters and the signature of its configuration. It is given the event only if its
-- signature asks for it.
pub record Handler (U V Ann : Type 0) : Type 0 where
  pub call : Option (Event V) → List (String × V) → Method U V (Option V)
  pub filters : List (EventFilter U V)
  pub accepted : Accepted Ann
  pub pass_event : Bool

pub record RouterState (U V Ann : Type 0) : Type 0 where
  pub handlers : Handlers (Handler U V Ann)
  pub middlewares : List (ScopedConfig (Middleware U V))
  pub outer_middlewares : List (ScopedConfig (Middleware U V))
  pub router_filters : List (ScopedConfig (EventFilter U V))
  pub dependencies : List (String × V)

mutual
  pub data Router (U V Ann : Type 0) : Type 0 where
    router : RouterState U V Ann → Routers U V Ann → Router U V Ann

  pub data Routers (U V Ann : Type 0) : Type 0 where
    no_routers : Routers U V Ann
    more_routers : Router U V Ann → Routers U V Ann → Routers U V Ann

module _ {U V Ann : Type 0} where
  -- What `_resolve_dependencies` and the three `_resolve_…_configs` compute for a router and its
  -- ancestors.
  abbrev pub dependencies_of : List (RouterState U V Ann) → List (String × V)
  dependencies_of [] = []
  dependencies_of (r ∷ up) = insert_all r.dependencies (dependencies_of up)

  abbrev pub filters_of : ℕ → List (RouterState U V Ann) → List (ScopedConfig (EventFilter U V))
  filters_of t [] = []
  filters_of t (r ∷ up) = scoped t (filters_of t up ++ r.router_filters)

  abbrev pub middlewares_of : ℕ → List (RouterState U V Ann) → List (ScopedConfig (Middleware U V))
  middlewares_of t [] = []
  middlewares_of t (r ∷ up) = scoped t (middlewares_of t up ++ r.middlewares)

  abbrev pub outer_of : ℕ → List (RouterState U V Ann) → List (ScopedConfig (Middleware U V))
  outer_of t [] = []
  outer_of t (r ∷ up) = scoped t (outer_of t up ++ r.outer_middlewares)

module _ {U V : Type 0} where
  -- The start of `propagate_event`, on the context of the event.
  unfoldable pub prepare_context : List (String × V) → Event V → Method U V (Unit {0})
  prepare_context dependencies event = modify (λ w. record w {
    context =
        at event.id
          (set_defaults event.attributes (
            set_default "event" event.self
              (put_bot event.bot (insert_all dependencies (w.context event.id)))))
          w.context;
  })

  -- `_execute_outer_middlewares` and `_execute_with_middlewares` along their chain.
  unfoldable pub run_chain :
      List (ScopedConfig (Middleware U V)) → Continuation U V → Continuation U V
  run_chain [] handler event = handler event
  run_chain (m ∷ ms) handler event = catch_stop (m.item event (run_chain ms handler))

  -- The loop over the filters of a handler: the data of those that passed, or `none` if one did not
  -- pass or raised.
  unfoldable pub run_filters :
      List (EventFilter U V) → Event V → List (String × V) → Method U V (Option (List (String × V)))
  run_filters [] event found w = (ok (some found), w)
  run_filters (f ∷ fs) event found w =
      let (r, w') = f event w in
      elim r [
        | err e ↦ if is_exception e then (ok none, w') else (err e, w')
        | ok answer ↦ elim (passed answer) [
          | true ↦ run_filters fs event (insert_all (data_of answer) found) w'
          | false ↦ (ok none, w')
        ]
      ]

  abbrev pub note_filter_data : Event V → List (String × V) → World U V → World U V
  note_filter_data event found w = record w {
    filter_data = at event.id (insert_all found (w.filter_data event.id)) w.filter_data;
  }

abbrev pub given_event : {V : Type 0} → Bool → Event V → Option (Event V)
given_event true event = some event
given_event false event = none

abbrev pub items_of : {M : Type 0} → List (ScopedConfig M) → List M
items_of [] = []
items_of (c ∷ cs) = c.item ∷ items_of cs

module _ {U V Ann : Type 0} (matches : V → Ann → Bool) where
  -- The call of a handler whose filters passed.
  unfoldable pub invoke : List (String × V) → Handler U V Ann → Event V → Method U V (Outcome V)
  invoke dependencies h event w =
      (do
        result ← h.call (given_event h.pass_event event) (
            build_handler_kwargs matches dependencies (w.context event.id) (w.filter_data event.id)
              h.accepted)
        pure (outcome result))
        w

  unfoldable pub guarded_handler :
      List (RouterState U V Ann) → List (EventFilter U V) → Handler U V Ann → Continuation U V
  guarded_handler chain router_filters h event = do
    found ← run_filters (router_filters ++ h.filters) event []
    elim found [
      | none ↦ pure skipped
      | some d ↦ (do modify (note_filter_data event d); invoke (dependencies_of chain) h event)
    ]

  -- The loop over the handlers of the event's type.
  unfoldable pub run_handlers :
      List (RouterState U V Ann)
      → List (HandlerConfig (Handler U V Ann))
      → Event V
      → Outcome V
      → Method U V (Outcome V)
  run_handlers chain [] event result = pure result
  run_handlers chain (c ∷ cs) event result = do
    current ←
        run_chain (middlewares_of event.event_type chain)
          (guarded_handler chain (items_of (filters_of event.event_type chain)) c.handler) event
    run_handlers chain cs event (unless_skipped current result)

  unfoldable mutual
    unfolding run_chain run_handlers prepare_context

    pub propagate_event :
        List (RouterState U V Ann) → Router U V Ann → Event V → Method U V (Outcome V)
    propagate_event up (router s children) event = do
      prepare_context (dependencies_of (s ∷ up)) event
      run_chain (outer_of event.event_type (s ∷ up))
          (λ current. do
            result ← propagate_children (s ∷ up) children current nothing
            run_handlers (s ∷ up) (get_handlers current.event_type s.handlers) current result)
          event

    pub propagate_children :
        List (RouterState U V Ann) → Routers U V Ann → Event V → Outcome V → Method U V (Outcome V)
    propagate_children up no_routers event result = pure result
    propagate_children up (more_routers r rs) event result = do
      router_result ← propagate_event up r event
      propagate_children up rs event (unless_nothing router_result result)
