-- ===== src/Routing/Dispatch/Examples.antt =====
-- Concrete handlers, filters, middleware and routers.
use Prim.Native.String.{String}
use vaidcord.Base.{◌+◌, ◌==◌, ℕ, ◌≡◌, refl, Bool, true, false, none, some, [], ◌∷◌}
use vaidcord.Base.Action.{pure}
use vaidcord.Base.Dict.{lookup, nat_key}
use vaidcord.Base.Items.{IsDict}
use vaidcord.Base.Int.{pos, negsuc}
use vaidcord.Base.Names.{name_key}
use vaidcord.Base.Result.{ok}
use vaidcord.Routing.Dispatch.{
  Event, World, value, nothing, Middleware, Handler, RouterState, Routers, router, no_routers,
  more_routers, dependencies_of, filters_of, middlewares_of, outer_of, propagate_event,
}
use vaidcord.Routing.Dispatch.OuterRuns.{
  counter, router_count, AreBare, propagate_event-router_count,
}
use vaidcord.Routing.Dispatch.Resolution.{
  add_outer_middlewares, resolve_dependencies, resolve_router_filter_configs,
  resolve_middleware_configs, resolve_outer_middleware_configs, resolutions_refine, unit_key,
}
use vaidcord.Routing.Filters.{passed, truthy, Answer, flag, matched, Filter}
use vaidcord.Routing.Kwargs.{Accepted, build_handler_kwargs, build_handler_kwargs_lem}
use vaidcord.Routing.Memo.{invalidate_resolution_caches, Cell}
use vaidcord.Routing.Memo.Reached.{Reached, made, included}
use vaidcord.Routing.Registry.{HandlerConfig, ScopedConfig, get_handlers}
use vaidcord.Routing.Registry.Stable.{Ordered, all_copies, register_all, get_handlers-register_all}

abbrev low : HandlerConfig ℕ
low = record { handler = 1; event_types = 5 ∷ 6 ∷ []; priority = negsuc 0 }

abbrev high : HandlerConfig ℕ
high = record { handler = 2; event_types = 5 ∷ []; priority = pos 3 }

get_handlers-register_all_example :
    Ordered
      (all_copies 5 (low ∷ high ∷ low ∷ []))
      (get_handlers 5 (register_all (low ∷ high ∷ low ∷ []) []))
get_handlers-register_all_example = get_handlers-register_all (low ∷ high ∷ low ∷ []) 5

-- Values are numbers, and an annotation matches itself.
abbrev same : ℕ → ℕ → Bool
same a b = a == b

abbrev accepted : Accepted ℕ
accepted = ("bot", none) ∷ ("count", some 7) ∷ []

one_name-IsDict : (name : String) (v : ℕ) → IsDict ((name, v) ∷ [])
unfolding IsDict
one_name-IsDict name v = (refl, tt)

accepted-IsDict : IsDict accepted
unfolding IsDict
accepted-IsDict = (refl, (refl, tt))

build_handler_kwargs_lem_example :
    lookup "count"
      (build_handler_kwargs same (("db", 7) ∷ []) (("bot", 1) ∷ []) (("bot", 2) ∷ []) accepted)
    ≡ some 7
build_handler_kwargs_lem_example =
    build_handler_kwargs_lem same (("db", 7) ∷ []) (("bot", 1) ∷ []) (("bot", 2) ∷ []) accepted
      "count" (one_name-IsDict "db" 7) (one_name-IsDict "bot" 1) (one_name-IsDict "bot" 2)
      accepted-IsDict

abbrev empty_dict : Filter ℕ ℕ ℕ
empty_dict event w = (ok (matched []), w + 1)

abbrev is_even : Filter ℕ ℕ ℕ
is_even event w = (ok (flag (event == 2)), w + 1)

is_even_Definite : (event w : ℕ) (a : Answer ℕ) → (is_even event w).0 ≡ ok a → passed a ≡ truthy a
is_even_Definite event w (flag b) h = refl
is_even_Definite event w (matched d) h = cc

abbrev event : Event ℕ
event = record { id = 0; event_type = 5; bot = some 1; self = 2; attributes = ("message", 3) ∷ [] }

abbrev world : World ℕ ℕ
world = record { context = λ id. []; filter_data = λ id. []; rest = 0 }

-- A middleware that drops the event, and one that answers 9.
abbrev drop : ScopedConfig (Middleware ℕ ℕ)
drop = record { item = λ e rest. pure nothing; priority = pos 0; event_types = none }

abbrev answer_nine : ScopedConfig (Middleware ℕ ℕ)
answer_nine = record {
  item = λ e rest. pure (value 9);
  priority = pos 0;
  event_types = some (5 ∷ []);
}

abbrev plain : RouterState ℕ ℕ ℕ
plain = record {
  handlers = [];
  middlewares = [];
  outer_middlewares = [];
  router_filters = [];
  dependencies = [];
}

abbrev dropping : RouterState ℕ ℕ ℕ
dropping = record plain { outer_middlewares = drop ∷ [] }

abbrev answering : RouterState ℕ ℕ ℕ
answering = record plain { middlewares = answer_nine ∷ [] }

abbrev counting : RouterState ℕ ℕ ℕ
counting = record plain { outer_middlewares = counter ∷ [] }

-- A handler that answers 4, behind a filter that never passes.
abbrev refused : HandlerConfig (Handler ℕ ℕ ℕ)
refused = record {
  handler = record {
    call = λ e kwargs. pure (some 4);
    filters = (λ e. pure (flag false)) ∷ [];
    accepted = [];
    pass_event = true;
  };
  event_types = 5 ∷ [];
  priority = pos 0;
}

abbrev two_below : Routers ℕ ℕ ℕ
two_below =
    more_routers (router plain no_routers) (more_routers (router plain no_routers) no_routers)

two_below-AreBare : AreBare 5 two_below
unfolding AreBare get_handlers
two_below-AreBare = ((refl, refl, tt), ((refl, refl, tt), tt))

no_handlers : get_handlers {H = Handler ℕ ℕ ℕ} 5 [] ≡ []
unfolding get_handlers
no_handlers = refl

three_routers : router_count (router counting two_below) ≡ 3
unfolding router_count
three_routers = refl

propagate_event-router_count_example :
    ((propagate_event same [] (router counting two_below) event world).0 ≡ ok nothing)
    × ((propagate_event same [] (router counting two_below) event world).1.rest
        ≡ 0 + router_count (router counting two_below))
propagate_event-router_count_example =
    propagate_event-router_count same counting two_below event world refl no_handlers
      two_below-AreBare

-- A router of a plain root, the root resolved before and after the inclusion.
abbrev cell : {K R : Type 0} → RouterState ℕ ℕ ℕ → Cell K (RouterState ℕ ℕ ℕ) R
cell r = record { state = r; cache = [] }

two_resolved : Reached [] add_outer_middlewares (cell counting ∷ cell plain ∷ [])
unfolding invalidate_resolution_caches
two_resolved = included (cell counting ∷ []) (cell plain) [] (made counting) (made plain)

resolutions_refine_example :
    ((resolve_dependencies (cell plain ∷ [])).0 ≡ dependencies_of (plain ∷ []))
    × ((resolve_router_filter_configs 5 (cell plain ∷ [])).0 ≡ filters_of 5 (plain ∷ []))
    × ((resolve_middleware_configs 5 (cell plain ∷ [])).0 ≡ middlewares_of 5 (plain ∷ []))
    × ((resolve_outer_middleware_configs 5 (cell counting ∷ cell plain ∷ [])).0
        ≡ outer_of 5 (counting ∷ plain ∷ []))
resolutions_refine_example =
    resolutions_refine 5 (cell plain ∷ []) (cell plain ∷ []) (cell plain ∷ [])
      (cell counting ∷ cell plain ∷ []) (made plain) (made plain) (made plain) two_resolved
