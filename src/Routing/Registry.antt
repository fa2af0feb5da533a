-- ===== src/Routing/Registry.antt =====
-- The registration of handlers, filters and middleware on one router, each kept in the order in which
-- it is tried. An event type is the number of its enumeration member.
pub mod Stable
use vaidcord.Base.{
  ℕ, ◌≡◌, Bool, true, false, not, ◌&&◌, ◌||◌, Option, none, some, List, [], ◌∷◌, ◌++◌, ◌==◌,
  if◌then◌else◌, contains,
}
use vaidcord.Base.Dict.{nat_key, lookup, insert, erase}
use vaidcord.Base.Int.{ℤ}
use vaidcord.Routing.Order.{sort_descending}

-- `HandlerConfig`, of which the registry reads the event types and the priority.
pub record HandlerConfig (H : Type 0) : Type 0 where
  pub handler : H
  pub event_types : List ℕ
  pub priority : ℤ

-- `MiddlewareConfig` and `RouterFilterConfig`: no event types means all of them.
pub record ScopedConfig (M : Type 0) : Type 0 where
  pub item : M
  pub priority : ℤ
  pub event_types : Option (List ℕ)

-- `item.event_types is None or event_type in item.event_types`
abbrev pub applies_to : ℕ → Option (List ℕ) → Bool
applies_to t none = true
applies_to t (some ts) = contains t ts

abbrev pub Handlers : Type 0 → Type 0
Handlers H = List (ℕ × List (HandlerConfig H))

module _ {H : Type 0} where
  abbrev pub registered : Option (List (HandlerConfig H)) → List (HandlerConfig H)
  registered none = []
  registered (some configs) = configs

  -- `get_handlers`
  unfoldable pub get_handlers : ℕ → Handlers H → List (HandlerConfig H)
  get_handlers t handlers = registered (lookup t handlers)

  -- One round of the loop of `register_handler`: append and sort.
  unfoldable pub register_for : HandlerConfig H → ℕ → Handlers H → Handlers H
  unfolding get_handlers
  register_for config t handlers =
      insert t (sort_descending (λ c. c.priority) (get_handlers t handlers ++ config ∷ [])) handlers

  unfoldable pub register_types : HandlerConfig H → List ℕ → Handlers H → Handlers H
  register_types config [] handlers = handlers
  register_types config (t ∷ ts) handlers =
      register_types config ts (register_for config t handlers)

  -- `register_handler`, the event types resolved.
  unfoldable pub register_handler : HandlerConfig H → Handlers H → Handlers H
  register_handler config handlers = register_types config config.event_types handlers

  -- `clear_handlers`
  unfoldable pub clear_handlers : Option ℕ → Handlers H → Handlers H
  clear_handlers none handlers = []
  clear_handlers (some t) handlers = erase t handlers

-- `add_filter`, `add_middleware` and `add_outer_middleware`, on the list that each of them keeps.
unfoldable pub add_config :
    {M : Type 0} → ScopedConfig M → List (ScopedConfig M) → List (ScopedConfig M)
add_config config configs = sort_descending (λ c. c.priority) (configs ++ config ∷ [])

-- The configurations for an event type.
abbrev pub scoped : {M : Type 0} → ℕ → List (ScopedConfig M) → List (ScopedConfig M)
scoped t [] = []
scoped t (c ∷ cs) = if applies_to t c.event_types then c ∷ scoped t cs else scoped t cs
