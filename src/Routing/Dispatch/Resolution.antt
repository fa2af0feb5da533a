-- ===== src/Routing/Dispatch/Resolution.antt =====
-- The four cached resolutions of vaidcord-py/src/vaidcord/router.py, on the states of its routers.
use Prim.Native.String.{String}
use vaidcord.Base.{ℕ, ◌≡◌, ◌∙◌, refl, ap, true, List, [], ◌∷◌, ◌++◌}
use vaidcord.Base.Dict.{Key, nat_key}
use vaidcord.Base.Items.{insert_all}
use vaidcord.Base.Names.{name_key}
use vaidcord.Routing.Dispatch.{
  RouterState, EventFilter, Middleware, dependencies_of, filters_of, middlewares_of, outer_of,
}
use vaidcord.Routing.Memo.{Cell, inherited, resolve, states}
use vaidcord.Routing.Memo.Reached.{Reached, resolve_refines}
use vaidcord.Routing.Registry.{ScopedConfig, scoped}

-- The cache of the dependencies has one entry at most.
instance abbrev pub unit_key : Key (Unit {0})
unit_key = record { same = λ a b. true; same_iff = λ a b. (λ h. refl, λ h. refl) }

abbrev pub DependencyCells : Type 0 → Type 0 → Type 0 → Type 0
DependencyCells U V Ann = List (Cell (Unit {0}) (RouterState U V Ann) (List (String × V)))

abbrev pub FilterCells : Type 0 → Type 0 → Type 0 → Type 0
FilterCells U V Ann = List (Cell ℕ (RouterState U V Ann) (List (ScopedConfig (EventFilter U V))))

abbrev pub MiddlewareCells : Type 0 → Type 0 → Type 0 → Type 0
MiddlewareCells U V Ann = List (Cell ℕ (RouterState U V Ann) (List (ScopedConfig (Middleware U V))))

module _ {U V Ann : Type 0} where
  abbrev pub add_dependencies :
      Unit {0} → List (String × V) → RouterState U V Ann → List (String × V)
  add_dependencies _ above r = insert_all r.dependencies above

  abbrev pub add_router_filters :
      ℕ
      → List (ScopedConfig (EventFilter U V))
      → RouterState U V Ann
      → List (ScopedConfig (EventFilter U V))
  add_router_filters t above r = scoped t (above ++ r.router_filters)

  abbrev pub add_middlewares :
      ℕ
      → List (ScopedConfig (Middleware U V))
      → RouterState U V Ann
      → List (ScopedConfig (Middleware U V))
  add_middlewares t above r = scoped t (above ++ r.middlewares)

  abbrev pub add_outer_middlewares :
      ℕ
      → List (ScopedConfig (Middleware U V))
      → RouterState U V Ann
      → List (ScopedConfig (Middleware U V))
  add_outer_middlewares t above r = scoped t (above ++ r.outer_middlewares)

  unfoldable pub resolve_dependencies :
      DependencyCells U V Ann → List (String × V) × DependencyCells U V Ann
  resolve_dependencies cs = resolve [] add_dependencies tt cs

  unfoldable pub resolve_router_filter_configs :
      ℕ → FilterCells U V Ann → List (ScopedConfig (EventFilter U V)) × FilterCells U V Ann
  resolve_router_filter_configs t cs = resolve [] add_router_filters t cs

  unfoldable pub resolve_middleware_configs :
      ℕ → MiddlewareCells U V Ann → List (ScopedConfig (Middleware U V)) × MiddlewareCells U V Ann
  resolve_middleware_configs t cs = resolve [] add_middlewares t cs

  unfoldable pub resolve_outer_middleware_configs :
      ℕ → MiddlewareCells U V Ann → List (ScopedConfig (Middleware U V)) × MiddlewareCells U V Ann
  resolve_outer_middleware_configs t cs = resolve [] add_outer_middlewares t cs

  inherited_dependencies :
      (up : List (RouterState U V Ann)) → inherited [] add_dependencies tt up ≡ dependencies_of up
  inherited_dependencies [] = refl
  inherited_dependencies (r ∷ up) = ap (insert_all r.dependencies) (inherited_dependencies up)

  inherited_filters :
      (t : ℕ) (up : List (RouterState U V Ann))
      → inherited [] add_router_filters t up ≡ filters_of t up
  inherited_filters t [] = refl
  inherited_filters t (r ∷ up) = ap (λ z. scoped t (z ++ r.router_filters)) (inherited_filters t up)

  inherited_middlewares :
      (t : ℕ) (up : List (RouterState U V Ann))
      → inherited [] add_middlewares t up ≡ middlewares_of t up
  inherited_middlewares t [] = refl
  inherited_middlewares t (r ∷ up) =
      ap (λ z. scoped t (z ++ r.middlewares)) (inherited_middlewares t up)

  inherited_outer :
      (t : ℕ) (up : List (RouterState U V Ann))
      → inherited [] add_outer_middlewares t up ≡ outer_of t up
  inherited_outer t [] = refl
  inherited_outer t (r ∷ up) = ap (λ z. scoped t (z ++ r.outer_middlewares)) (inherited_outer t up)

  -- For routers in any reached state of each of the four caches, the cached resolutions give the
  -- dependencies, filters, middleware and outer middleware that the event is dispatched with: those of
  -- the router and of all above it.
  pub resolutions_refine :
      (t : ℕ) (ds : DependencyCells U V Ann) (fs : FilterCells U V Ann)
      (ms os : MiddlewareCells U V Ann)
      → Reached [] add_dependencies ds
      → Reached [] add_router_filters fs
      → Reached [] add_middlewares ms
      → Reached [] add_outer_middlewares os
      → ((resolve_dependencies ds).0 ≡ dependencies_of (states ds))
        × ((resolve_router_filter_configs t fs).0 ≡ filters_of t (states fs))
        × ((resolve_middleware_configs t ms).0 ≡ middlewares_of t (states ms))
        × ((resolve_outer_middleware_configs t os).0 ≡ outer_of t (states os))
  unfolding resolve_dependencies resolve_router_filter_configs resolve_middleware_configs
      resolve_outer_middleware_configs
  resolutions_refine t ds fs ms os hd hf hm ho = (
    resolve_refines [] add_dependencies ds tt hd ∙ inherited_dependencies (states ds),
    resolve_refines [] add_router_filters fs t hf ∙ inherited_filters t (states fs),
    resolve_refines [] add_middlewares ms t hm ∙ inherited_middlewares t (states ms),
    resolve_refines [] add_outer_middlewares os t ho ∙ inherited_outer t (states os),
  )
