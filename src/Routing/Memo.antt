-- ===== src/Routing/Memo.antt =====
-- The cached resolution of what a router inherits, in vaidcord-py/src/vaidcord/router.py: the four
-- `_resolve_…` methods climb from a router to its parent and keep what they found in a cache of each
-- router, which `_invalidate_resolution_caches` clears below a router that changes. The routers are
-- those from one router up to its root, nearest first: a change elsewhere clears none of their caches.
pub mod Reached
use vaidcord.Base.{ℕ, ◌≡◌, Option, none, some, List, [], ◌∷◌, ◌++◌}
use vaidcord.Base.Dict.{Key, lookup, insert}

-- A router: what it was configured with, and one of its caches.
pub record Cell (K N R : Type 0) : Type 0 where
  pub state : N
  pub cache : List (K × R)

-- One round of `_invalidate_resolution_caches`.
abbrev pub cleared : {K N R : Type 0} → Cell K N R → Cell K N R
cleared c = record c { cache = [] }

-- Its recursion, on the routers below a router that lie on the way.
unfoldable pub invalidate_resolution_caches :
    {K N R : Type 0} → List (Cell K N R) → List (Cell K N R)
invalidate_resolution_caches [] = []
invalidate_resolution_caches (c ∷ cs) = cleared c ∷ invalidate_resolution_caches cs

abbrev pub states : {K N R : Type 0} → List (Cell K N R) → List N
states [] = []
states (c ∷ cs) = c.state ∷ states cs

-- What the four resolutions share: `combine` makes a router's own part follow what its parent
-- resolved to, and a root starts at `base`.
module _ {K N R : Type 0} ⦃key : Key K⦄ (base : R) (combine : K → R → N → R) where
  -- The resolution without a cache.
  abbrev pub inherited : K → List N → R
  inherited k [] = base
  inherited k (n ∷ up) = combine k (inherited k up) n

  unfoldable pub resolve : K → List (Cell K N R) → R × List (Cell K N R)
  resolve k [] = (base, [])
  resolve k (c ∷ up) =
      let (above, up') = resolve k up in
      elim (lookup k c.cache) [
        | some cached ↦ (cached, c ∷ up)
        | none ↦
            let resolved = combine k above c.state in
            (resolved, record c { cache = insert k resolved c.cache } ∷ up')
      ]

  -- Every cached value is what the uncached resolution gives.
  unfoldable pub IsCoherent : List (Cell K N R) → Type 0
  IsCoherent [] = Unit
  IsCoherent (c ∷ up) =
      ((k : K) (r : R) → lookup k c.cache ≡ some r → r ≡ inherited k (c.state ∷ states up))
      × IsCoherent up
