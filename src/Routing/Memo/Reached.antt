-- ===== src/Routing/Memo/Reached.antt =====
-- The caches in every state that the router's operations reach.
use vaidcord.Base.{
  ◌≡◌, refl, sym, ap, ◌∙◌, inl, inr, some, List, [], ◌∷◌, ◌++◌, if◌then◌else◌, Bool-cases,
  Option-cases, arith,
}
use vaidcord.Base.Dict.{Key, lookup, insert, lookup-insert}
use vaidcord.Routing.Memo.{
  Cell, cleared, invalidate_resolution_caches, states, inherited, resolve, IsCoherent,
}

module _ {K N R : Type 0} ⦃key : Key K⦄ (base : R) (combine : K → R → N → R) where
  -- The routers from one router up to its root, after any calls: a router is made, a resolution is
  -- asked of it or of a router above it, a router of the way changes, or the root is included in
  -- another tree.
  pub data Reached : List (Cell K N R) → Type 0 where
    made : (n : N) → Reached (record { state = n; cache = [] } ∷ [])
    resolved :
        (below up : List (Cell K N R)) (k : K)
        → Reached (below ++ up)
        → Reached (below ++ (resolve base combine k up).1)
    changed :
        (below : List (Cell K N R)) (c : Cell K N R) (up : List (Cell K N R)) (n : N)
        → Reached (below ++ c ∷ up)
        → Reached (invalidate_resolution_caches below ++ record { state = n; cache = [] } ∷ up)
    included :
        (below : List (Cell K N R)) (c : Cell K N R) (up : List (Cell K N R))
        → Reached below
        → Reached (c ∷ up)
        → Reached (invalidate_resolution_caches below ++ cleared c ∷ up)

  keep-insert :
      (k : K) (v : R) (cache : List (K × R)) (f : K → R)
      → v ≡ f k
      → ((j : K) (r : R) → lookup j cache ≡ some r → r ≡ f j)
      → (j : K) (r : R) → lookup j (insert k v cache) ≡ some r
      → r ≡ f j
  keep-insert k v cache f h g j r l =
      let m : (if key.same k j then some v else lookup j cache) ≡ some r =
        sym (lookup-insert k j v cache) ∙ l in
      elim (Bool-cases (key.same k j)) [
        | inl e ↦ let same = (key.same_iff k j).0 e in ground (arith, m, same, h)
        | inr e ↦ ground (arith, m, g j r)
      ]

  resolve_lem :
      (k : K) (cs : List (Cell K N R))
      → IsCoherent base combine cs
      → ((resolve base combine k cs).0 ≡ inherited base combine k (states cs))
        × (states (resolve base combine k cs).1 ≡ states cs)
        × IsCoherent base combine (resolve base combine k cs).1
  unfolding resolve IsCoherent
  resolve_lem k [] h = (refl, refl, tt)
  resolve_lem k (c ∷ up) (h, g) = elim (Option-cases (lookup k c.cache)) [
    | inl e ↦
        let (p, q, s) = resolve_lem k up g in
        let now : combine k (resolve base combine k up).0 c.state
            ≡ inherited base combine k (c.state ∷ states up) =
          ap (λ x. combine k x c.state) p in
        rw (resolve, e)
          (
            now,
            ap (λ x. c.state ∷ x) q,
            (
              rw q (
                  keep-insert k (combine k (resolve base combine k up).0 c.state) c.cache
                    (λ j. inherited base combine j (c.state ∷ states up)) now h),
              s,
            ),
          )
    | inr (r, e) ↦ rw (resolve, e) (h k r e, refl, (h, g))
  ]

  IsCoherent-above :
      (below up : List (Cell K N R))
      → IsCoherent base combine (below ++ up)
      → IsCoherent base combine up
  unfolding IsCoherent
  IsCoherent-above [] up h = h
  IsCoherent-above (c ∷ below) up (h, g) = IsCoherent-above below up g

  states-append :
      (below up up' : List (Cell K N R))
      → states up' ≡ states up
      → states (below ++ up') ≡ states (below ++ up)
  states-append [] up up' h = h
  states-append (c ∷ below) up up' h = ap (λ x. c.state ∷ x) (states-append below up up' h)

  IsCoherent-below :
      (below up up' : List (Cell K N R))
      → states up' ≡ states up
      → IsCoherent base combine up'
      → IsCoherent base combine (below ++ up)
      → IsCoherent base combine (below ++ up')
  unfolding IsCoherent
  IsCoherent-below [] up up' h g i = g
  IsCoherent-below (c ∷ below) up up' h g (i, j) =
      (rw (states-append below up up' h) i, IsCoherent-below below up up' h g j)

  IsCoherent-invalidated :
      (below up : List (Cell K N R))
      → IsCoherent base combine up
      → IsCoherent base combine (invalidate_resolution_caches below ++ up)
  unfolding IsCoherent invalidate_resolution_caches
  IsCoherent-invalidated [] up h = h
  IsCoherent-invalidated (c ∷ below) up h = (λ k r e. cc, IsCoherent-invalidated below up h)

  Reached-IsCoherent : (cs : List (Cell K N R)) → Reached cs → IsCoherent base combine cs
  unfolding IsCoherent
  Reached-IsCoherent _ (made n) = (λ k r e. cc, tt)
  Reached-IsCoherent _ (resolved below up k h) =
      let all = Reached-IsCoherent (below ++ up) h in
      let (p, q, s) = resolve_lem k up (IsCoherent-above below up all) in
      IsCoherent-below below up (resolve base combine k up).1 q s all
  Reached-IsCoherent _ (changed below c up n h) =
      let (i, j) = IsCoherent-above below (c ∷ up) (Reached-IsCoherent (below ++ c ∷ up) h) in
      IsCoherent-invalidated below (record { state = n; cache = [] } ∷ up) (λ k r e. cc, j)
  Reached-IsCoherent _ (included below c up h g) =
      let (i, j) = Reached-IsCoherent (c ∷ up) g in
      IsCoherent-invalidated below (cleared c ∷ up) (λ k r e. cc, j)

  -- In every state that a router's calls reach, the cached resolution answers what the resolution
  -- without a cache computes from the configurations of the router and of those above it.
  pub resolve_refines :
      (cs : List (Cell K N R)) (k : K)
      → Reached cs
      → (resolve base combine k cs).0 ≡ inherited base combine k (states cs)
  resolve_refines cs k h = (resolve_lem k cs (Reached-IsCoherent cs h)).0
