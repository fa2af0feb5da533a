-- ===== src/Routing/Filters/Algebra.antt =====
-- Filters as Boolean expressions.
use vaidcord.Base.{◌≡◌, inl, inr, true, [], arith}
use vaidcord.Base.Result.{ok, Result-cases}
use vaidcord.Routing.Filters.{
  Answer, matched, Filter, passed, truthy, run_filter, and_filter, or_filter, invert_filter,
}

module _ {W E V : Type 0} where
  -- The filter never answers with an empty dict.
  abbrev pub IsDefinite : Filter W E V → Type 0
  IsDefinite f = (event : E) (w : W) (a : Answer V) → (f event w).0 ≡ ok a → passed a ≡ truthy a

  -- A filter that answers with an empty dict passes, and its inversion passes as well.
  pub invert_filter_both_pass :
      (f : Filter W E V) (event : E) (w w' : W)
      → f event w ≡ (ok (matched []), w')
      → (run_filter f event w ≡ (ok true, w'))
        × (run_filter (invert_filter f) event w ≡ (ok true, w'))
  unfolding invert_filter run_filter
  invert_filter_both_pass f event w w' h = (ground arith, ground arith)

  -- For filters that never answer with an empty dict, the inversion of a disjunction does what the
  -- conjunction of the inversions does: the same filters run on the same world, with the same answer or
  -- the same error.
  pub invert_filter-or_filter :
      (f g : Filter W E V) (event : E) (w : W)
      → IsDefinite f
      → IsDefinite g
      → invert_filter (or_filter f g) event w
        ≡ and_filter (invert_filter f) (invert_filter g) event w
  unfolding invert_filter or_filter and_filter
  invert_filter-or_filter f g event w df dg = elim (Result-cases (f event w).0) [
    | inl (a, e) ↦
        let p = df event w a e in
        elim (Result-cases (g event (f event w).1).0) [
          | inl (b, h) ↦ let q = dg event (f event w).1 b h in ground arith
          | inr (x, h) ↦ ground arith
        ]
    | inr (x, e) ↦ ground arith
  ]
