-- ===== src/Gateway/Updates/Pending.antt =====
-- What reaches the handlers before READY, where pending updates are dropped.
use vaidcord.Base.{◌≡◌, Bool, true, false, not, ◌&&◌, none, some, List, [], ◌∷◌, arith}
use vaidcord.Gateway.{Config, Kind, Effect, propagated, Gateway, Services}
use vaidcord.Gateway.Updates.{Dispatch, is_ready_kind, handle_dispatch, handle_kind, handle_known}

-- The kinds that were propagated, the last one first.
abbrev pub propagations : {P : Type 0} → List (Effect P) → List Kind
propagations [] = []
propagations (propagated kind ∷ trace) = kind ∷ propagations trace
propagations (_ ∷ trace) = propagations trace

abbrev pub is_ready_update : {D : Type 0} → Dispatch D → Bool
is_ready_update u = elim u.kind [
  | none ↦ false
  | some kind ↦ elim kind [ none ↦ false | some k ↦ is_ready_kind k ]
]

abbrev pub none_ready : {D : Type 0} → List (Dispatch D) → Bool
none_ready [] = true
none_ready (u ∷ us) = not (is_ready_update u) && none_ready us

-- The bot waits for READY, and nothing was propagated since.
pub record Waits {P Z : Type 0} (g g' : Gateway P Z) : Type 0 where
  pub drops : g'.drop_pending_updates ≡ true
  pub not_ready : g'.is_ready ≡ false
  pub no_propagation : propagations g'.trace ≡ propagations g.trace

module _ {P Z L D : Type 0} (config : Config P) (services : Services P Z L D) where
  pub handle_dispatch-Waits :
      (u : Dispatch D) (g : Gateway P Z)
      → is_ready_update u ≡ false
      → g.drop_pending_updates ≡ true
      → g.is_ready ≡ false
      → Waits g (handle_dispatch config services u g).1
  unfolding handle_dispatch handle_kind handle_known
  handle_dispatch-Waits u g n d r = record {
    drops = ground arith;
    not_ready = ground arith;
    no_propagation = ground arith;
  }
