-- ===== src/Gateway/Loop/Dropped.antt =====
-- A loop that only brings updates before READY.
use vaidcord.Base.{◌≡◌, refl, ◌∙◌, inl, inr, true, false, List, [], ◌∷◌, arith}
use vaidcord.Base.Result.{ok, err, Result-cases}
use vaidcord.Gateway.{Config, Gateway, Services}
use vaidcord.Gateway.Loop.{
  Payload, dispatch, text, Step, arrives, handle_message, handle_gateway_payload, run_loop,
}
use vaidcord.Gateway.Updates.{Dispatch, handle_dispatch}
use vaidcord.Gateway.Updates.Pending.{Waits, none_ready, handle_dispatch-Waits}

abbrev pub steps_of : {D : Type 0} → List (Dispatch D) → List (Step D)
steps_of [] = []
steps_of (u ∷ us) = arrives (text (ok (dispatch u))) ∷ steps_of us

module _ {P Z D : Type 0} (config : Config P) (services : Services P Z (Payload D) D) where
  Waits-trans : (g g' g'' : Gateway P Z) → Waits g g' → Waits g' g'' → Waits g g''
  Waits-trans g g' g'' v w = record {
    drops = w.drops;
    not_ready = w.not_ready;
    no_propagation = w.no_propagation ∙ v.no_propagation;
  }

  run_loop-steps_of :
      (u : Dispatch D) (steps : List (Step D)) (g : Gateway P Z)
      → run_loop config services (arrives (text (ok (dispatch u))) ∷ steps) g
        ≡ elim (handle_dispatch config services u g).0 [
          | ok _ ↦ run_loop config services steps (handle_dispatch config services u g).1
          | err e ↦ (err e, (handle_dispatch config services u g).1)
        ]
  unfolding run_loop handle_message handle_gateway_payload
  run_loop-steps_of u steps g = ground arith

  -- Where pending updates are dropped and the bot is not ready, a loop over any updates but READY hands
  -- none of them to the handlers, and still drops at its end, also where it fails on the way.
  pub run_loop_drops :
      (us : List (Dispatch D)) (g : Gateway P Z)
      → none_ready us ≡ true
      → g.drop_pending_updates ≡ true
      → g.is_ready ≡ false
      → Waits g (run_loop config services (steps_of us) g).1
  unfolding run_loop
  run_loop_drops [] g n d r = record { drops = d; not_ready = r; no_propagation = refl }
  run_loop_drops (u ∷ us) g n d r =
      let s = (handle_dispatch config services u g).1 in
      let w = handle_dispatch-Waits config services u g (ground arith) d r in
      let rest = run_loop_drops us s (ground arith) w.drops w.not_ready in
      rw (run_loop-steps_of u (steps_of us) g)
        (elim (Result-cases (handle_dispatch config services u g).0) [
          | inl (a, e) ↦ rw e (Waits-trans g s (run_loop config services (steps_of us) s).1 w rest)
          | inr (x, e) ↦ rw e w
        ])
