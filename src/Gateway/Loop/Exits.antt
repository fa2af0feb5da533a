-- ===== src/Gateway/Loop/Exits.antt =====
-- What ends the loop.
use vaidcord.Base.{
  ◌≡◌, ap, sym, ◌∙◌, inl, inr, Bool, true, false, List, [], ◌∷◌, ◌++◌, is_some, arith,
}
use vaidcord.Base.Action.{>>=-ok, >>=-err, ◌>>◌, ◌>>=◌, pure}
use vaidcord.Base.Result.{Result, ok, Result-cases}
use vaidcord.Gateway.{
  Config, Gateway, Services, Method, closed_socket, task_cancelled, slept, note, suspend,
  connecting,
}
use vaidcord.Gateway.Connection.{is_open, connect, reconnect}
use vaidcord.Gateway.Connection.Hello.{heartbeat_round-missed_ack}
use vaidcord.Gateway.Loop.{
  Payload, dispatch, heartbeat_request, heartbeat_ack, other_payload, hello, reconnect_request,
  invalid_session, text, Step, arrives, heartbeat_due, handle_message, handle_gateway_payload,
  run_heartbeat, run_loop, run, start,
}

abbrev pub is_restart : {D : Type 0} → Payload D → Bool
is_restart reconnect_request = true
is_restart (invalid_session _) = true
is_restart _ = false

module _ {P Z D : Type 0} (config : Config P) (services : Services P Z (Payload D) D) where
  then_true :
      {A : Type 0} (m : Method P Z A) (g : Gateway P Z)
      → ((m >>= λ _. pure true) g).0 ≡ ok false
      → ⊥
  then_true m g e = elim (Result-cases (m g).0) [
    | inl (a, h) ↦ let s = >>=-ok m (λ _. pure true) g a h in cc
    | inr (x, h) ↦ let s = >>=-err m (λ _. pure true) g x h in cc
  ]

  after_first :
      (m : Method P Z Bool) (n : Method P Z (Unit {0})) (g : Gateway P Z)
      → ((n >> m) g).0 ≡ ok false
      → ((s : Gateway P Z) → (m s).0 ≡ ok false → ⊥)
      → ⊥
  after_first m n g e f = elim (Result-cases (n g).0) [
    | inl (a, h) ↦
        f (n g).1 (sym (ap (λ (q : Result Bool × Gateway P Z). q.0) (>>=-ok n (λ _. m) g a h)) ∙ e)
    | inr (x, h) ↦ let s = >>=-err n (λ _. m) g x h in cc
  ]

  restart_exits :
      (p : Payload D) (g : Gateway P Z)
      → is_restart p ≡ true
      → ((handle_gateway_payload config services p g).0 ≡ ok false)
      → ⊥
  unfolding handle_gateway_payload
  restart_exits reconnect_request g h e = then_true (reconnect config services false true) g e
  restart_exits (invalid_session r) g h e =
      after_first (suspend >> (reconnect config services false r >> pure true))
        (λ g. (ok tt, note slept g)) g e
        (λ s k.
          after_first (reconnect config services false r >> pure true) suspend s k
            (λ t l. then_true (reconnect config services false r) t l))
  restart_exits (dispatch u) g h e = cc
  restart_exits heartbeat_request g h e = cc
  restart_exits heartbeat_ack g h e = cc
  restart_exits other_payload g h e = cc
  restart_exits (hello i) g h e = cc

  handle_message-restart :
      (p : Payload D) (steps : List (Step D)) (g : Gateway P Z)
      → is_restart p ≡ true
      → run_loop config services (arrives (text (ok p)) ∷ steps) g
        ≡ run_loop config services (arrives (text (ok p)) ∷ []) g
  unfolding run_loop handle_message handle_gateway_payload
  handle_message-restart p steps g h = let e = restart_exits p g h in ground arith

  abbrev restart : Payload D → List (Step D) → List (Step D)
  restart p steps = arrives (text (ok p)) ∷ steps

  run_loop-restart :
      (before : List (Step D)) (p : Payload D) (after : List (Step D)) (g : Gateway P Z)
      → is_restart p ≡ true
      → run_loop config services (before ++ restart p after) g
        ≡ run_loop config services (before ++ restart p []) g
  unfolding run_loop
  run_loop-restart [] p after g h = handle_message-restart p after g h
  run_loop-restart (heartbeat_due ∷ before) p after g h =
      let ih = run_loop-restart before p after (run_heartbeat config services g) h in ground arith
  run_loop-restart (arrives m ∷ before) p after g h =
      let ih = run_loop-restart before p after (handle_message config services m g).1 h in
      ground arith

  run-restart :
      (before : List (Step D)) (p : Payload D) (after : List (Step D)) (g : Gateway P Z)
      → is_restart p ≡ true
      → run config services (before ++ restart p after) g
        ≡ run config services (before ++ restart p []) g
  unfolding run
  run-restart before p after g h = let e = run_loop-restart before p after g h in ground arith

  -- After a payload that asks for a reconnect, opcode 7, or that invalidates the session, opcode 9,
  -- `start` handles nothing more, whatever came before: messages and heartbeats that follow do not change
  -- what it does.
  pub start-restart :
      (before : List (Step D)) (p : Payload D) (after : List (Step D)) (g : Gateway P Z)
      → is_restart p ≡ true
      → start config services (before ++ arrives (text (ok p)) ∷ after) g
        ≡ start config services (before ++ arrives (text (ok p)) ∷ []) g
  unfolding start
  start-restart before p after g h =
      let s : Gateway P Z = record g { running = true; state = connecting } in
      let e = run-restart before p after (connect config services false s).1 h in ground arith

  -- Where a heartbeat is due before the last one was acknowledged, the loop ends without an error, with
  -- the socket closed and no attempt to connect again.
  pub run-missed_ack :
      (steps : List (Step D)) (g : Gateway P Z)
      → g.running ≡ true
      → is_some g.heartbeat_interval ≡ true
      → g.heartbeat_alive ≡ true
      → g.heartbeat_task ≡ true
      → g.heartbeat_ack_received ≡ false
      → is_open g.ws ≡ true
      → ((run config services (heartbeat_due ∷ steps) g).0 ≡ ok tt)
        × (is_open (run config services (heartbeat_due ∷ steps) g).1.ws ≡ false)
        × ((run config services (heartbeat_due ∷ steps) g).1.trace
            ≡ closed_socket ∷ task_cancelled ∷ slept ∷ g.trace)
  unfolding run run_loop run_heartbeat
  run-missed_ack steps g r i v t a o =
      let (x, y, z) = heartbeat_round-missed_ack config services g a t o in ground arith
