-- ===== src/Gateway/Cancelled.antt =====
-- What the gateway's calls leave of a cancellation that is pending for the task that runs.
use vaidcord.Base.{ℕ, ◌≡◌, ◌∙◌, inl, inr, Bool, true, false, Option, if◌then◌else◌, arith}
use vaidcord.Base.Action.{pure, ◌>>◌, >>=-ends}
use vaidcord.Base.Result.{Raised, err, Result-cases}
use vaidcord.Gateway.{reconnecting, slept, Frame, Config, Gateway, Services, Method, Kind, note}
use vaidcord.Gateway.Connection.{
  connect, choose_url, ask_gateway, prepare_inflator, open_ws, send_payload, identify, resume,
  handle_hello, restart_heartbeat, heartbeat_round, reconnect, cancel_heartbeat, close_ws,
  send_heartbeat,
}
use vaidcord.Gateway.Updates.{
  Dispatch, handle_dispatch, handle_kind, handle_known, special, propagate, handle_ready,
}

module _ {P Z L D : Type 0} (config : Config P) (services : Services P Z L D) where
  -- A connection that opened or failed has let a pending cancellation through.
  pub connect_clears :
      (r : Bool) (g : Gateway P Z) → (connect config services r g).1.must_cancel ≡ false
  unfolding connect choose_url ask_gateway prepare_inflator open_ws
  connect_clears r g = ground arith

  close_ws_keeps :
      (g : Gateway P Z) → g.must_cancel ≡ false → (close_ws config services g).1.must_cancel ≡ false
  unfolding close_ws
  close_ws_keeps g h = ground arith

  close_ws_failed :
      (g : Gateway P Z) (e : Raised)
      → (close_ws config services g).0 ≡ err e
      → (close_ws config services g).1.must_cancel ≡ false
  unfolding close_ws
  close_ws_failed g e h = ground arith

  pub reconnect_clears :
      (b r : Bool) (g : Gateway P Z) → (reconnect config services b r g).1.must_cancel ≡ false
  unfolding reconnect
  reconnect_clears b r g =
      let s = cancel_heartbeat config services b (record g { state = reconnecting }) in
      >>=-ends (close_ws config services) (λ _. connect config services r) s
        (λ x. x.must_cancel ≡ false) (close_ws_failed s)
        (λ a h. connect_clears r (close_ws config services s).1)

  send_payload_keeps :
      (f : Frame P) (g : Gateway P Z)
      → (send_payload config services f g).1.must_cancel ≡ g.must_cancel
  unfolding send_payload
  send_payload_keeps f g = ground arith

  pub handle_hello_keeps :
      (i : ℕ) (g : Gateway P Z) → (handle_hello config services i g).1.must_cancel ≡ g.must_cancel
  unfolding handle_hello resume identify send_payload restart_heartbeat
  handle_hello_keeps i g = ground arith

  pub send_heartbeat_keeps :
      (g : Gateway P Z) → (send_heartbeat config services g).1.must_cancel ≡ g.must_cancel
  unfolding send_heartbeat send_payload
  send_heartbeat_keeps g = ground arith

  either_keeps :
      {A : Type 0} (b : Bool) (m n : Method P Z A) (g : Gateway P Z)
      → (m g).1.must_cancel ≡ false
      → (n g).1.must_cancel ≡ false
      → ((if b then m else n) g).1.must_cancel ≡ false
  either_keeps true m n g h k = h
  either_keeps false m n g h k = k

  pub heartbeat_round_keeps :
      (g : Gateway P Z)
      → g.must_cancel ≡ false
      → (heartbeat_round config services g).1.must_cancel ≡ false
  unfolding heartbeat_round
  heartbeat_round_keeps g h =
      let s : Gateway P Z = note slept g in
      either_keeps g.heartbeat_ack_received (send_heartbeat config services >> pure true)
        (reconnect config services true true >> pure false) s
        (>>=-ends (send_heartbeat config services) (λ _. pure true) s (λ x. x.must_cancel ≡ false)
          (λ e k. send_heartbeat_keeps s ∙ h) (λ a k. send_heartbeat_keeps s ∙ h))
        (>>=-ends (reconnect config services true true) (λ _. pure false) s
          (λ x. x.must_cancel ≡ false) (λ e k. reconnect_clears true true s)
          (λ a k. reconnect_clears true true s))

  special_keeps :
      (k : Kind) (author : Option ℕ) (d : D) (g : Gateway P Z)
      → (special config services k author d g).1.must_cancel ≡ g.must_cancel
  unfolding special handle_ready
  special_keeps k author d g = ground arith

  handle_known_keeps :
      (k : Kind) (d : D) (g : Gateway P Z)
      → (handle_known config services k d g).1.must_cancel ≡ g.must_cancel
  unfolding handle_known propagate
  handle_known_keeps k d g = elim (Result-cases (services.message_author k d)) [
    | inr (e, h) ↦ ground arith
    | inl (author, h) ↦ let a = special_keeps k author d g in ground (arith, a)
  ]

  pub handle_dispatch_keeps :
      (u : Dispatch D) (g : Gateway P Z)
      → (handle_dispatch config services u g).1.must_cancel ≡ g.must_cancel
  unfolding handle_dispatch handle_kind
  handle_dispatch_keeps u g = grind (arith, handle_known_keeps)
