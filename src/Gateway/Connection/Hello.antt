-- ===== src/Gateway/Connection/Hello.antt =====
-- What a fresh connection sends on HELLO, and what a missed acknowledgement does.
use Prim.Native.String.{String}
use vaidcord.Base.{
  ℕ, ◌≡◌, refl, ◌∙◌, inl, inr, Bool, true, false, ◌&&◌, Option, none, some, List, ◌∷◌,
  if◌then◌else◌, is_some, arith,
}
use vaidcord.Base.Action.{modify, ◌>>◌, >>=-ok}
use vaidcord.Base.Result.{ok, err, cancelled_error, Result-cases, is_ok}
use vaidcord.Gateway.{
  connecting, Config, Frame, identify_frame, resume_frame, Effect, sent, closed_socket,
  task_created, task_cancelled, slept, Gateway, Services, set_state,
}
use vaidcord.Gateway.Connection.{
  is_open, close_socket, shard, connect, choose_url, ask_gateway, prepare_inflator, open_ws,
  send_payload, identify, resume, handle_hello, restart_heartbeat, heartbeat_round, reconnect,
  cancel_heartbeat, close_ws,
}

module _ {P Z L D : Type 0} (config : Config P) (services : Services P Z L D) where
  -- RESUME where the connection resumes a known session, and IDENTIFY otherwise.
  abbrev pub session_frame : Option String → Option ℕ → Frame P
  session_frame none sequence =
      identify_frame config.token config.intents (shard config services) config.presence
  session_frame (some id) sequence = resume_frame config.token id sequence

  abbrev pub hello_frame : Bool → Gateway P Z → Frame P
  hello_frame resumes g = session_frame (if resumes then g.session_id else none) g.sequence

  -- The trace, with the heartbeat's task cancelled if there was one.
  abbrev pub cancelled_first : Bool → List (Effect P) → List (Effect P)
  cancelled_first true trace = task_cancelled ∷ trace
  cancelled_first false trace = trace

  record Chosen (resumes : Bool) (g g' : Gateway P Z) : Type 0 where
    sets_resume : g'.resume_on_hello ≡ resumes
    keeps_session : g'.session_id ≡ g.session_id
    keeps_sequence : g'.sequence ≡ g.sequence

  ask_gateway_lem :
      (g : Gateway P Z)
      → ((ask_gateway config services g).1.session_id ≡ g.session_id)
        × ((ask_gateway config services g).1.sequence ≡ g.sequence)
  unfolding ask_gateway
  ask_gateway_lem g = ground arith

  choose_url_lem :
      (resumes : Bool) (g : Gateway P Z)
      → is_ok (choose_url config services resumes g).0 ≡ true
      → Chosen (resumes && is_some g.resume_gateway_url) g (choose_url config services resumes g).1
  unfolding choose_url
  choose_url_lem resumes g h =
      let (a, b) = ask_gateway_lem g in
      record {
        sets_resume = ground arith;
        keeps_session = ground arith;
        keeps_sequence = ground arith;
      }

  -- What stays from one state to the next where the socket is new.
  record Opened (resumes : Bool) (g g' : Gateway P Z) : Type 0 where
    open_socket : is_open g'.ws ≡ true
    resumes_on_hello : g'.resume_on_hello ≡ resumes
    same_session : g'.session_id ≡ g.session_id
    same_sequence : g'.sequence ≡ g.sequence

  open_ws_lem :
      (url : String) (g : Gateway P Z)
      → (open_ws config services url g).0 ≡ ok tt
      → Opened g.resume_on_hello g (open_ws config services url g).1
  unfolding open_ws
  open_ws_lem url g h = record {
    open_socket = ground arith;
    resumes_on_hello = ground arith;
    same_session = ground arith;
    same_sequence = ground arith;
  }

  prepare_inflator_lem :
      (g : Gateway P Z)
      → ((prepare_inflator config services g).resume_on_hello ≡ g.resume_on_hello)
        × ((prepare_inflator config services g).session_id ≡ g.session_id)
        × ((prepare_inflator config services g).sequence ≡ g.sequence)
  unfolding prepare_inflator
  prepare_inflator_lem g = ground arith

  connect_lem :
      (resumes : Bool) (g : Gateway P Z)
      → (connect config services resumes g).0 ≡ ok tt
      → Opened (resumes && is_some g.resume_gateway_url) g (connect config services resumes g).1
  unfolding connect
  connect_lem resumes g h =
      let s = (set_state connecting g).1 in
      let chosen = choose_url config services resumes s in
      elim (Result-cases chosen.0) [
        | inr (e, c) ↦ ground arith
        | inl (url, c) ↦
            let picked = choose_url_lem resumes s (ground arith) in
            let (i, j, k) = prepare_inflator_lem chosen.1 in
            let opened =
              open_ws_lem url (prepare_inflator config services chosen.1) (ground arith) in
            let step : connect config services resumes g
                ≡ open_ws config services url (prepare_inflator config services chosen.1) =
              >>=-ok (choose_url config services resumes)
                (λ url. modify (prepare_inflator config services) >> open_ws config services url) s
                url c in
            rw step (record {
              open_socket = opened.open_socket;
              resumes_on_hello = opened.resumes_on_hello ∙ (i ∙ picked.sets_resume);
              same_session = opened.same_session ∙ (j ∙ picked.keeps_session);
              same_sequence = opened.same_sequence ∙ (k ∙ picked.keeps_sequence);
            })
      ]

  handle_hello_lem :
      (interval : ℕ) (g : Gateway P Z)
      → is_open g.ws ≡ true
      → services.send_json g.trace ≡ none
      → (handle_hello config services interval g).1.trace
        ≡ task_created
          ∷ cancelled_first g.heartbeat_task (sent (hello_frame g.resume_on_hello g) ∷ g.trace)
  unfolding handle_hello resume identify send_payload restart_heartbeat
  handle_hello_lem interval g h k = ground arith

  -- A connection that opened sends, on HELLO, RESUME with the session and the sequence that were known
  -- before it, where it was to resume and both the session and its address were known, and IDENTIFY in
  -- every other case; then it starts a heartbeat in place of one that runs.
  pub handle_hello-connect :
      (resumes : Bool) (g : Gateway P Z) (interval : ℕ)
      → (connect config services resumes g).0 ≡ ok tt
      → services.send_json (connect config services resumes g).1.trace ≡ none
      → (handle_hello config services interval (connect config services resumes g).1).1.trace
        ≡ task_created
          ∷ cancelled_first (connect config services resumes g).1.heartbeat_task (
              sent (hello_frame (resumes && is_some g.resume_gateway_url) g)
              ∷ (connect config services resumes g).1.trace)
  handle_hello-connect resumes g interval h k =
      let o = connect_lem resumes g h in
      let frame : hello_frame (connect config services resumes g).1.resume_on_hello
            (connect config services resumes g).1
          ≡ hello_frame (resumes && is_some g.resume_gateway_url) g =
        rw (o.resumes_on_hello, o.same_session, o.same_sequence) refl in
      handle_hello_lem interval (connect config services resumes g).1 o.open_socket k
      ∙ rw frame refl

  -- A heartbeat that is due before the last one was acknowledged: the reconnect that the task begins
  -- cancels the task itself, which therefore ends when the socket is closed, and no new connection is
  -- opened.
  pub heartbeat_round-missed_ack :
      (g : Gateway P Z)
      → g.heartbeat_ack_received ≡ false
      → g.heartbeat_task ≡ true
      → is_open g.ws ≡ true
      → ((heartbeat_round config services g).0 ≡ err cancelled_error)
        × ((heartbeat_round config services g).1.ws ≡ close_socket g.ws)
        × ((heartbeat_round config services g).1.trace
            ≡ closed_socket ∷ task_cancelled ∷ slept ∷ g.trace)
  unfolding heartbeat_round reconnect cancel_heartbeat close_ws
  heartbeat_round-missed_ack g h k o = ground arith
