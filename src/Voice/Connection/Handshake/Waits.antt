-- ===== src/Voice/Connection/Handshake/Waits.antt =====
-- Waiting for READY and for the session description, behind messages that are passed over.
use vaidcord.Base.{
  ℕ, ◌≡◌, refl, ap, ◌∙◌, Bool, true, false, Option, none, some, List, ◌∷◌, ◌++◌, is_some,
}
use vaidcord.Base.Action.{>>=-at}
use vaidcord.Base.Result.{Result, ok}
use vaidcord.Voice.Connection.{
  VoiceGatewayConfig, VoiceReady, ready, described, Message, text, Socket, Connection, Services,
}
use vaidcord.Voice.Connection.Handshake.{
  drop_messages, is_ready, is_described, receive_from, receive_until,
}
use vaidcord.Voice.Connection.Handshake.Quiet.{
  is_quiet, OnSocket, set_sequence-Kept, set_sequence_ws, receive_from_skips,
}
use vaidcord.Voice.Connection.Payloads.{
  handle_body, handle_ws_payload, set_sequence, handle_ready, handle_description, keep_description,
  call_dave,
}
use vaidcord.Voice.Dave.Backend.{DaveCryptoBackend}
use vaidcord.Voice.Dave.Controller.{Controller, GatewayData, handle_session_description}
use vaidcord.Voice.Sender.{SessionDescription}

module _ {S : Type 0} (config : VoiceGatewayConfig) (services : Services)
    (b : DaveCryptoBackend S) where
  receive_until_reads :
      (done : Connection S → Bool) (s : Socket) (c : Connection S)
      → done c ≡ false
      → c.ws ≡ some s
      → receive_until config services b done c
        ≡ receive_from config services b done s.ending s.messages c
  unfolding receive_until
  receive_until_reads done s c d w = simp (receive_until, d, w)

  -- Waiting for READY behind the quiet messages.
  receive_ready :
      (n : Option ℕ) (r : VoiceReady) (rest : List Message) (s : Socket) (c : Connection S)
      → OnSocket s c
      → (c' : Connection S) × (receive_from config services b is_ready s.ending
            (text (record { seq = n; body = ready (some r) }) ∷ rest)
            c
          ≡ (ok tt, c'))
        × (c'.ready ≡ some r)
        × (c'.session_description ≡ c.session_description)
        × (c'.closing ≡ c.closing)
        × (c'.udp ≡ some (record { ip = r.ip; port = r.port; connected = false }))
        × (c'.ws ≡ some (record s { messages = rest }))
  unfolding receive_from handle_ws_payload handle_body handle_ready
  receive_ready n r rest s c (ms, w) =
      let c1 = record c { ws = drop_messages rest c.ws } in
      let (k, d, x, u) = set_sequence-Kept n c1 in
      (
        record (set_sequence n c1) {
          ready = some r;
          udp = some (record { ip = r.ip; port = r.port; connected = false });
        },
        refl,
        refl,
        d,
        x,
        refl,
        set_sequence_ws n c1 ∙ ap (drop_messages rest) w,
      )

  pub receive_until_ready :
      (n : Option ℕ) (r : VoiceReady) (quiet rest : List Message) (s : Socket) (c : Connection S)
      → c.ws ≡ some s
      → s.messages ≡ quiet ++ text (record { seq = n; body = ready (some r) }) ∷ rest
      → is_quiet quiet ≡ true
      → c.ready ≡ none
      → (c' : Connection S) × (receive_until config services b is_ready c ≡ (ok tt, c'))
        × (c'.ready ≡ some r)
        × (c'.session_description ≡ c.session_description)
        × (c'.closing ≡ c.closing)
        × (c'.udp ≡ some (record { ip = r.ip; port = r.port; connected = false }))
        × (c'.ws ≡ some (record s { messages = rest }))
  receive_until_ready n r quiet rest s c w m q none_yet =
      let p = text (record { seq = n; body = ready (some r) }) in
      let (c1, e, (k1, k2, k3, k4), on) =
        receive_from_skips services b config is_ready s.ending quiet (p ∷ rest) s c (s.messages, w)
          q (λ c'. λ k. ap is_some (k.0 ∙ none_yet)) in
      let (c2, e', r2, d2, x2, u2, w2) = receive_ready n r rest s c1 on in
      (
        c2,
        receive_until_reads is_ready s c (ap is_some none_yet) w
            ∙ ap (λ ms. receive_from config services b is_ready s.ending ms c) m
            ∙ e
            ∙ e',
        r2,
        d2 ∙ k2,
        x2 ∙ k3,
        u2,
        w2,
      )

  -- Waiting for the session description, with what DAVE makes of it.
  handle_description_ok :
      (given : GatewayData) (d : SessionDescription) (c : Connection S)
      → (handle_session_description b given c.dave).0 ≡ ok tt
      → handle_description b given (some d) c ≡ (
        ok tt,
        record c {
          dave = (handle_session_description b given c.dave).1;
          session_description = some d;
          voice_box = none;
        },
      )
  unfolding handle_description keep_description
  handle_description_ok given d c h =
      let c' = record c { dave = (handle_session_description b given c.dave).1 } in
      >>=-at (call_dave b (handle_session_description b given)) (λ u. keep_description (some d)) c
        tt c' (ap (λ (r : Result (Unit {0})). (r, c')) h)

  receive_described :
      (n : Option ℕ) (given : GatewayData) (d : SessionDescription) (rest : List Message)
      (s : Socket) (c : Connection S)
      → ((dave : Controller S) → (handle_session_description b given dave).0 ≡ ok tt)
      → OnSocket s c
      → (c' : Connection S) × (receive_from config services b is_described s.ending
            (text (record { seq = n; body = described given (some d) }) ∷ rest)
            c
          ≡ (ok tt, c'))
        × (c'.ready ≡ c.ready)
        × (c'.session_description ≡ some d)
        × (c'.closing ≡ c.closing)
        × (c'.udp ≡ c.udp)
        × (c'.voice_box ≡ none)
        × (c'.ws ≡ some (record s { messages = rest }))
  unfolding receive_from handle_ws_payload handle_body
  receive_described n given d rest s c dave_ok (ms, w) =
      let c1 = set_sequence n (record c { ws = drop_messages rest c.ws }) in
      let (k, x, y, u) = set_sequence-Kept n (record c { ws = drop_messages rest c.ws }) in
      (
        record c1 {
          dave = (handle_session_description b given c1.dave).1;
          session_description = some d;
          voice_box = none;
        },
        simp (
          receive_from,
          handle_ws_payload,
          handle_body,
          handle_description_ok given d c1 (dave_ok c1.dave),
        ),
        k,
        refl,
        y,
        u,
        refl,
        set_sequence_ws n (record c { ws = drop_messages rest c.ws }) ∙ ap (drop_messages rest) w,
      )

  pub receive_until-described :
      (n : Option ℕ) (given : GatewayData) (d : SessionDescription) (quiet rest : List Message)
      (s : Socket) (c : Connection S)
      → ((dave : Controller S) → (handle_session_description b given dave).0 ≡ ok tt)
      → c.ws ≡ some s
      → s.messages ≡ quiet ++ text (record { seq = n; body = described given (some d) }) ∷ rest
      → is_quiet quiet ≡ true
      → c.session_description ≡ none
      → (c' : Connection S) × (receive_until config services b is_described c ≡ (ok tt, c'))
        × (c'.ready ≡ c.ready)
        × (c'.session_description ≡ some d)
        × (c'.closing ≡ c.closing)
        × (c'.udp ≡ c.udp)
        × (c'.voice_box ≡ none)
        × (c'.ws ≡ some (record s { messages = rest }))
  receive_until-described n given d quiet rest s c dave_ok w m q none_yet =
      let p = text (record { seq = n; body = described given (some d) }) in
      let (c1, e, (k1, k2, k3, k4), on) =
        receive_from_skips services b config is_described s.ending quiet (p ∷ rest) s c
          (s.messages, w) q (λ c'. λ k. ap is_some (k.1 ∙ none_yet)) in
      let (c2, e', r2, d2, x2, u2, v2, w2) = receive_described n given d rest s c1 dave_ok on in
      (
        c2,
        receive_until_reads is_described s c (ap is_some none_yet) w
            ∙ ap (λ ms. receive_from config services b is_described s.ending ms c) m
            ∙ e
            ∙ e',
        r2 ∙ k1,
        d2,
        x2 ∙ k3,
        u2 ∙ k4,
        v2,
        w2,
      )
