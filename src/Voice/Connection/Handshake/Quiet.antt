-- ===== src/Voice/Connection/Handshake/Quiet.antt =====
-- The messages that a handshake of a voice connection passes over.
use vaidcord.Base.{
  ℕ, ◌≡◌, refl, ap, ◌∙◌, Bool, true, false, Option, none, some, List, [], ◌∷◌, ◌++◌, arith,
  if◌then◌else◌, not, ◌&&◌, leb,
}
use vaidcord.Base.Result.{Result, ok}
use vaidcord.Voice.Connection.{
  VoiceGatewayConfig, Body, hello, heartbeat_ack, resumed, ready, described, speaking, video,
  client_disconnect, other_body, Payload, Message, text, binary, other_message, Ending, Socket,
  called, Connection, Services, note,
}
use vaidcord.Voice.Connection.Handshake.{drop_messages, receive_from}
use vaidcord.Voice.Connection.Payloads.{
  handle_body, handle_ws_payload, set_sequence, start_heartbeat, handle_speaking, handle_video,
  handle_disconnect, tell_all, map_ssrc, forget_user, flags_of, handle_other,
}
use vaidcord.Voice.Dave.Backend.{DaveCryptoBackend}

-- A body that neither ends the wait for READY and the session description nor raises, and is not
-- DAVE's; an opcode that the connection does not know is ignored.
abbrev pub is_quiet_body : Body → Bool
is_quiet_body (hello none) = false
is_quiet_body (ready r) = false
is_quiet_body (described given d) = false
is_quiet_body (other_body op given) = not (leb 21 op && leb op 31)
is_quiet_body body = true

abbrev pub is_quiet : List Message → Bool
is_quiet [] = true
is_quiet (text p ∷ ms) = if is_quiet_body p.body then is_quiet ms else false
is_quiet (m ∷ ms) = is_quiet ms

module _ {S : Type 0} where
  -- The handshake stands where it stood.
  abbrev pub Kept : Connection S → Connection S → Type 0
  Kept c c' =
      (c'.ready ≡ c.ready)
      × (c'.session_description ≡ c.session_description)
      × (c'.closing ≡ c.closing)
      × (c'.udp ≡ c.udp)

  abbrev pub OnSocket : Socket → Connection S → Type 0
  OnSocket s c = (ms : List Message) × (c.ws ≡ some (record s { messages = ms }))

  pub Kept-trans : (c c' c'' : Connection S) → Kept c c' → Kept c' c'' → Kept c c''
  Kept-trans c c' c'' (h, i, j, u) (h', i', j', u') = (h' ∙ h, i' ∙ i, j' ∙ j, u' ∙ u)

  pub set_sequence-Kept : (n : Option ℕ) (c : Connection S) → Kept c (set_sequence n c)
  set_sequence-Kept none c = (refl, refl, refl, refl)
  set_sequence-Kept (some n) c = (refl, refl, refl, refl)

  pub set_sequence_ws : (n : Option ℕ) (c : Connection S) → (set_sequence n c).ws ≡ c.ws
  set_sequence_ws none c = refl
  set_sequence_ws (some n) c = refl

  tell_all-Kept :
      (user ssrc flags : ℕ) (callbacks : List ℕ) (c : Connection S)
      → Kept c (tell_all user ssrc flags callbacks c)
        × ((tell_all user ssrc flags callbacks c).ws ≡ c.ws)
  tell_all-Kept user ssrc flags [] c = ((refl, refl, refl, refl), refl)
  tell_all-Kept user ssrc flags (k ∷ ks) c =
      tell_all-Kept user ssrc flags ks (note (called k user ssrc flags) c)

  map_ssrc-Kept :
      (ssrc user : ℕ) (c : Connection S)
      → Kept c (map_ssrc ssrc user c) × ((map_ssrc ssrc user c).ws ≡ c.ws)
  unfolding map_ssrc
  map_ssrc-Kept ssrc user c = ground arith

  module _ (services : Services) (b : DaveCryptoBackend S) where
    abbrev Quiet : Connection S → Result (Unit {0}) × Connection S → Type 0
    Quiet c (r, c') = (r ≡ ok tt) × Kept c c' × (c'.ws ≡ c.ws)

    handle_body-Quiet :
        (body : Body) (c : Connection S)
        → is_quiet_body body ≡ true
        → Quiet c (handle_body b services body c)
    unfolding handle_body handle_speaking handle_video handle_disconnect start_heartbeat forget_user
        handle_other
    handle_body-Quiet (hello none) c h = cc
    handle_body-Quiet (hello (some i)) c h = ground arith
    handle_body-Quiet heartbeat_ack c h = ground arith
    handle_body-Quiet resumed c h = ground arith
    handle_body-Quiet (ready r) c h = cc
    handle_body-Quiet (described given d) c h = cc
    handle_body-Quiet (speaking none u f) c h = ground arith
    handle_body-Quiet (speaking (some s) none f) c h = ground arith
    handle_body-Quiet (speaking (some s) (some u) f) c h =
        let (k, w) = map_ssrc-Kept s u c in
        let c' = map_ssrc s u c in
        let (k', w') = tell_all-Kept u s (flags_of f) c.speaking_callbacks c' in
        (refl, Kept-trans c c' (tell_all u s (flags_of f) c.speaking_callbacks c') k k', w' ∙ w)
    handle_body-Quiet (video none s) c h = ground arith
    handle_body-Quiet (video (some u) none) c h = ground arith
    handle_body-Quiet (video (some u) (some s)) c h = ground (arith, map_ssrc-Kept s u c)
    handle_body-Quiet (client_disconnect none) c h = ground arith
    handle_body-Quiet (client_disconnect (some u)) c h = ground arith
    handle_body-Quiet (other_body op given) c h = ground (arith, h)

    module _ (config : VoiceGatewayConfig) (done : Connection S → Bool) where
      -- Where a payload is handled quietly the loop goes on behind it.
      receive_from-text :
          (ending : Ending) (p : Payload) (ms : List Message) (s : Socket) (c : Connection S)
          → OnSocket s c
          → is_quiet_body p.body ≡ true
          → ((c' : Connection S) → Kept c c' → done c' ≡ false)
          → (c' : Connection S) × (receive_from config services b done ending (text p ∷ ms) c
              ≡ receive_from config services b done ending ms c')
            × Kept c c'
            × OnSocket s c'
      unfolding receive_from handle_ws_payload
      receive_from-text ending p ms s c (old, w) h d =
          let c1 = set_sequence p.seq (record c { ws = drop_messages ms c.ws }) in
          let c2 = (handle_body b services p.body c1).1 in
          let (r, k, w') = handle_body-Quiet p.body c1 h in
          let kept =
            Kept-trans c c1 c2 (set_sequence-Kept p.seq (record c { ws = drop_messages ms c.ws }))
              k in
          let on =
            w'
            ∙ set_sequence_ws p.seq (record c { ws = drop_messages ms c.ws })
            ∙ ap (drop_messages ms) w in
          (c2, simp (receive_from, handle_ws_payload, r, d c2 kept), kept, (ms, on))

      -- Quiet messages are passed over.
      pub receive_from_skips :
          (ending : Ending) (quiet ms : List Message) (s : Socket) (c : Connection S)
          → OnSocket s c
          → is_quiet quiet ≡ true
          → ((c' : Connection S) → Kept c c' → done c' ≡ false)
          → (c' : Connection S) × (receive_from config services b done ending (quiet ++ ms) c
              ≡ receive_from config services b done ending ms c')
            × Kept c c'
            × OnSocket s c'
      unfolding receive_from
      receive_from_skips ending [] ms s c on h d = (c, refl, (refl, refl, refl, refl), on)
      receive_from_skips ending (text p ∷ quiet) ms s c on h d =
          let body : is_quiet_body p.body ≡ true = ground (arith, h) in
          let rest : is_quiet quiet ≡ true = ground (arith, h) in
          let (c1, e, k, on1) = receive_from-text ending p (quiet ++ ms) s c on body d in
          let (c2, e', k', on2) =
            receive_from_skips ending quiet ms s c1 on1 rest
              (λ c'. λ k'. d c' (Kept-trans c c1 c' k k')) in
          (c2, e ∙ e', Kept-trans c c1 c2 k k', on2)
      receive_from_skips ending (binary bytes ∷ quiet) ms s c on h d =
          receive_from_skips ending quiet ms s c on h d
      receive_from_skips ending (other_message ∷ quiet) ms s c on h d =
          receive_from_skips ending quiet ms s c on h d
