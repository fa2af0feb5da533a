-- ===== src/Voice/Connection/Payloads/Speakers.antt =====
-- Who speaks under an SSRC, by the payloads that a voice connection was given.
use vaidcord.Base.{
  ℕ, ◌==◌, ◌≡◌, refl, ap, ◌∙◌, Option, none, some, List, [], ◌∷◌, if◌then◌else◌, arith,
  Option-cases, Bool-cases, ◌&&◌, leb, inl, inr,
}
use vaidcord.Base.Dict.{nat_key, lookup, insert, lookup-insert}
use vaidcord.Base.Items.{IsDict, insert-IsDict}
use vaidcord.Base.Action.{>>=-ends}
use vaidcord.Voice.Sender.{SessionDescription}
use vaidcord.Voice.Connection.{
  Body, hello, heartbeat_ack, resumed, ready, described, speaking, video, client_disconnect,
  other_body, Payload, Connection, Services, send,
}
use vaidcord.Voice.Connection.Payloads.{
  same_user, without_user, map_ssrc, forget_user, tell_all, handle_speaking, handle_video,
  handle_disconnect, start_heartbeat, handle_ready, send_outbound, flush_queue, flush_dave_outbound,
  keep_description, handle_description, handle_other, handle_body, handle_ws_payload, set_queue,
  set_sequence, call_dave, flags_of,
}
use vaidcord.Voice.Dave.Backend.{DaveCryptoBackend}
use vaidcord.Voice.Dave.Controller.{handle_gateway_payload, handle_session_description, GatewayData}
use vaidcord.Voice.Dave.State.{DaveOutboundPayload}

-- The user of an SSRC behind one more payload.
abbrev speaker : ℕ → Option ℕ → Body → Option ℕ
speaker ssrc old (speaking (some s) (some user) flags) = if s == ssrc then some user else old
speaker ssrc old (video (some user) (some s)) =
    if s == 0 then old else (if s == ssrc then some user else old)
speaker ssrc old (client_disconnect (some user)) = if same_user old user then none else old
speaker ssrc old body = old

lookup-without_user :
    (ssrc user : ℕ) (m : List (ℕ × ℕ))
    → IsDict m
    → lookup ssrc (without_user user m)
      ≡ (if same_user (lookup ssrc m) user then none else lookup ssrc m)
unfolding without_user IsDict
lookup-without_user ssrc user [] h = refl
lookup-without_user ssrc user ((j, w) ∷ m) (h, t) =
    ground (arith, h, lookup-without_user ssrc user m t)

without_user-IsDict : (user : ℕ) (m : List (ℕ × ℕ)) → IsDict m → IsDict (without_user user m)
unfolding without_user IsDict
without_user-IsDict user [] h = tt
without_user-IsDict user ((j, w) ∷ m) (h, t) =
    ground (arith, h, without_user-IsDict user m t, lookup-without_user j user m t)

module _ {S : Type 0} (services : Services) (b : DaveCryptoBackend S) where
  -- What a map is behind one more payload.
  abbrev Follows : ℕ → Body → List (ℕ × ℕ) → List (ℕ × ℕ) → Type 0
  Follows ssrc body m m' = IsDict m' × (lookup ssrc m' ≡ speaker ssrc (lookup ssrc m) body)

  tell_all_keeps :
      (user ssrc flags : ℕ) (callbacks : List ℕ) (c : Connection S)
      → (tell_all user ssrc flags callbacks c).ssrc_map ≡ c.ssrc_map
  tell_all_keeps user ssrc flags [] c = refl
  tell_all_keeps user ssrc flags (k ∷ ks) c = tell_all_keeps user ssrc flags ks _

  map_ssrc-eq :
      (ssrc user : ℕ) (c : Connection S)
      → (map_ssrc ssrc user c).ssrc_map ≡ insert ssrc user c.ssrc_map
  unfolding map_ssrc
  map_ssrc-eq ssrc user c = ground arith

  forget_user-eq :
      (user : ℕ) (c : Connection S) → (forget_user user c).ssrc_map ≡ without_user user c.ssrc_map
  unfolding forget_user
  forget_user-eq user c = ground arith

  flush_queue_keeps :
      (queue : List DaveOutboundPayload) (c : Connection S)
      → (flush_queue services queue c).1.ssrc_map ≡ c.ssrc_map
  unfolding flush_queue send_outbound send
  flush_queue_keeps [] c = refl
  flush_queue_keeps (p ∷ ps) c =
      ground (arith, flush_queue_keeps ps (send_outbound services p (set_queue ps c)).1)

  flush_dave_outbound_keeps :
      (c : Connection S) → (flush_dave_outbound services c).1.ssrc_map ≡ c.ssrc_map
  unfolding flush_dave_outbound
  flush_dave_outbound_keeps c = elim (Option-cases c.dave.sent) [
    | inl e ↦ rw (flush_dave_outbound, e) refl
    | inr (queue, e) ↦ rw (flush_dave_outbound, e) (flush_queue_keeps queue c)
  ]

  handle_other_keeps :
      (op : ℕ) (given : GatewayData) (c : Connection S)
      → (handle_other b services op given c).1.ssrc_map ≡ c.ssrc_map
  unfolding handle_other
  handle_other_keeps op given c = elim (Bool-cases (leb 21 op && leb op 31)) [
    | inr e ↦ rw (handle_other, e) refl
    | inl e ↦
        rw (handle_other, e)
          (>>=-ends (call_dave b (handle_gateway_payload b op given))
            (λ handled. flush_dave_outbound services) c (λ c'. c'.ssrc_map ≡ c.ssrc_map)
            (λ x h. refl)
            (λ handled h.
              flush_dave_outbound_keeps (call_dave b (handle_gateway_payload b op given) c).1))
  ]

  keep_description_keeps :
      (d : Option SessionDescription) (c : Connection S)
      → (keep_description d c).1.ssrc_map ≡ c.ssrc_map
  unfolding keep_description
  keep_description_keeps none c = refl
  keep_description_keeps (some d) c = refl

  handle_description_keeps :
      (given : GatewayData) (d : Option SessionDescription) (c : Connection S)
      → (handle_description b given d c).1.ssrc_map ≡ c.ssrc_map
  unfolding handle_description
  handle_description_keeps given d c =
      >>=-ends (call_dave b (handle_session_description b given)) (λ u. keep_description d) c
        (λ c'. c'.ssrc_map ≡ c.ssrc_map) (λ x h. refl)
        (λ u h. keep_description_keeps d (call_dave b (handle_session_description b given) c).1)

  handle_body-Follows :
      (ssrc : ℕ) (body : Body) (c : Connection S)
      → IsDict c.ssrc_map
      → Follows ssrc body c.ssrc_map (handle_body b services body c).1.ssrc_map
  unfolding handle_body handle_speaking handle_video handle_disconnect start_heartbeat handle_ready
  handle_body-Follows ssrc (hello none) c h = (h, refl)
  handle_body-Follows ssrc (hello (some i)) c h = ground (arith, h)
  handle_body-Follows ssrc heartbeat_ack c h = ground (arith, h)
  handle_body-Follows ssrc resumed c h = (h, refl)
  handle_body-Follows ssrc (ready none) c h = (h, refl)
  handle_body-Follows ssrc (ready (some r)) c h = (h, refl)
  handle_body-Follows ssrc (described given d) c h =
      rw (handle_description_keeps given d c) (h, refl)
  handle_body-Follows ssrc (speaking none u f) c h = (h, refl)
  handle_body-Follows ssrc (speaking (some s) none f) c h = (h, refl)
  handle_body-Follows ssrc (speaking (some s) (some u) f) c h =
      rw (tell_all_keeps u s (flags_of f) c.speaking_callbacks (map_ssrc s u c), map_ssrc-eq s u c)
        (insert-IsDict s u c.ssrc_map h, lookup-insert s ssrc u c.ssrc_map)
  handle_body-Follows ssrc (video none s) c h = (h, refl)
  handle_body-Follows ssrc (video (some u) none) c h = (h, refl)
  handle_body-Follows ssrc (video (some u) (some s)) c h = elim (Bool-cases (s == 0)) [
    | inl e ↦ rw (handle_body, handle_video, e) (h, refl)
    | inr e ↦
        rw (handle_body, handle_video, e, map_ssrc-eq s u c)
          (insert-IsDict s u c.ssrc_map h, lookup-insert s ssrc u c.ssrc_map)
  ]
  handle_body-Follows ssrc (client_disconnect none) c h = (h, refl)
  handle_body-Follows ssrc (client_disconnect (some u)) c h =
      rw (forget_user-eq u c)
        (without_user-IsDict u c.ssrc_map h, lookup-without_user ssrc u c.ssrc_map h)
  handle_body-Follows ssrc (other_body op given) c h = rw (handle_other_keeps op given c) (h, refl)

  set_sequence_keeps : (n : Option ℕ) (c : Connection S) → (set_sequence n c).ssrc_map ≡ c.ssrc_map
  set_sequence_keeps none c = refl
  set_sequence_keeps (some n) c = refl

  -- Payloads handled one after another, whether or not they raise.
  abbrev pub handle_all : List Payload → Connection S → Connection S
  handle_all [] c = c
  handle_all (p ∷ ps) c = handle_all ps (handle_ws_payload b services p c).1

  abbrev pub speaker_after : ℕ → Option ℕ → List Payload → Option ℕ
  speaker_after ssrc old [] = old
  speaker_after ssrc old (p ∷ ps) = speaker_after ssrc (speaker ssrc old p.body) ps

  -- Behind any payloads, the user of an SSRC is the one that the last speaking or video payload of that
  -- SSRC names, and none where that user has left since; no SSRC stands twice in the map.
  pub lookup-handle_all :
      (ssrc : ℕ) (ps : List Payload) (c : Connection S)
      → IsDict c.ssrc_map
      → IsDict (handle_all ps c).ssrc_map
        × (lookup ssrc (handle_all ps c).ssrc_map ≡ speaker_after ssrc (lookup ssrc c.ssrc_map) ps)
  unfolding handle_ws_payload
  lookup-handle_all ssrc [] c h = (h, refl)
  lookup-handle_all ssrc (p ∷ ps) c h =
      let c' = set_sequence p.seq c in
      let (dict, e) = handle_body-Follows ssrc p.body c' (rw (set_sequence_keeps p.seq c) h) in
      let (dict', e') = lookup-handle_all ssrc ps (handle_ws_payload b services p c).1 dict in
      (
        dict',
        e'
            ∙ ap (λ (o : Option ℕ). speaker_after ssrc o ps)
                (e
                  ∙ ap (λ (m : List (ℕ × ℕ)). speaker ssrc (lookup ssrc m) p.body)
                      (set_sequence_keeps p.seq c)),
      )
