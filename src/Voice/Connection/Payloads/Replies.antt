-- ===== src/Voice/Connection/Payloads/Replies.antt =====
-- Which replies of the DAVE controller leave the connection, and which wait or are lost.
use vaidcord.Base.{
  ◌≡◌, refl, sym, ap, some, List, [], ◌∷◌, ◌++◌, arith, Bool-cases, Option-cases, inl, inr, ◌⊎◌,
}
use mathlib.Core.Path.{subst}
use vaidcord.Base.Bytes.{Bytes}
use vaidcord.Base.Result.{Raised, Result, ok, err, type_error, runtime_error}
use vaidcord.Voice.Connection.{Connection, Services, send, is_open, sent, dave_frame, Effect, note}
use vaidcord.Voice.Connection.Payloads.{
  set_queue, send_outbound, flush_queue, flush_dave_outbound, handle_binary_payload,
}
use vaidcord.Voice.Dave.Backend.{DaveCryptoBackend}
use vaidcord.Voice.Dave.State.{DaveOutboundPayload}

-- The queue's replies as they are sent, the last one first, on top of what was done before.
abbrev pub with_replies : List DaveOutboundPayload → List Effect → List Effect
with_replies [] trace = trace
with_replies (p ∷ ps) trace = with_replies ps (sent (dave_frame p) ∷ trace)

-- Where flushing returns, everything was sent. Where it raises, the replies before the one at fault
-- were sent, that one is neither sent nor kept, and those behind it are still in the queue.
abbrev pub Flushed :
    {S : Type 0}
    → List DaveOutboundPayload
    → Connection S
    → Result (Unit {0}) × Connection S
    → Type 0
Flushed queue c (ok u, c') = (c'.dave.sent ≡ some []) × (c'.trace ≡ with_replies queue c.trace)
Flushed queue c (err e, c') =
    (done : List DaveOutboundPayload) × (p : DaveOutboundPayload) × (rest : List
      DaveOutboundPayload)
    × (queue ≡ done ++ p ∷ rest)
    × (c'.dave.sent ≡ some rest)
    × (c'.trace ≡ with_replies done c.trace)

module _ {S : Type 0} (services : Services) where
  send_outbound-cases :
      (p : DaveOutboundPayload) (c : Connection S)
      → (send_outbound services p c ≡ (ok tt, note (sent (dave_frame p)) c))
        ⊎ ((e : Raised) × (send_outbound services p c ≡ (err e, c)))
  unfolding send_outbound send
  send_outbound-cases p c = elim (Bool-cases p.binary) [
    | inl e ↦ elim (Bool-cases (is_open c.ws)) [
      | inl o ↦ inr (type_error, rw (send_outbound, e, o) refl)
      | inr o ↦ inr (runtime_error, rw (send_outbound, e, o) refl)
    ]
    | inr e ↦ elim (Bool-cases (is_open c.ws)) [
      | inr o ↦ inr (runtime_error, rw (send_outbound, e, send, o) refl)
      | inl o ↦ elim (Option-cases (services.send_json c.trace)) [
        | inl q ↦ inl (ground (arith, e, o, q))
        | inr (x, q) ↦ inr (x, rw (send_outbound, e, send, o, q) refl)
      ]
    ]
  ]

  Flushed-step :
      (p : DaveOutboundPayload) (ps : List DaveOutboundPayload) (c : Connection S)
      (end : Result (Unit {0}) × Connection S)
      → Flushed ps (note (sent (dave_frame p)) (set_queue ps c)) end
      → Flushed (p ∷ ps) c end
  Flushed-step p ps c (ok u, c') h = h
  Flushed-step p ps c (err e, c') (done, q, rest, h, k, t) =
      (p ∷ done, q, rest, ap (λ (r : List DaveOutboundPayload). p ∷ r) h, k, t)

  flush_queue-Flushed :
      (queue : List DaveOutboundPayload) (c : Connection S)
      → c.dave.sent ≡ some queue
      → Flushed queue c (flush_queue services queue c)
  unfolding flush_queue
  flush_queue-Flushed [] c h = (h, refl)
  flush_queue-Flushed (p ∷ ps) c h = elim (send_outbound-cases p (set_queue ps c)) [
    | inr (e, f) ↦
        let step : flush_queue services (p ∷ ps) c ≡ (err e, set_queue ps c) =
          simp (flush_queue, f) in
        rw step ([], p, ps, refl, refl, refl)
    | inl f ↦
        let c' = note (sent (dave_frame p)) (set_queue ps c) in
        let step : flush_queue services (p ∷ ps) c ≡ flush_queue services ps c' =
          simp (flush_queue, f) in
        rw step (Flushed-step p ps c (flush_queue services ps c') (flush_queue-Flushed ps c' refl))
  ]

  -- Flushing the DAVE controller's replies: it returns with all of them sent in order and the queue
  -- empty, or it raises at one of them, which is lost: those before it were sent, those behind it wait.
  pub flush_dave_outbound-Flushed :
      (queue : List DaveOutboundPayload) (c : Connection S)
      → c.dave.sent ≡ some queue
      → Flushed queue c (flush_dave_outbound services c)
  unfolding flush_dave_outbound
  flush_dave_outbound-Flushed queue c h =
      let step : flush_dave_outbound services c ≡ flush_queue services queue c =
        simp (flush_dave_outbound, h) in
      subst (λ end. Flushed queue c end) (sym step) (flush_queue-Flushed queue c h)

-- A binary frame of the gateway sends nothing: what DAVE replies to it waits for a later text payload.
pub handle_binary_payload_sends_nothing :
    {S : Type 0} (b : DaveCryptoBackend S) (bytes : Bytes) (c : Connection S)
    → (handle_binary_payload b bytes c).trace ≡ c.trace
unfolding handle_binary_payload
handle_binary_payload_sends_nothing b [] c = refl
handle_binary_payload_sends_nothing b (high ∷ []) c = refl
handle_binary_payload_sends_nothing b (high ∷ low ∷ []) c = refl
handle_binary_payload_sends_nothing b (high ∷ low ∷ op ∷ body) c = refl
