-- ===== src/Voice/Dave/Controller/Safety.antt =====
-- What the controller raises, which opcodes it takes, and that it fails closed without a backend.
use mathlib.Core.Path.{subst}
use vaidcord.Base.{
  ap, ◌∙◌, ℕ, ◌≡◌, ◌≢◌, refl, true, false, some, List, [], ◌∷◌, ◌==◌, ==_iff, arith, ◌⊎◌, ◌↔◌, inl,
  inr, Bool-cases, Option-cases,
}
use vaidcord.Base.Result.{
  Raised, Result, ok, err, Result-cases, dave_unsupported_error, dave_payload_error,
  dave_backend_error,
}
use vaidcord.Voice.Dave.Backend.{DaveCryptoBackend}
use vaidcord.Voice.Dave.State.{
  DaveOpcode, opcode_value, opcodes, Payload, empty_payload, requires_backend,
}
use vaidcord.Voice.Dave.Controller.{
  GatewayData, absent, mapping, not_mapping, Controller, coerce_opcode, find_opcode, handle_opcode,
  handle_gateway_payload, finish, handle_dave_opcode, prepare_transition, execute_transition,
  prepare_epoch, require_backend, optional_int, handle_session_description, send_transition_ready,
  send, send_message,
}

find_opcode-some :
    (op : ℕ) (os : List DaveOpcode) {o : DaveOpcode}
    → find_opcode op os ≡ some o
    → op ≡ opcode_value o
unfolding find_opcode
find_opcode-some op [] h = absurd (cc h)
find_opcode-some op (x ∷ os) h = elim (Bool-cases (opcode_value x == op)) [
  | inl e ↦ let q : opcode_value x ≡ op = (==_iff (opcode_value x) op).0 e in ground arith
  | inr e ↦ find_opcode-some op os ground arith
]

coerce_opcode-opcode_value : (o : DaveOpcode) → coerce_opcode (opcode_value o) ≡ some o
unfolding coerce_opcode find_opcode
coerce_opcode-opcode_value o = ground arith

-- An opcode is taken exactly if it is the number of one of the DAVE opcodes, and as that opcode.
pub coerce_opcode_iff :
    (op : ℕ) (o : DaveOpcode) → (coerce_opcode op ≡ some o) ↔ (op ≡ opcode_value o)
unfolding coerce_opcode
coerce_opcode_iff op o = (find_opcode-some op opcodes, λ h. rw h (coerce_opcode-opcode_value o))

-- A message of the voice gateway that the controller is given.
pub data DaveEvent : Type 0 where
  session_description : GatewayData → DaveEvent
  gateway_payload : ℕ → GatewayData → DaveEvent

module _ {S : Type 0} (b : DaveCryptoBackend S) where
  finish-state : (r : Result (Unit {0}) × Controller S) → (finish b r).1 ≡ r.1
  finish-state (ok x, c) = refl
  finish-state (err e, c) = refl

  abbrev noted : DaveOpcode → Controller S → Controller S
  noted o c = record c { state = record c.state { seen = true; last_opcode = some o } }

  execute_transition-disabled :
      (p : Payload) (c : Controller S)
      → c.fail_fast ≡ true
      → b.max_protocol_version ≡ 0
      → c.state.enabled ≡ false
      → (execute_transition b p c).1.state.enabled ≡ false
  unfolding execute_transition require_backend
  execute_transition-disabled p c f z d = ground arith

  handle_dave_opcode-disabled :
      (o : DaveOpcode) (p : Payload) (c : Controller S)
      → c.fail_fast ≡ true
      → b.max_protocol_version ≡ 0
      → c.state.enabled ≡ false
      → (handle_dave_opcode b o p c).1.state.enabled ≡ false
  unfolding handle_dave_opcode prepare_transition prepare_epoch require_backend
      send_transition_ready send send_message
  handle_dave_opcode-disabled DaveOpcode.prepare_transition p c f z d = ground arith
  handle_dave_opcode-disabled DaveOpcode.execute_transition p c f z d =
      execute_transition-disabled p c f z d
  handle_dave_opcode-disabled DaveOpcode.transition_ready p c f z d = d
  handle_dave_opcode-disabled DaveOpcode.prepare_epoch p c f z d = ground arith
  handle_dave_opcode-disabled DaveOpcode.mls_external_sender p c f z d = ground arith
  handle_dave_opcode-disabled DaveOpcode.mls_key_package p c f z d = d
  handle_dave_opcode-disabled DaveOpcode.mls_proposals p c f z d = ground arith
  handle_dave_opcode-disabled DaveOpcode.mls_commit_welcome p c f z d = ground arith
  handle_dave_opcode-disabled DaveOpcode.mls_announce_commit_transition p c f z d = d
  handle_dave_opcode-disabled DaveOpcode.mls_welcome p c f z d = ground arith
  handle_dave_opcode-disabled DaveOpcode.mls_invalid_commit_welcome p c f z d = ground arith

  handle_opcode-disabled :
      (o : DaveOpcode) (d : GatewayData) (c : Controller S)
      → c.fail_fast ≡ true
      → b.max_protocol_version ≡ 0
      → c.state.enabled ≡ false
      → (handle_opcode b o d c).1.state.enabled ≡ false
  unfolding handle_opcode
  handle_opcode-disabled o absent c f z e =
      rw (finish-state (handle_dave_opcode b o empty_payload (noted o c)))
        (handle_dave_opcode-disabled o empty_payload (noted o c) f z e)
  handle_opcode-disabled o (mapping p) c f z e =
      rw (finish-state (handle_dave_opcode b o p (noted o c)))
        (handle_dave_opcode-disabled o p (noted o c) f z e)
  handle_opcode-disabled o not_mapping c f z e = e

  handle_gateway_payload-disabled :
      (op : ℕ) (d : GatewayData) (c : Controller S)
      → c.fail_fast ≡ true
      → b.max_protocol_version ≡ 0
      → c.state.enabled ≡ false
      → (handle_gateway_payload b op d c).1.state.enabled ≡ false
  unfolding handle_gateway_payload
  handle_gateway_payload-disabled op d c f z e = elim (Option-cases (coerce_opcode op)) [
    | inl q ↦ ground arith
    | inr (o, q) ↦ let h = handle_opcode-disabled o d c f z e in ground arith
  ]

  finish-raises :
      (r : Result (Unit {0}) × Controller S) (e : Raised)
      → (finish b r).0 ≡ err e
      → (e ≡ dave_unsupported_error) ⊎ (e ≡ dave_backend_error)
  finish-raises (ok x, c) e h = absurd (cc h)
  finish-raises (err x, c) e h = ground arith

  handle_opcode-raises :
      (o : DaveOpcode) (d : GatewayData) (c : Controller S) (e : Raised)
      → (handle_opcode b o d c).0 ≡ err e
      → ((e ≡ dave_unsupported_error) ⊎ (e ≡ dave_backend_error))
        ⊎ ((d ≡ not_mapping) × (e ≡ dave_payload_error) × ((handle_opcode b o d c).1 ≡ c))
  unfolding handle_opcode
  handle_opcode-raises o absent c e h =
      inl (finish-raises (handle_dave_opcode b o empty_payload (noted o c)) e h)
  handle_opcode-raises o (mapping p) c e h =
      inl (finish-raises (handle_dave_opcode b o p (noted o c)) e h)
  handle_opcode-raises o not_mapping c e h = inr (refl, ground arith, refl)

  -- Whatever the backend raises, a message of the gateway raises the error of an unsupported DAVE or
  -- the error of a failed backend, except that data which is no mapping raises the payload error, and
  -- then the controller is unchanged.
  pub handle_gateway_payload_raises :
      (op : ℕ) (d : GatewayData) (c : Controller S) (e : Raised)
      → (handle_gateway_payload b op d c).0 ≡ err e
      → ((e ≡ dave_unsupported_error) ⊎ (e ≡ dave_backend_error))
        ⊎ ((d ≡ not_mapping) × (e ≡ dave_payload_error) × ((handle_gateway_payload b op d c).1 ≡ c))
  unfolding handle_gateway_payload
  handle_gateway_payload_raises op d c e h = elim (Option-cases (coerce_opcode op)) [
    | inl q ↦ absurd (ground arith)
    | inr (o, q) ↦
        let same : handle_gateway_payload b op d c ≡ handle_opcode b o d c = ground arith in
        let k : (handle_opcode b o d c).0 ≡ err e = cc (h, same) in
        rw same (handle_opcode-raises o d c e k)
  ]

  -- The state that `handle_dave_opcode` leaves to `handle_gateway_payload`.
  handle_dave_opcode-keeps :
      (o : DaveOpcode) (p : Payload) (c : Controller S)
      → ((handle_dave_opcode b o p c).1.state.seen ≡ c.state.seen)
        × ((handle_dave_opcode b o p c).1.state.last_opcode ≡ c.state.last_opcode)
        × ((handle_dave_opcode b o p c).1.state.negotiated ≡ c.state.negotiated)
        × ((handle_dave_opcode b o p c).1.fail_fast ≡ c.fail_fast)
  unfolding handle_dave_opcode prepare_transition execute_transition prepare_epoch require_backend
      send_transition_ready send send_message
  handle_dave_opcode-keeps DaveOpcode.prepare_transition p c = ground arith
  handle_dave_opcode-keeps DaveOpcode.execute_transition p c = ground arith
  handle_dave_opcode-keeps DaveOpcode.transition_ready p c = ground arith
  handle_dave_opcode-keeps DaveOpcode.prepare_epoch p c = ground arith
  handle_dave_opcode-keeps DaveOpcode.mls_external_sender p c = ground arith
  handle_dave_opcode-keeps DaveOpcode.mls_key_package p c = ground arith
  handle_dave_opcode-keeps DaveOpcode.mls_proposals p c = ground arith
  handle_dave_opcode-keeps DaveOpcode.mls_commit_welcome p c = ground arith
  handle_dave_opcode-keeps DaveOpcode.mls_announce_commit_transition p c = ground arith
  handle_dave_opcode-keeps DaveOpcode.mls_welcome p c = ground arith
  handle_dave_opcode-keeps DaveOpcode.mls_invalid_commit_welcome p c = ground arith

  handle_gateway_payload-opcode_value :
      (o : DaveOpcode) (d : GatewayData) (c : Controller S)
      → handle_gateway_payload b (opcode_value o) d c ≡ handle_opcode b o d c
  unfolding handle_gateway_payload
  handle_gateway_payload-opcode_value o d c = let e = coerce_opcode-opcode_value o in ground arith

  -- A message under a DAVE opcode with data that is absent or a mapping is recorded as seen and as the
  -- last opcode, and leaves `negotiated` alone, also where its handling raises.
  pub handle_opcode_records :
      (o : DaveOpcode) (d : GatewayData) (c : Controller S)
      → d ≢ not_mapping
      → ((handle_gateway_payload b (opcode_value o) d c).1.state.seen ≡ true)
        × ((handle_gateway_payload b (opcode_value o) d c).1.state.last_opcode ≡ some o)
        × ((handle_gateway_payload b (opcode_value o) d c).1.state.negotiated ≡ c.state.negotiated)
  unfolding handle_opcode
  handle_opcode_records o absent c n =
      let e = handle_gateway_payload-opcode_value o absent c in
      let (seen, last, negotiated, _) = handle_dave_opcode-keeps o empty_payload (noted o c) in
      let f = finish-state (handle_dave_opcode b o empty_payload (noted o c)) in
      rw (e, f) (seen, last, negotiated)
  handle_opcode_records o (mapping p) c n =
      let e = handle_gateway_payload-opcode_value o (mapping p) c in
      let (seen, last, negotiated, _) = handle_dave_opcode-keeps o p (noted o c) in
      let f = finish-state (handle_dave_opcode b o p (noted o c)) in
      rw (e, f) (seen, last, negotiated)
  handle_opcode_records o not_mapping c n = absurd (n refl)

  handle_opcode-fail_fast :
      (o : DaveOpcode) (d : GatewayData) (c : Controller S)
      → (handle_opcode b o d c).1.fail_fast ≡ c.fail_fast
  unfolding handle_opcode
  handle_opcode-fail_fast o absent c =
      rw (finish-state (handle_dave_opcode b o empty_payload (noted o c)))
        (handle_dave_opcode-keeps o empty_payload (noted o c)).3
  handle_opcode-fail_fast o (mapping p) c =
      rw (finish-state (handle_dave_opcode b o p (noted o c)))
        (handle_dave_opcode-keeps o p (noted o c)).3
  handle_opcode-fail_fast o not_mapping c = refl

  handle_gateway_payload-fail_fast :
      (op : ℕ) (d : GatewayData) (c : Controller S)
      → (handle_gateway_payload b op d c).1.fail_fast ≡ c.fail_fast
  unfolding handle_gateway_payload
  handle_gateway_payload-fail_fast op d c = elim (Option-cases (coerce_opcode op)) [
    | inl q ↦ ground arith
    | inr (o, q) ↦ let h = handle_opcode-fail_fast o d c in ground arith
  ]

  -- What a session description leaves of a controller that was disabled.
  abbrev Described : Controller S → Result (Unit {0}) × Controller S → Type 0
  Described c (ok u, c') = (c'.fail_fast ≡ c.fail_fast) × (c'.state.enabled ≡ false)
  Described c (err e, c') = (c'.state.enabled ≡ false) ⊎ (e ≡ dave_unsupported_error)

  handle_session_description-Described :
      (d : GatewayData) (c : Controller S)
      → c.fail_fast ≡ true
      → b.max_protocol_version ≡ 0
      → c.state.enabled ≡ false
      → Described c (handle_session_description b d c)
  unfolding handle_session_description requires_backend
  handle_session_description-Described absent c f z e = ground arith
  handle_session_description-Described (mapping p) c f z e =
      elim (Result-cases (optional_int p.dave_protocol_version)) [
        | inr (x, k) ↦ rw k (inl e)
        | inl (v, k) ↦ rw k ground arith
      ]
  handle_session_description-Described not_mapping c f z e = inl e

  -- Messages one after the other, until one raises.
  unfoldable pub deliver : List DaveEvent → Controller S → Result (Unit {0}) × Controller S
  deliver [] c = (ok tt, c)
  deliver (session_description d ∷ events) c =
      let (r, c') = handle_session_description b d c in
      elim r [ ok u ↦ deliver events c' | err e ↦ (err e, c') ]
  deliver (gateway_payload op d ∷ events) c =
      let (r, c') = handle_gateway_payload b op d c in
      elim r [ ok handled ↦ deliver events c' | err e ↦ (err e, c') ]

  -- With `fail_fast` and a backend that supports no version, whatever session descriptions and other
  -- messages a controller is given, from DAVE disabled and until one of them raises: DAVE is still
  -- disabled, or the last message raised the error of an unsupported DAVE.
  pub no_backend_stays_disabled :
      (events : List DaveEvent) (c : Controller S)
      → c.fail_fast ≡ true
      → b.max_protocol_version ≡ 0
      → c.state.enabled ≡ false
      → ((deliver events c).1.state.enabled ≡ false)
        ⊎ ((deliver events c).0 ≡ err dave_unsupported_error)
  unfolding deliver
  no_backend_stays_disabled [] c f z e = inl e
  no_backend_stays_disabled (session_description d ∷ events) c f z e =
      let c' = (handle_session_description b d c).1 in
      let left = handle_session_description-Described d c f z e in
      elim (Result-cases (handle_session_description b d c).0) [
        | inl (u, k) ↦
            let (fast, off) = subst (λ r. Described c (r, c')) k left in
            simp (deliver, k) (no_backend_stays_disabled events c' (fast ∙ f) z off)
        | inr (x, k) ↦
            simp (deliver, k)
              (elim (subst (λ r. Described c (r, c')) k left) [
                | inl off ↦ inl off
                | inr same ↦ inr (ap err same)
              ])
      ]
  no_backend_stays_disabled (gateway_payload op d ∷ events) c f z e =
      let c' = (handle_gateway_payload b op d c).1 in
      let off = handle_gateway_payload-disabled op d c f z e in
      let fast = handle_gateway_payload-fail_fast op d c ∙ f in
      elim (Result-cases (handle_gateway_payload b op d c).0) [
        | inl (handled, k) ↦ simp (deliver, k) (no_backend_stays_disabled events c' fast z off)
        | inr (x, k) ↦ simp (deliver, k) (inl off)
      ]
