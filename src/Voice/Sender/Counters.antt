-- ===== src/Voice/Sender/Counters.antt =====
-- The sequence number, the timestamp and the nonce over many frames.
use vaidcord.Base.{
  ℕ, zero, suc, ◌+◌, ◌*◌, ◌%◌, ◌^◌, ◌<◌, ◌≡◌, Bool, true, Option, none, some, List, ◌∷◌, length,
  arith, Option-cases, inl, inr,
}
use vaidcord.Base.Bytes.{Bytes}
use vaidcord.Base.Bits.{bit_and_mask}
use vaidcord.Base.Result.{Result, ok, err, >>=-eq-ok}
use vaidcord.Voice.Crypto.{Mode, Cipher, VoiceBox}
use vaidcord.Voice.Sender.{
  VoiceConnection, send_audio_frame, datagram, sent_frame, send_silence_frames, advance,
}

-- How many datagrams were sent.
abbrev pub sent_count : VoiceConnection → ℕ
sent_count c = elim c.udp [ none ↦ 0 | some sent ↦ length sent ]

-- The counters of `c'` are those of `c` after `k` frames.
pub record After (step k : ℕ) (c c' : VoiceConnection) : Type 0 where
  pub sequence : c'.rtp_sequence ≡ (c.rtp_sequence + k) % 2 ^ 16
  pub timestamp : c'.rtp_timestamp ≡ (c.rtp_timestamp + k * step) % 2 ^ 32
  pub nonce : c'.rtp_nonce ≡ (c.rtp_nonce + k) % 2 ^ 32
  pub sent : sent_count c' ≡ sent_count c + k

-- The counters fit their fields, as they do from the start.
pub record Fits (c : VoiceConnection) : Type 0 where
  pub sequence : c.rtp_sequence < 2 ^ 16
  pub timestamp : c.rtp_timestamp < 2 ^ 32
  pub nonce : c.rtp_nonce < 2 ^ 32

advance-After :
    (step : ℕ) (c : VoiceConnection) (sent : List Bytes) (packet : Bytes) (box : Option VoiceBox)
    → c.udp ≡ some sent
    → After step 1 c (advance step (record c { udp = some (packet ∷ sent); voice_box = box }))
advance-After step c sent packet box h = ground (
  arith,
  bit_and_mask 16 (c.rtp_sequence + 1),
  bit_and_mask 32 (c.rtp_timestamp + step),
  bit_and_mask 32 (c.rtp_nonce + 1),
)

After-trans :
    {step k : ℕ} {a b c : VoiceConnection}
    → After step 1 a b
    → After step k b c
    → After step (suc k) a c
After-trans {step} {k} p q = record {
  sequence = omega (arith, p.sequence, q.sequence);
  timestamp = omega (arith, p.timestamp, q.timestamp);
  nonce = omega (arith, p.nonce, q.nonce);
  sent = omega (arith, p.sent, q.sent);
}

After-Fits : {step k : ℕ} {c c' : VoiceConnection} → After step k c c' → Fits c'
After-Fits a = record {
  sequence = omega (arith, a.sequence);
  timestamp = omega (arith, a.timestamp);
  nonce = omega (arith, a.nonce);
}

After-zero : (step : ℕ) (c : VoiceConnection) → Fits c → After step 0 c c
After-zero step c f = record {
  sequence = omega (arith, f.sequence);
  timestamp = omega (arith, f.timestamp);
  nonce = omega (arith, f.nonce);
  sent = omega arith;
}

module _ (library : Mode → Cipher) (encrypt_frame : ℕ → Bytes → Result Bytes) where
  sent_frame-After :
      (step : ℕ) (c : VoiceConnection) (sent : List Bytes) (d : Result (Bytes × Option VoiceBox))
      {c' : VoiceConnection}
      → c.udp ≡ some sent
      → sent_frame library encrypt_frame step c sent d ≡ ok c'
      → After step 1 c c'
  sent_frame-After step c sent (ok (packet, box)) {c'} e h =
      let same : advance step (record c { udp = some (packet ∷ sent); voice_box = box }) ≡ c' =
        cc in
      rw (← same) (advance-After step c sent packet box e)
  sent_frame-After step c sent (err x) e h = absurd (cc h)

  send_audio_frame-After :
      (frame : Bytes) (step payload_type : ℕ) (encrypt : Bool) (c : VoiceConnection)
      {c' : VoiceConnection}
      → send_audio_frame library encrypt_frame frame step payload_type encrypt c ≡ ok c'
      → After step 1 c c'
  unfolding send_audio_frame
  send_audio_frame-After frame step payload_type encrypt c h = elim (Option-cases c.udp) [
    | inl e ↦ absurd (ground arith)
    | inr (sent, e) ↦
        sent_frame-After step c sent (datagram library encrypt_frame frame payload_type encrypt c) e
          (ground arith)
  ]

  -- After `k` frames that were sent, the sequence number has moved by `k` in 16 bits, the timestamp by
  -- `k` steps in 32 bits and the nonce counter by `k` in 32 bits, and `k` datagrams more were sent.
  pub send_silence_frames-After :
      (k : ℕ) (frame : Bytes) (step payload_type : ℕ) (c : VoiceConnection) {c' : VoiceConnection}
      → Fits c
      → send_silence_frames library encrypt_frame k frame step payload_type c ≡ ok c'
      → After step k c c'
  unfolding send_silence_frames
  send_silence_frames-After zero frame step payload_type c {c'} f h =
      let same : c ≡ c' = cc in rw (← same) (After-zero step c f)
  send_silence_frames-After (suc k) frame step payload_type c {c'} f h =
      let (m, one, rest) =
        >>=-eq-ok (send_audio_frame library encrypt_frame frame step payload_type true c)
          (λ x. send_silence_frames library encrypt_frame k frame step payload_type x) h in
      let a = send_audio_frame-After frame step payload_type true c one in
      After-trans a (send_silence_frames-After k frame step payload_type m (After-Fits a) rest)
