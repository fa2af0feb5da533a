-- ===== src/Voice/Sender.antt =====
-- The sending half of `class VoiceConnection` in vaidcord-py/src/vaidcord/voice/connection.py:
-- `build_rtp_packet`, `_encrypt_voice_payload`, `send_audio_frame` and the loop of
-- `send_silence_frames`. The UDP socket is the list of datagrams sent.
pub mod Roundtrip
pub mod Counters
mod Examples
use vaidcord.Base.{
  ℕ, zero, suc, ◌+◌, Bool, true, Option, none, some, List, [], ◌∷◌, ◌++◌, bit_and, if◌then◌else◌,
}
use Prim.Native.String.{String}
use vaidcord.Base.Bytes.{Bytes, low_bytes, to_bytes}
use vaidcord.Base.Result.{Result, ok, err, runtime_error, ◌>>=◌}
use vaidcord.Voice.Crypto.{Mode, Cipher, VoiceBox, seal, create_voice_box}

pub record SessionDescription : Type 0 where
  pub mode : String
  pub secret_key : Bytes

-- The fields of the connection that sending reads and writes. `ready` is the SSRC of the ready
-- payload, `udp` the datagrams sent so far, the last one first, if the socket is there.
pub record VoiceConnection : Type 0 where
  pub ready : Option ℕ
  pub session_description : Option SessionDescription
  pub udp : Option (List Bytes)
  pub rtp_sequence : ℕ
  pub rtp_timestamp : ℕ
  pub rtp_nonce : ℕ
  pub voice_box : Option VoiceBox

-- `struct.pack(">BBHII", …)` of the fixed header; an SSRC that does not fit raises.
unfoldable pub rtp_header : ℕ → ℕ → ℕ → ℕ → Result Bytes
rtp_header payload_type sequence timestamp ssrc = do
  ssrc_bytes ← to_bytes ssrc 4
  ok (
      0x80
      ∷ bit_and payload_type 0x7f
      ∷ (low_bytes 2 (bit_and sequence 0xffff)
          ++ (low_bytes 4 (bit_and timestamp 0xffffffff) ++ ssrc_bytes)))

unfoldable pub build_rtp_packet : VoiceConnection → Bytes → ℕ → Result Bytes
build_rtp_packet c payload payload_type = elim c.ready [
  | none ↦ err runtime_error
  | some ssrc ↦ do
    header ← rtp_header payload_type c.rtp_sequence c.rtp_timestamp ssrc
    ok (header ++ payload)
]

-- The three counters after a frame is sent.
abbrev pub advance : ℕ → VoiceConnection → VoiceConnection
advance timestamp_step c = record c {
  rtp_sequence = bit_and (c.rtp_sequence + 1) 0xffff;
  rtp_timestamp = bit_and (c.rtp_timestamp + timestamp_step) 0xffffffff;
  rtp_nonce = bit_and (c.rtp_nonce + 1) 0xffffffff;
}

-- `dave.encrypt_frame` is a parameter: by SSRC and frame.
module _ (library : Mode → Cipher) (encrypt_frame : ℕ → Bytes → Result Bytes) where
  abbrev pub encrypt_ready : Option ℕ → Bytes → Result Bytes
  encrypt_ready none payload = ok payload
  encrypt_ready (some ssrc) payload = encrypt_frame ssrc payload

  abbrev pub box_or_create : Option VoiceBox → SessionDescription → Result VoiceBox
  box_or_create none s = create_voice_box s.mode s.secret_key
  box_or_create (some box) s = ok box

  -- The sealed body, and the box that is kept for the next frame.
  unfoldable pub encrypt_voice_payload :
      VoiceConnection → Bytes → Bytes → Result (Bytes × Option VoiceBox)
  encrypt_voice_payload c header payload = elim c.session_description [
    | none ↦ ok (payload, c.voice_box)
    | some s ↦ do
      box ← box_or_create c.voice_box s
      sealed ← seal library box header payload c.rtp_nonce
      ok (sealed, some box)
  ]

  -- The datagram of a frame and the box that is kept.
  unfoldable pub datagram : Bytes → ℕ → Bool → VoiceConnection → Result (Bytes × Option VoiceBox)
  datagram payload payload_type encrypt c = do
    header ← build_rtp_packet c [] payload_type
    body ← encrypt_ready c.ready payload
    sealed ← if encrypt then encrypt_voice_payload c header body else ok (body, c.voice_box)
    ok (header ++ sealed.0, sealed.1)

  -- `await self.udp.send(packet)` and the three updates behind it.
  abbrev pub sent_frame :
      ℕ → VoiceConnection → List Bytes → Result (Bytes × Option VoiceBox) → Result VoiceConnection
  sent_frame timestamp_step c sent (ok (packet, box)) =
      ok (advance timestamp_step (record c { udp = some (packet ∷ sent); voice_box = box }))
  sent_frame timestamp_step c sent (err e) = err e

  unfoldable pub send_audio_frame : Bytes → ℕ → ℕ → Bool → VoiceConnection → Result VoiceConnection
  send_audio_frame payload timestamp_step payload_type encrypt c = elim c.udp [
    | none ↦ err runtime_error
    | some sent ↦ sent_frame timestamp_step c sent (datagram payload payload_type encrypt c)
  ]

  -- `send_silence_frames`, without the pauses between the frames.
  unfoldable pub send_silence_frames : ℕ → Bytes → ℕ → ℕ → VoiceConnection → Result VoiceConnection
  send_silence_frames zero frame timestamp_step payload_type c = ok c
  send_silence_frames (suc frames) frame timestamp_step payload_type c = do
    c' ← send_audio_frame frame timestamp_step payload_type true c
    send_silence_frames frames frame timestamp_step payload_type c'
