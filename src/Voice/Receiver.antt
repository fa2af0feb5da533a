-- ===== src/Voice/Receiver.antt =====
-- `class VoiceReceiver` in vaidcord-py/src/vaidcord/voice/receive.py: what becomes of a datagram, with
-- `BufferSink`. The Opus decoder and the sink's `write` are parameters, and so is
-- `dave.decrypt_frame`, by SSRC and frame.
pub mod Delivers
mod Examples
use vaidcord.Base.{
  ℕ, ◌+◌, Bool, true, false, ◌||◌, Option, none, some, List, [], ◌∷◌, ◌++◌, length, ltb, ◌==◌, ◌&&◌,
  if◌then◌else◌,
}
use vaidcord.Base.Bytes.{Bytes}
use vaidcord.Base.Dict.{Key, nat_key, lookup, insert}
use vaidcord.Base.Result.{Raised, Result, ok, err}
use vaidcord.Voice.Crypto.{Mode, Cipher, VoiceBox, open_packet}
use vaidcord.Voice.Rtp.{RtpPacket, is_rtcp_packet}

pub record VoiceFrame : Type 0 where
  pub ssrc : ℕ
  pub user_id : Option ℕ
  pub sequence : ℕ
  pub timestamp : ℕ
  pub opus : Bytes
  pub pcm : Option Bytes

-- The part of the connection that is read: `voice_box` and `ssrc_to_user`.
pub record Reads : Type 0 where
  pub voice_box : Option VoiceBox
  pub ssrc_map : List (ℕ × ℕ)

-- `written` is what the sink was given, the last frame first. `D` is the state of an Opus decoder.
pub record VoiceReceiver (D : Type 0) : Type 0 where
  pub decoders : List (ℕ × D)
  pub received_frames : ℕ
  pub dropped_packets : ℕ
  pub written : List VoiceFrame

-- The libraries, and what the sink says to a frame that it is given.
pub record Services (D : Type 0) : Type 0 where
  pub library : Mode → Cipher
  pub decrypt_frame : ℕ → Bytes → Result Bytes
  pub new_decoder : Result D
  pub decode : D → Bytes → Result Bytes × D
  pub wants_opus : Bool
  pub write : VoiceFrame → Option Raised

-- `opus.SILENCE_FRAME`
abbrev pub is_silence : Bytes → Bool
is_silence (a ∷ b ∷ c ∷ []) = (a == 248) && ((b == 255) && (c == 254))
is_silence bytes = false

module _ {D : Type 0} (services : Services D) (reads : Reads) where
  -- The end of `_handle_datagram`: the frame is counted before the sink takes it.
  unfoldable pub deliver :
      RtpPacket → Bytes → Option Bytes → VoiceReceiver D → Result (Unit {0}) × VoiceReceiver D
  deliver packet payload pcm v =
      let frame : VoiceFrame = record {
        ssrc = packet.ssrc;
        user_id = lookup packet.ssrc reads.ssrc_map;
        sequence = packet.sequence;
        timestamp = packet.timestamp;
        opus = payload;
        pcm = pcm;
      } in
      let v' = record v { received_frames = v.received_frames + 1; written = frame ∷ v.written } in
      elim (services.write frame) [ none ↦ (ok tt, v') | some e ↦ (err e, v') ]

  unfoldable pub decode_with :
      RtpPacket → Bytes → VoiceReceiver D → D → Result (Unit {0}) × VoiceReceiver D
  unfolding deliver
  decode_with packet payload v decoder =
      let (r, decoder') = services.decode decoder payload in
      let v' = record v { decoders = insert packet.ssrc decoder' v.decoders } in
      elim r [ ok pcm ↦ deliver packet payload (some pcm) v' | err e ↦ (err e, v') ]

  -- A decoder for each SSRC, made when its first frame comes.
  unfoldable pub decode_frame :
      RtpPacket → Bytes → VoiceReceiver D → Result (Unit {0}) × VoiceReceiver D
  unfolding decode_with
  decode_frame packet payload v = elim (lookup packet.ssrc v.decoders) [
    | some decoder ↦ decode_with packet payload v decoder
    | none ↦ elim services.new_decoder [
      | err e ↦ (err e, v)
      | ok decoder ↦ decode_with packet payload v decoder
    ]
  ]

  -- Behind DAVE: raw Opus goes to the sink, silence is left out of the PCM.
  unfoldable pub hand_over :
      RtpPacket → Bytes → VoiceReceiver D → Result (Unit {0}) × VoiceReceiver D
  unfolding deliver decode_frame
  hand_over packet payload v = elim services.wants_opus [
    | true ↦ deliver packet payload none v
    | false ↦ elim (is_silence payload) [
      | true ↦ (ok tt, v)
      | false ↦ decode_frame packet payload v
    ]
  ]

  unfoldable pub handle_opened :
      RtpPacket → Bytes → VoiceReceiver D → Result (Unit {0}) × VoiceReceiver D
  unfolding hand_over
  handle_opened packet [] v = (ok tt, v)
  handle_opened packet (x ∷ xs) v = elim (services.decrypt_frame packet.ssrc (x ∷ xs)) [
    | err e ↦ (err e, v)
    | ok payload ↦ hand_over packet payload v
  ]

  unfoldable pub open_with :
      VoiceBox → Bytes → VoiceReceiver D → Result (Unit {0}) × VoiceReceiver D
  unfolding handle_opened
  open_with box bytes v = elim (open_packet services.library box bytes) [
    | err e ↦ (err e, v)
    | ok (packet, payload) ↦ handle_opened packet payload v
  ]

  -- `_handle_datagram`
  unfoldable pub handle_datagram : Bytes → VoiceReceiver D → Result (Unit {0}) × VoiceReceiver D
  unfolding open_with
  handle_datagram bytes v =
      if ltb (length bytes) 12 || is_rtcp_packet bytes
      then (ok tt, v)
      else elim reads.voice_box [ none ↦ (ok tt, v) | some box ↦ open_with box bytes v ]

  abbrev pub count_drop : Result (Unit {0}) × VoiceReceiver D → VoiceReceiver D
  count_drop (ok u, v) = v
  count_drop (err e, v) = record v { dropped_packets = v.dropped_packets + 1 }

  -- `_run` over the datagrams of the socket: what one of them raises is counted.
  unfoldable pub run : List Bytes → VoiceReceiver D → VoiceReceiver D
  unfolding handle_datagram
  run [] v = v
  run (bytes ∷ more) v = run more (count_drop (handle_datagram bytes v))

-- `BufferSink.write` and `BufferSink.pcm`
abbrev pub same_id : Option ℕ → Option ℕ → Bool
same_id none none = true
same_id none (some b) = false
same_id (some a) none = false
same_id (some a) (some b) = a == b

abbrev pub buffer_of : Option ℕ → List (Option ℕ × Bytes) → Bytes
buffer_of user [] = []
buffer_of user ((u, bytes) ∷ buffers) = if same_id u user then bytes else buffer_of user buffers

abbrev pub extend : Option ℕ → Bytes → List (Option ℕ × Bytes) → List (Option ℕ × Bytes)
extend user pcm [] = (user, pcm) ∷ []
extend user pcm ((u, bytes) ∷ buffers) =
    if same_id u user then (u, bytes ++ pcm) ∷ buffers else (u, bytes) ∷ extend user pcm buffers

unfoldable pub buffer_write : VoiceFrame → List (Option ℕ × Bytes) → List (Option ℕ × Bytes)
buffer_write frame buffers = elim frame.pcm [
  | none ↦ buffers
  | some pcm ↦ extend frame.user_id pcm buffers
]
