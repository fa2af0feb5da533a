-- ===== src/Voice/Receiver/Delivers.antt =====
-- A frame that one connection sends is what the receiver of another gives its sink.
use vaidcord.Base.{
  ℕ, ◌+◌, ◌%◌, ◌^◌, ◌≡◌, refl, ap, ◌∙◌, true, false, ◌||◌, Option, none, some, [], ◌∷◌, ◌++◌,
  length, arith, ltb,
}
use vaidcord.Base.Bits.{bit_and_mask}
use vaidcord.Base.Bytes.{Bytes, low_bytes, from_bytes}
use vaidcord.Base.Dict.{nat_key, lookup}
use vaidcord.Base.Result.{ok}
use vaidcord.Voice.Crypto.{Mode, Cipher, VoiceBox, seal, open_packet}
use vaidcord.Voice.Receiver.{
  VoiceFrame, Reads, VoiceReceiver, Services, deliver, hand_over, handle_opened, open_with,
  handle_datagram,
}
use vaidcord.Voice.Rtp.{RtpPacket, packet_of, is_rtcp_packet}
use vaidcord.Voice.Sender.{
  VoiceConnection, SessionDescription, rtp_header, build_rtp_packet, encrypt_voice_payload,
  datagram,
}
use vaidcord.Voice.Sender.Roundtrip.{rtp_header-eq, parse-rtp_header, open_packet-seal}

append_nil : (bytes : Bytes) → bytes ++ [] ≡ bytes
append_nil [] = refl
append_nil (b ∷ bytes) = ap (λ (r : Bytes). b ∷ r) (append_nil bytes)

-- The datagram of a frame that a ready connection with a box seals.
datagram-seal :
    (library : Mode → Cipher) (payload : Bytes) (payload_type ssrc : ℕ) (d : SessionDescription)
    (box : VoiceBox) (c : VoiceConnection) {header sealed : Bytes}
    → c.ready ≡ some ssrc
    → c.session_description ≡ some d
    → c.voice_box ≡ some box
    → rtp_header payload_type c.rtp_sequence c.rtp_timestamp ssrc ≡ ok header
    → seal library box header payload c.rtp_nonce ≡ ok sealed
    → datagram library (λ s. λ frame. ok frame) payload payload_type true c
      ≡ ok (header ++ sealed, some box)
unfolding datagram build_rtp_packet encrypt_voice_payload
datagram-seal library payload payload_type ssrc d box c {header} {sealed} r s b h e =
    simp (datagram, build_rtp_packet, encrypt_voice_payload, r, s, b, h, append_nil header, e)

-- A datagram that was sent is taken for audio.
is_audio :
    (payload_type sequence timestamp ssrc : ℕ) (sealed : Bytes) {header : Bytes}
    → rtp_header payload_type sequence timestamp ssrc ≡ ok header
    → (ltb (length (header ++ sealed)) 12 || is_rtcp_packet (header ++ sealed)) ≡ false
unfolding is_rtcp_packet low_bytes from_bytes
is_audio payload_type sequence timestamp ssrc sealed h =
    let (e, fits) = rtp_header-eq payload_type sequence timestamp ssrc h in
    rw e (ground (arith, bit_and_mask 7 payload_type))

module _ {D : Type 0} (services : Services D) (reads : Reads) where
  -- The frame that the sink is given for a packet.
  abbrev frame_of : RtpPacket → Bytes → Option Bytes → VoiceFrame
  frame_of packet payload pcm = record {
    ssrc = packet.ssrc;
    user_id = lookup packet.ssrc reads.ssrc_map;
    sequence = packet.sequence;
    timestamp = packet.timestamp;
    opus = payload;
    pcm = pcm;
  }

  handle_opened-raw :
      (packet : RtpPacket) (x : ℕ) (xs : Bytes) (v : VoiceReceiver D)
      → services.decrypt_frame packet.ssrc (x ∷ xs) ≡ ok (x ∷ xs)
      → services.wants_opus ≡ true
      → services.write (frame_of packet (x ∷ xs) none) ≡ none
      → handle_opened services reads packet (x ∷ xs) v ≡ (
        ok tt,
        record v {
          received_frames = v.received_frames + 1;
          written = frame_of packet (x ∷ xs) none ∷ v.written;
        },
      )
  unfolding handle_opened hand_over deliver
  handle_opened-raw packet x xs v e o w = simp (handle_opened, e, hand_over, o, deliver, w)

  handle_datagram-opened :
      (box : VoiceBox) (bytes : Bytes) (packet : RtpPacket) (payload : Bytes) (v : VoiceReceiver D)
      → (ltb (length bytes) 12 || is_rtcp_packet bytes) ≡ false
      → reads.voice_box ≡ some box
      → open_packet services.library box bytes ≡ ok (packet, payload)
      → handle_datagram services reads bytes v ≡ handle_opened services reads packet payload v
  unfolding handle_datagram open_with
  handle_datagram-opened box bytes packet payload v a b e =
      simp (handle_datagram, a, b, open_with, e)

  -- A frame that is not empty, sent by a connection that is ready, has a description and a box, while
  -- DAVE changes nothing on either side: the datagram that is sent, where a receiver with the same box
  -- and a sink of raw Opus takes it, is counted and gives the sink that frame, with the sender's SSRC,
  -- the user that is known for it, the sequence number cut to 16 bits and the timestamp cut to 32.
  pub handle_datagram-datagram :
      (x : ℕ) (xs : Bytes) (payload_type ssrc : ℕ) (d : SessionDescription) (box : VoiceBox)
      (c : VoiceConnection) (v : VoiceReceiver D) {header sealed : Bytes}
      → c.ready ≡ some ssrc
      → c.session_description ≡ some d
      → c.voice_box ≡ some box
      → rtp_header payload_type c.rtp_sequence c.rtp_timestamp ssrc ≡ ok header
      → seal services.library box header (x ∷ xs) c.rtp_nonce ≡ ok sealed
      → reads.voice_box ≡ some box
      → ((s : ℕ) → services.decrypt_frame s (x ∷ xs) ≡ ok (x ∷ xs))
      → services.wants_opus ≡ true
      → ((frame : VoiceFrame) → services.write frame ≡ none)
      → (datagram services.library (λ s. λ frame. ok frame) (x ∷ xs) payload_type true c
          ≡ ok (header ++ sealed, some box))
        × (handle_datagram services reads (header ++ sealed) v ≡ (
          ok tt,
          record v {
            received_frames = v.received_frames + 1;
            written =
                record {
                  ssrc = ssrc;
                  user_id = lookup ssrc reads.ssrc_map;
                  sequence = c.rtp_sequence % 2 ^ 16;
                  timestamp = c.rtp_timestamp % 2 ^ 32;
                  opus = x ∷ xs;
                  pcm = none;
                }
                ∷ v.written;
          },
        ))
  handle_datagram-datagram x xs payload_type ssrc d box c v {header} {sealed} r s b h e rb k o w =
      let packet = packet_of (header ++ sealed) in
      let (opened, source, number) =
        open_packet-seal services.library box payload_type c.rtp_sequence c.rtp_timestamp ssrc
          c.rtp_nonce (x ∷ xs) h e in
      let stamp = (parse-rtp_header payload_type c.rtp_sequence c.rtp_timestamp ssrc sealed h).3 in
      let audio = is_audio payload_type c.rtp_sequence c.rtp_timestamp ssrc sealed h in
      (
        datagram-seal services.library (x ∷ xs) payload_type ssrc d box c r s b h e,
        handle_datagram-opened box (header ++ sealed) packet (x ∷ xs) v audio rb opened
            ∙ handle_opened-raw packet x xs v (k packet.ssrc) o (w (frame_of packet (x ∷ xs) none))
            ∙ simp (source, number, stamp),
      )
