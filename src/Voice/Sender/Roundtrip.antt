-- ===== src/Voice/Sender/Roundtrip.antt =====
-- A frame that `send_audio_frame` seals is opened by `VoiceBox.open_packet` on the other side.
use vaidcord.Base.{ℕ, ◌+◌, ◌*◌, ◌%◌, ◌^◌, ◌<◌, ◌≡◌, refl, ◌∙◌, false, ◌∷◌, ◌++◌, bit_and, arith}
use vaidcord.Base.Bytes.{Bytes, to_bytes, low_bytes, from_bytes, from_bytes-low_bytes}
use vaidcord.Base.Bits.{bit_and_mask}
use vaidcord.Base.Result.{ok}
use vaidcord.Voice.Rtp.{packet_of, parse_rtp_packet}
use vaidcord.Voice.Crypto.{Mode, Cipher, VoiceBox, seal, open_packet}
use vaidcord.Voice.Crypto.Roundtrip.{open_parsed-seal}
use vaidcord.Voice.Sender.{rtp_header}

-- What the receiver reads of a header with these fields, before a payload.
abbrev pub Reads : ℕ → ℕ → ℕ → ℕ → Bytes → Bytes → Type 0
Reads payload_type sequence timestamp ssrc header payload =
    let p = packet_of (header ++ payload) in
    (parse_rtp_packet (header ++ payload) ≡ ok p)
    × (p.payload_type ≡ payload_type % 128)
    × (p.sequence ≡ sequence % 2 ^ 16)
    × (p.timestamp ≡ timestamp % 2 ^ 32)
    × (p.ssrc ≡ ssrc)
    × (p.extension ≡ false)
    × (p.header ≡ header)
    × (p.payload ≡ payload)

abbrev pub header_of : ℕ → ℕ → ℕ → ℕ → Bytes
header_of payload_type sequence timestamp ssrc =
    0x80
    ∷ bit_and payload_type 0x7f
    ∷ (low_bytes 2 (bit_and sequence 0xffff)
        ++ (low_bytes 4 (bit_and timestamp 0xffffffff) ++ low_bytes 4 ssrc))

pub rtp_header-eq :
    (payload_type sequence timestamp ssrc : ℕ) {header : Bytes}
    → rtp_header payload_type sequence timestamp ssrc ≡ ok header
    → (header ≡ header_of payload_type sequence timestamp ssrc) × (ssrc < 2 ^ 32)
unfolding rtp_header to_bytes
rtp_header-eq payload_type sequence timestamp ssrc h = ground arith

Reads-fields :
    (payload_type sequence timestamp ssrc : ℕ) (payload : Bytes)
    → ssrc < 2 ^ 32
    → Reads payload_type sequence timestamp ssrc
        (header_of payload_type sequence timestamp ssrc)
        payload
unfolding packet_of parse_rtp_packet low_bytes from_bytes
Reads-fields payload_type sequence timestamp ssrc payload fits = (
  ground arith,
  omega (arith, bit_and_mask 7 (0 * 256 + bit_and payload_type 0x7f), bit_and_mask 7 payload_type),
  from_bytes-low_bytes 2 (bit_and sequence 0xffff) (omega (arith, bit_and_mask 16 sequence))
      ∙ bit_and_mask 16 sequence,
  from_bytes-low_bytes 4 (bit_and timestamp 0xffffffff) (omega (arith, bit_and_mask 32 timestamp))
      ∙ bit_and_mask 32 timestamp,
  from_bytes-low_bytes 4 ssrc fits,
  refl,
  refl,
  refl,
)

-- A header that was built is parsed back: the payload type cut to seven bits, the sequence number to
-- 16 and the timestamp to 32, and the SSRC; the rest is the payload, whatever it is.
pub parse-rtp_header :
    (payload_type sequence timestamp ssrc : ℕ) (payload : Bytes) {header : Bytes}
    → rtp_header payload_type sequence timestamp ssrc ≡ ok header
    → Reads payload_type sequence timestamp ssrc header payload
parse-rtp_header payload_type sequence timestamp ssrc payload {header} h =
    let (e, fits) = rtp_header-eq payload_type sequence timestamp ssrc h in
    rw e (Reads-fields payload_type sequence timestamp ssrc payload fits)

-- For every mode, key, counter and frame: what is sealed under a built header, sent behind it and
-- received is opened by `open_packet` to the frame, with the SSRC of the sender and its sequence
-- number cut to 16 bits.
pub open_packet-seal :
    (library : Mode → Cipher) (box : VoiceBox) (payload_type sequence timestamp ssrc n : ℕ)
    (frame : Bytes) {header sealed : Bytes}
    → rtp_header payload_type sequence timestamp ssrc ≡ ok header
    → seal library box header frame n ≡ ok sealed
    → let p = packet_of (header ++ sealed) in
      (open_packet library box (header ++ sealed) ≡ ok (p, frame))
      × (p.ssrc ≡ ssrc)
      × (p.sequence ≡ sequence % 2 ^ 16)
unfolding open_packet
open_packet-seal library box payload_type sequence timestamp ssrc n frame {header} {sealed} h s =
    let (parsed, kind, number, stamp, source, plain, head, body) =
      parse-rtp_header payload_type sequence timestamp ssrc sealed h in
    (
      rw parsed (
          open_parsed-seal library box (packet_of (header ++ sealed)) frame n plain
            (rw (head, body) s)),
      source,
      number,
    )
