-- ===== src/Voice/Rtp/Parse.antt =====
-- The parser splits a datagram without loss, and refuses exactly those that are too short.
use vaidcord.Base.{
  ℕ, zero, suc, ◌+◌, ◌*◌, ◌≤◌, ◌<◌, ◌≡◌, refl, ◌&&◌, ◌++◌, length, drop, take-append-drop,
  length-take, ltb, if◌then◌else◌, arith, Bool-cases, inl, inr, ◌⊎◌,
}
use vaidcord.Base.Bytes.{Bytes}
use vaidcord.Base.Bits.{bit_and_mask}
use vaidcord.Base.Result.{Result, ok, err, value_error}
use vaidcord.Voice.Rtp.{
  RtpPacket, parse_rtp_packet, packet_of, header_end, csrc_end, csrc_count, has_extension,
  first_byte, unpack_at, unpack_words, rtp_header_size,
}

length-unpack_words : (n : ℕ) (bytes : Bytes) → length (unpack_words n bytes) ≡ n
unfolding unpack_words
length-unpack_words zero bytes = refl
length-unpack_words (suc n) bytes = omega (arith, length-unpack_words n (drop 4 bytes))

-- The header that the first byte announces does not fit.
abbrev pub IsShort : Bytes → Type 0
IsShort bytes = (length bytes < 12) ⊎ (length bytes < header_end bytes)

abbrev pub Parses : Bytes → Result RtpPacket → Type 0
Parses bytes (ok p) =
    (p.header ++ p.payload ≡ bytes)
    × (length p.header ≡ 12 + 4 * length p.csrcs + (if p.extension then 4 else 0))
    × (length p.csrcs < 16)
    × (p.payload_type < 128)
    × (¬ IsShort bytes)
Parses bytes (err e) = (e ≡ value_error) × IsShort bytes

packet_of-Parses :
    (bytes : Bytes)
    → 12 ≤ length bytes
    → header_end bytes ≤ length bytes
    → Parses bytes (ok (packet_of bytes))
unfolding packet_of
packet_of-Parses bytes fixed fits = (
  take-append-drop (header_end bytes) bytes,
  ground (
    arith,
    length-take (header_end bytes) bytes fits,
    length-unpack_words (csrc_count bytes) (drop rtp_header_size bytes),
  ),
  ground (
    arith,
    length-unpack_words (csrc_count bytes) (drop rtp_header_size bytes),
    bit_and_mask 4 (first_byte bytes),
  ),
  ground (arith, bit_and_mask 7 (unpack_at 1 1 bytes)),
  λ short. elim short [ inl a ↦ absurd (omega arith) | inr b ↦ absurd (omega arith) ],
)

-- Of a datagram of any content and at least the length of its header, `parse_rtp_packet` returns a
-- packet whose header and payload are the datagram cut in two; the header has the 12 fixed bytes, four
-- for each CSRC entry and four more exactly if the extension bit is set. It raises `ValueError` for
-- every shorter datagram.
pub parse_rtp_packet_lem : (bytes : Bytes) → Parses bytes (parse_rtp_packet bytes)
unfolding parse_rtp_packet
parse_rtp_packet_lem bytes = elim (Bool-cases (ltb (length bytes) rtp_header_size)) [
  | inl a ↦ rw a (refl, inl (ground arith))
  | inr a ↦ elim (Bool-cases (ltb (length bytes) (csrc_end bytes))) [
    | inl b ↦ rw (a, b) (refl, inr (ground arith))
    | inr b ↦ elim (Bool-cases (has_extension bytes && ltb (length bytes) (csrc_end bytes + 4))) [
      | inl c ↦ rw (a, b, c) (refl, inr (ground arith))
      | inr c ↦ rw (a, b, c) (packet_of-Parses bytes (ground arith) (ground arith))
    ]
  ]
]
