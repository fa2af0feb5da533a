-- ===== src/Voice/Rtp.antt =====
-- vaidcord-py/src/vaidcord/voice/rtp.py
pub mod Parse
use vaidcord.Base.{
  ℕ, zero, suc, ◌+◌, ◌-◌, ◌*◌, ◌/◌, ◌^◌, Bool, true, false, not, ◌&&◌, List, [], ◌∷◌, length, take,
  drop, bit_and, ltb, leb, ◌==◌, if◌then◌else◌,
}
use vaidcord.Base.Bytes.{Bytes, from_bytes}
use vaidcord.Base.Result.{Result, ok, err, value_error, ◌>>=◌}

abbrev pub rtp_header_size : ℕ
rtp_header_size = 12

pub record RtpPacket : Type 0 where
  pub version : ℕ
  pub padding : Bool
  pub extension : Bool
  pub marker : Bool
  pub payload_type : ℕ
  pub sequence : ℕ
  pub timestamp : ℕ
  pub ssrc : ℕ
  pub csrcs : List ℕ
  pub header : Bytes
  pub payload : Bytes

-- `struct.unpack_from` of one big-endian number of `width` bytes.
abbrev pub unpack_at : ℕ → ℕ → Bytes → ℕ
unpack_at offset width bytes = from_bytes (take width (drop offset bytes))

-- `struct.unpack_from(">{n}I", …)`
unfoldable pub unpack_words : ℕ → Bytes → List ℕ
unpack_words zero bytes = []
unpack_words (suc n) bytes = from_bytes (take 4 bytes) ∷ unpack_words n (drop 4 bytes)

-- `200 <= data[1] < 205`, the frozen set of RTCP types.
unfoldable pub is_rtcp_packet : Bytes → Bool
is_rtcp_packet bytes =
    leb 2 (length bytes) && (leb 200 (unpack_at 1 1 bytes) && ltb (unpack_at 1 1 bytes) 205)

abbrev pub first_byte : Bytes → ℕ
first_byte bytes = unpack_at 0 1 bytes

abbrev pub has_extension : Bytes → Bool
has_extension bytes = not (bit_and (first_byte bytes) 0x10 == 0)

abbrev pub csrc_count : Bytes → ℕ
csrc_count bytes = bit_and (first_byte bytes) 0x0f

-- The end of the CSRC list, and with the extension preamble where there is one.
abbrev pub csrc_end : Bytes → ℕ
csrc_end bytes = rtp_header_size + csrc_count bytes * 4

abbrev pub header_end : Bytes → ℕ
header_end bytes = if has_extension bytes then csrc_end bytes + 4 else csrc_end bytes

-- The record of a datagram that is long enough for its header.
unfoldable pub packet_of : Bytes → RtpPacket
packet_of bytes = record {
  version = first_byte bytes / 2 ^ 6;
  padding = not (bit_and (first_byte bytes) 0x20 == 0);
  extension = has_extension bytes;
  marker = not (bit_and (unpack_at 1 1 bytes) 0x80 == 0);
  payload_type = bit_and (unpack_at 1 1 bytes) 0x7f;
  sequence = unpack_at 2 2 bytes;
  timestamp = unpack_at 4 4 bytes;
  ssrc = unpack_at 8 4 bytes;
  csrcs = unpack_words (csrc_count bytes) (drop rtp_header_size bytes);
  header = take (header_end bytes) bytes;
  payload = drop (header_end bytes) bytes;
}

unfoldable pub parse_rtp_packet : Bytes → Result RtpPacket
parse_rtp_packet bytes =
    if ltb (length bytes) rtp_header_size
    then err value_error
    else if ltb (length bytes) (csrc_end bytes)
    then err value_error
    else if has_extension bytes && ltb (length bytes) (csrc_end bytes + 4)
    then err value_error
    else ok (packet_of bytes)

-- The last two bytes of the header count the extension words at the start of the plaintext.
unfoldable pub strip_header_extension : RtpPacket → Bytes → Bytes
strip_header_extension packet plaintext =
    if packet.extension
    then drop (unpack_at (length packet.header - 2) 2 packet.header * 4) plaintext
    else plaintext
