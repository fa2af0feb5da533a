-- ===== src/Voice/Udp.antt =====
-- vaidcord-py/src/vaidcord/voice/udp.py: the packets of IP discovery.
pub mod Discovery
use vaidcord.Base.{
  ℕ, Bool, true, false, not, ◌&&◌, ◌||◌, List, [], ◌∷◌, ◌++◌, length, take, drop, replicate, ltb,
  ◌==◌, if◌then◌else◌,
}
use vaidcord.Base.Bytes.{Bytes, to_bytes, from_bytes}
use vaidcord.Base.Result.{Result, ok, err, value_error, ◌>>=◌}
use vaidcord.Voice.Rtp.{unpack_at}

-- `struct.pack_into(">HHI", packet, 0, 1, 70, ssrc)` over 74 zero bytes; an SSRC that does not fit
-- raises.
unfoldable pub build_ip_discovery_packet : ℕ → Result Bytes
build_ip_discovery_packet ssrc = do
  ssrc_bytes ← to_bytes ssrc 4
  ok (0 ∷ 1 ∷ 0 ∷ 70 ∷ (ssrc_bytes ++ replicate 66 0))

-- `raw.split(b"\x00", 1)[0]`
unfoldable pub before_zero : Bytes → Bytes
before_zero [] = []
before_zero (b ∷ bytes) = let rest = before_zero bytes in if b == 0 then [] else b ∷ rest

-- `.decode("ascii")` takes bytes below 128; the text is the list of its codes.
unfoldable pub is_ascii : Bytes → Bool
is_ascii [] = true
is_ascii (b ∷ bytes) = ltb b 128 && is_ascii bytes

unfoldable pub decode_ascii : Bytes → Result Bytes
decode_ascii bytes = if is_ascii bytes then ok bytes else err value_error

unfoldable pub parse_ip_discovery_response : Bytes → Result (Bytes × ℕ)
unfolding decode_ascii before_zero
parse_ip_discovery_response packet =
    if ltb (length packet) 74
    then err value_error
    else if not (unpack_at 0 2 packet == 2) || not (unpack_at 2 2 packet == 70)
    then err value_error
    else do
      address ← decode_ascii (before_zero (take 64 (drop 8 packet)))
      ok (address, unpack_at 72 2 packet)
