-- ===== src/Voice/Crypto.antt =====
-- vaidcord-py/src/vaidcord/voice/crypto.py. The ciphers of `cryptography` and PyNaCl are a parameter;
-- of each the code relies on its documented round trip.
pub mod Roundtrip
use text.Mathlib.Text.{◌==◌ as str_eq}
use Prim.Native.String.{String}
use vaidcord.Base.{
  ℕ, ◌-◌, ◌≡◌, Option, none, some, List, [], ◌∷◌, ◌++◌, length, take, drop, replicate, bit_and, ltb,
  if◌then◌else◌, map,
}
use vaidcord.Base.Bytes.{Bytes, to_bytes}
use vaidcord.Base.Result.{Result, ok, err, runtime_error, voice_decryption_error, ◌>>=◌}
use vaidcord.Voice.Rtp.{RtpPacket, parse_rtp_packet, strip_header_extension}

-- The three subclasses of `VoiceBox`.
pub data Mode : Type 0 where
  aead_aes256_gcm_rtpsize aead_xchacha20_poly1305_rtpsize xsalsa20_poly1305_lite_rtpsize : Mode

-- One cipher: by key, nonce, text and associated data. `none` is an authentication failure.
pub record Cipher : Type 0 where
  pub encrypt : Bytes → Bytes → Bytes → Bytes → Bytes
  pub decrypt : Bytes → Bytes → Bytes → Bytes → Option Bytes
  pub decrypt-encrypt :
      (key nonce plaintext header : Bytes)
      → decrypt key nonce (encrypt key nonce plaintext header) header ≡ some plaintext

pub record VoiceBox : Type 0 where
  pub mode : Mode
  pub secret_key : Bytes

abbrev pub mode_name : Mode → String
mode_name aead_aes256_gcm_rtpsize = "aead_aes256_gcm_rtpsize"
mode_name aead_xchacha20_poly1305_rtpsize = "aead_xchacha20_poly1305_rtpsize"
mode_name xsalsa20_poly1305_lite_rtpsize = "xsalsa20_poly1305_lite_rtpsize"

-- `_BOXES`, in order.
abbrev pub boxes : List Mode
boxes =
    aead_aes256_gcm_rtpsize ∷ aead_xchacha20_poly1305_rtpsize ∷ xsalsa20_poly1305_lite_rtpsize ∷ []

unfoldable pub supported_encryption_modes : List String
supported_encryption_modes = map mode_name boxes

find_box : String → List Mode → Option Mode
find_box name [] = none
find_box name (m ∷ ms) = if str_eq (mode_name m) name then some m else find_box name ms

abbrev box_of : Option Mode → Bytes → Result VoiceBox
box_of none key = err runtime_error
box_of (some m) key = ok (record { mode = m; secret_key = key })

unfoldable pub create_voice_box : String → Bytes → Result VoiceBox
unfolding find_box
create_voice_box name key = box_of (find_box name boxes) key

-- The zero bytes that fill a nonce of 12 or 24 bytes.
abbrev pub nonce_padding : Mode → Bytes
nonce_padding aead_aes256_gcm_rtpsize = replicate 8 0
nonce_padding aead_xchacha20_poly1305_rtpsize = replicate 20 0
nonce_padding xsalsa20_poly1305_lite_rtpsize = replicate 20 0

-- The secretbox of the third mode takes no associated data.
abbrev pub associated : Mode → Bytes → Bytes
associated aead_aes256_gcm_rtpsize header = header
associated aead_xchacha20_poly1305_rtpsize header = header
associated xsalsa20_poly1305_lite_rtpsize header = []

-- `payload[:-4]` and `payload[-4:]`
abbrev pub before_nonce : Bytes → Bytes
before_nonce payload = take (length payload - 4) payload

abbrev pub nonce_suffix : Bytes → Bytes
nonce_suffix payload = drop (length payload - 4) payload

abbrev or_decryption_error : Option Bytes → Result Bytes
or_decryption_error none = err voice_decryption_error
or_decryption_error (some plaintext) = ok plaintext

module _ (library : Mode → Cipher) where
  -- `ciphertext || nonce4`
  unfoldable pub seal : VoiceBox → Bytes → Bytes → ℕ → Result Bytes
  seal box header plaintext nonce_counter = do
    nonce4 ← to_bytes (bit_and nonce_counter 0xffffffff) 4
    ok (
        (library box.mode).encrypt box.secret_key (nonce4 ++ nonce_padding box.mode) plaintext
          (associated box.mode header)
        ++ nonce4)

  unfoldable pub open_box : VoiceBox → Bytes → Bytes → Bytes → Result Bytes
  open_box box header ciphertext nonce4 = or_decryption_error (
      (library box.mode).decrypt box.secret_key (nonce4 ++ nonce_padding box.mode) ciphertext
        (associated box.mode header))

  -- What follows the parse in `open_packet`.
  unfoldable pub open_parsed : VoiceBox → RtpPacket → Result (RtpPacket × Bytes)
  open_parsed box packet = if ltb (length packet.payload) 4 then err voice_decryption_error else do
    plaintext ←
        open_box box packet.header (before_nonce packet.payload) (nonce_suffix packet.payload)
    ok (packet, strip_header_extension packet plaintext)

  unfoldable pub open_packet : VoiceBox → Bytes → Result (RtpPacket × Bytes)
  open_packet box bytes = do packet ← parse_rtp_packet bytes; open_parsed box packet
