-- ===== src/Voice/Sender/Examples.antt =====
-- The RTP parser, the boxes and the sender at concrete inputs, over a cipher that changes nothing.
use vaidcord.Base.{ℕ, ◌≡◌, refl, none, some, [], ◌∷◌, ◌++◌, replicate, arith}
use vaidcord.Base.Bytes.{Bytes, to_bytes, low_bytes}
use vaidcord.Base.Result.{Result, ok}
use vaidcord.Voice.Rtp.{packet_of}
use vaidcord.Voice.Crypto.{Mode, Cipher, VoiceBox, aead_aes256_gcm_rtpsize, seal, open_packet}
use vaidcord.Voice.Sender.{
  VoiceConnection, rtp_header, build_rtp_packet, datagram, encrypt_voice_payload, send_audio_frame,
  send_silence_frames,
}
use vaidcord.Voice.Sender.Roundtrip.{open_packet-seal}
use vaidcord.Voice.Sender.Counters.{Fits, After, send_silence_frames-After}

abbrev plain : Mode → Cipher
plain m = record {
  encrypt = λ key nonce text header. text;
  decrypt = λ key nonce text header. some text;
  decrypt-encrypt = λ key nonce text header. refl;
}

abbrev keep : ℕ → Bytes → Result Bytes
keep ssrc frame = ok frame

abbrev box : VoiceBox
box = record { mode = aead_aes256_gcm_rtpsize; secret_key = replicate 32 1 }

abbrev header : Bytes
header = 128 ∷ 120 ∷ 0 ∷ 5 ∷ 0 ∷ 0 ∷ 3 ∷ 192 ∷ 0 ∷ 0 ∷ 0 ∷ 9 ∷ []

-- One CSRC entry is announced and missing.
abbrev truncated : Bytes
truncated = 129 ∷ 120 ∷ 0 ∷ 5 ∷ 0 ∷ 0 ∷ 3 ∷ 192 ∷ 0 ∷ 0 ∷ 0 ∷ 9 ∷ []

header_built : rtp_header 120 5 960 9 ≡ ok header
unfolding rtp_header to_bytes low_bytes
header_built = refl

sealed_frame : seal plain box header (1 ∷ 2 ∷ 3 ∷ []) 7 ≡ ok (1 ∷ 2 ∷ 3 ∷ 0 ∷ 0 ∷ 0 ∷ 7 ∷ [])
unfolding seal to_bytes low_bytes
sealed_frame = refl

abbrev connection : VoiceConnection
connection = record {
  ready = some 9;
  session_description = none;
  udp = some [];
  rtp_sequence = 65535;
  rtp_timestamp = 0;
  rtp_nonce = 4294967295;
  voice_box = none;
}

connection-Fits : Fits connection
connection-Fits = omega arith

abbrev after_two : VoiceConnection
after_two = record connection {
  udp = some (
      (128 ∷ 120 ∷ 0 ∷ 0 ∷ 0 ∷ 0 ∷ 3 ∷ 192 ∷ 0 ∷ 0 ∷ 0 ∷ 9 ∷ 248 ∷ [])
      ∷ (128 ∷ 120 ∷ 255 ∷ 255 ∷ 0 ∷ 0 ∷ 0 ∷ 0 ∷ 0 ∷ 0 ∷ 0 ∷ 9 ∷ 248 ∷ [])
      ∷ []);
  rtp_sequence = 1;
  rtp_timestamp = 1920;
  rtp_nonce = 1;
}

two_frames : send_silence_frames plain keep 2 (248 ∷ []) 960 120 connection ≡ ok after_two
unfolding send_silence_frames send_audio_frame datagram build_rtp_packet rtp_header
    encrypt_voice_payload to_bytes low_bytes
two_frames = refl

open_packet-seal_example :
    let p = packet_of (header ++ 1 ∷ 2 ∷ 3 ∷ 0 ∷ 0 ∷ 0 ∷ 7 ∷ []) in
    (open_packet plain box (header ++ 1 ∷ 2 ∷ 3 ∷ 0 ∷ 0 ∷ 0 ∷ 7 ∷ []) ≡ ok (p, 1 ∷ 2 ∷ 3 ∷ []))
    × (p.ssrc ≡ 9)
    × (p.sequence ≡ 5)
open_packet-seal_example =
    open_packet-seal plain box 120 5 960 9 7 (1 ∷ 2 ∷ 3 ∷ []) header_built sealed_frame

send_silence_frames-After_example : After 960 2 connection after_two
send_silence_frames-After_example =
    send_silence_frames-After plain keep 2 (248 ∷ []) 960 120 connection connection-Fits two_frames
