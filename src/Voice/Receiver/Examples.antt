-- ===== src/Voice/Receiver/Examples.antt =====
-- A frame received at concrete inputs, over a cipher that changes nothing.
use vaidcord.Base.{◌≡◌, refl, true, none, some, [], ◌∷◌, ◌++◌, replicate}
use vaidcord.Base.Bytes.{Bytes, to_bytes, low_bytes}
use vaidcord.Base.Result.{ok, err, runtime_error}
use vaidcord.Voice.Crypto.{Mode, Cipher, VoiceBox, aead_aes256_gcm_rtpsize, seal}
use vaidcord.Voice.Receiver.{Reads, VoiceReceiver, Services, handle_datagram}
use vaidcord.Voice.Receiver.Delivers.{handle_datagram-datagram}
use vaidcord.Voice.Sender.{VoiceConnection, SessionDescription, rtp_header, datagram}

abbrev plain : Mode → Cipher
plain m = record {
  encrypt = λ key nonce text header. text;
  decrypt = λ key nonce text header. some text;
  decrypt-encrypt = λ key nonce text header. refl;
}

abbrev services : Services (Unit {0})
services = record {
  library = plain;
  decrypt_frame = λ ssrc frame. ok frame;
  new_decoder = err runtime_error;
  decode = λ decoder frame. (ok frame, decoder);
  wants_opus = true;
  write = λ frame. none;
}

abbrev box : VoiceBox
box = record { mode = aead_aes256_gcm_rtpsize; secret_key = replicate 32 1 }

abbrev reads : Reads
reads = record { voice_box = some box; ssrc_map = (9, 77) ∷ [] }

abbrev receiver : VoiceReceiver (Unit {0})
receiver = record { decoders = []; received_frames = 4; dropped_packets = 0; written = [] }

abbrev description : SessionDescription
description = record { mode = "aead_aes256_gcm_rtpsize"; secret_key = replicate 32 1 }

abbrev sender : VoiceConnection
sender = record {
  ready = some 9;
  session_description = some description;
  udp = some [];
  rtp_sequence = 5;
  rtp_timestamp = 960;
  rtp_nonce = 7;
  voice_box = some box;
}

abbrev header : Bytes
header = 128 ∷ 120 ∷ 0 ∷ 5 ∷ 0 ∷ 0 ∷ 3 ∷ 192 ∷ 0 ∷ 0 ∷ 0 ∷ 9 ∷ []

abbrev sealed : Bytes
sealed = 1 ∷ 2 ∷ 3 ∷ 0 ∷ 0 ∷ 0 ∷ 7 ∷ []

header_built : rtp_header 120 5 960 9 ≡ ok header
unfolding rtp_header to_bytes low_bytes
header_built = refl

frame_sealed : seal plain box header (1 ∷ 2 ∷ 3 ∷ []) 7 ≡ ok sealed
unfolding seal to_bytes low_bytes
frame_sealed = refl

handle_datagram-datagram_example :
    (datagram plain (λ s. λ frame. ok frame) (1 ∷ 2 ∷ 3 ∷ []) 120 true sender
      ≡ ok (header ++ sealed, some box))
    × (handle_datagram services reads (header ++ sealed) receiver ≡ (
      ok tt,
      record receiver {
        received_frames = 5;
        written =
            record {
              ssrc = 9;
              user_id = some 77;
              sequence = 5;
              timestamp = 960;
              opus = 1 ∷ 2 ∷ 3 ∷ [];
              pcm = none;
            }
            ∷ [];
      },
    ))
handle_datagram-datagram_example =
    handle_datagram-datagram services reads 1 (2 ∷ 3 ∷ []) 120 9 description box sender receiver
      refl refl refl header_built frame_sealed refl (λ s. refl) refl (λ frame. refl)
