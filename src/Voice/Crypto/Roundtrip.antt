-- ===== src/Voice/Crypto/Roundtrip.antt =====
-- What one side seals the other opens.
use vaidcord.Base.{
  ℕ, ◌-◌, ◌≤◌, ◌≡◌, ◌∙◌, ap, false, ◌++◌, length, take-append, drop-append, length-append, bit_and,
  ltb, arith,
}
use vaidcord.Base.Bytes.{Bytes, to_bytes, low_bytes, length-low_bytes}
use vaidcord.Base.Bits.{bit_and_mask}
use vaidcord.Base.Result.{ok}
use vaidcord.Voice.Rtp.{RtpPacket, strip_header_extension}
use vaidcord.Voice.Crypto.{
  Mode, Cipher, VoiceBox, seal, open_box, open_parsed, nonce_padding, associated, before_nonce,
  nonce_suffix,
}

masked_fits : (n : ℕ) → to_bytes (bit_and n 0xffffffff) 4 ≡ ok (low_bytes 4 (bit_and n 0xffffffff))
unfolding to_bytes
masked_fits n = ground (arith, bit_and_mask 32 n)

before_nonce-append :
    (text nonce4 : Bytes) → length nonce4 ≡ 4 → before_nonce (text ++ nonce4) ≡ text
before_nonce-append text nonce4 h =
    take-append (length (text ++ nonce4) - 4) text nonce4 (omega (arith, length-append text nonce4))

nonce_suffix-append :
    (text nonce4 : Bytes) → length nonce4 ≡ 4 → nonce_suffix (text ++ nonce4) ≡ nonce4
nonce_suffix-append text nonce4 h =
    drop-append (length (text ++ nonce4) - 4) text nonce4 (omega (arith, length-append text nonce4))

module _ (library : Mode → Cipher) where
  -- Sealing never raises: the counter is cut to four bytes.
  abbrev pub ciphertext : VoiceBox → Bytes → Bytes → ℕ → Bytes
  ciphertext box header plaintext n =
      (library box.mode).encrypt box.secret_key
        (low_bytes 4 (bit_and n 0xffffffff) ++ nonce_padding box.mode) plaintext
        (associated box.mode header)

  pub seal_lem :
      (box : VoiceBox) (header plaintext : Bytes) (n : ℕ)
      → seal library box header plaintext n
        ≡ ok (ciphertext box header plaintext n ++ low_bytes 4 (bit_and n 0xffffffff))
  unfolding seal
  seal_lem box header plaintext n = rw masked_fits

  open_box-sealed :
      (box : VoiceBox) (header plaintext : Bytes) (n : ℕ)
      → open_box library box header
          (ciphertext box header plaintext n)
          (low_bytes 4 (bit_and n 0xffffffff))
        ≡ ok plaintext
  unfolding open_box
  open_box-sealed box header plaintext n = rw (library box.mode).decrypt-encrypt

  opened_payload :
      (box : VoiceBox) (header payload plaintext : Bytes) (n : ℕ)
      → seal library box header plaintext n ≡ ok payload
      → (4 ≤ length payload)
        × (open_box library box header (before_nonce payload) (nonce_suffix payload) ≡ ok plaintext)
  opened_payload box header payload plaintext n sealed =
      let text = ciphertext box header plaintext n in
      let nonce4 = low_bytes 4 (bit_and n 0xffffffff) in
      let four = length-low_bytes 4 (bit_and n 0xffffffff) in
      let e : payload ≡ text ++ nonce4 = cc (seal_lem box header plaintext n) in
      (
        omega (arith, ap length e, length-append text nonce4),
        ap (λ p. open_box library box header (before_nonce p) (nonce_suffix p)) e
            ∙ ap (λ t. open_box library box header t (nonce_suffix (text ++ nonce4)))
                (before_nonce-append text nonce4 four)
            ∙ ap (λ s. open_box library box header text s) (nonce_suffix-append text nonce4 four)
            ∙ open_box-sealed box header plaintext n,
      )

  -- A parsed packet without an extension whose payload was sealed with its header under the same box
  -- opens to the plaintext, for every mode and counter.
  pub open_parsed-seal :
      (box : VoiceBox) (packet : RtpPacket) (plaintext : Bytes) (n : ℕ)
      → packet.extension ≡ false
      → seal library box packet.header plaintext n ≡ ok packet.payload
      → open_parsed library box packet ≡ ok (packet, plaintext)
  unfolding open_parsed strip_header_extension
  open_parsed-seal box packet plaintext n plain sealed =
      let (long, opened) = opened_payload box packet.header packet.payload plaintext n sealed in
      let fits : ltb (length packet.payload) 4 ≡ false = ground arith in rw (fits, opened, plain)
