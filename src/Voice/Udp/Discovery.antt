-- ===== src/Voice/Udp/Discovery.antt =====
-- The address that IP discovery reads off an answer.
mod Examples
use vaidcord.Base.{
  ℕ, zero, suc, ◌+◌, ◌-◌, ◌^◌, ◌<◌, ◌≤◌, ◌≡◌, ◌≢◌, refl, ap, sym, ◌∙◌, Bool, true, false, not, ◌&&◌,
  ◌||◌, List, [], ◌∷◌, ◌++◌, length, take, drop, replicate, ltb, ◌==◌, arith, if◌then◌else◌,
  length-append, take-append, drop-append,
}
use vaidcord.Base.Bytes.{
  Bytes, to_bytes, low_bytes, from_bytes, from_bytes-low_bytes, length-low_bytes,
}
use vaidcord.Base.Result.{Result, ok, err, value_error}
use vaidcord.Voice.Rtp.{unpack_at}
use vaidcord.Voice.Udp.{
  before_zero, is_ascii, decode_ascii, build_ip_discovery_packet, parse_ip_discovery_response,
}

-- An answer as Discord documents it: type 2, length 70, the SSRC, the address filled up with zeros to
-- 64 bytes, and the port.
abbrev pub answer : ℕ → Bytes → ℕ → Bytes
answer ssrc address port =
    0
    ∷ 2
    ∷ 0
    ∷ 70
    ∷ (low_bytes 4 ssrc ++ ((address ++ replicate (64 - length address) 0) ++ low_bytes 2 port))

-- No zero byte, as in the text of an address.
abbrev pub is_text : Bytes → Bool
is_text [] = true
is_text (b ∷ bytes) = not (b == 0) && is_text bytes

before_zero-append :
    (address : Bytes) (n : ℕ)
    → is_text address ≡ true
    → before_zero (address ++ replicate n 0) ≡ address
unfolding before_zero
before_zero-append [] zero h = refl
before_zero-append [] (suc n) h = refl
before_zero-append (b ∷ address) n h = ground (arith, h, before_zero-append address n)

length-replicate : (n b : ℕ) → length (replicate n b) ≡ n
length-replicate zero b = refl
length-replicate (suc n) b = ap suc (length-replicate n b)

filled_length :
    (address : Bytes)
    → length address ≤ 64
    → length (address ++ replicate (64 - length address) 0) ≡ 64
filled_length address h = omega (
  arith,
  length-append address (replicate (64 - length address) 0),
  length-replicate (64 - length address) 0,
)

field : Bytes → Bytes
field address = address ++ replicate (64 - length address) 0

length-answer :
    (ssrc port : ℕ) (address : Bytes) → length address ≤ 64 → length (answer ssrc address port) ≡ 74
unfolding low_bytes field
length-answer ssrc port address h =
    omega (arith, length-append (field address) (low_bytes 2 port), filled_length address h)

answer_address :
    (ssrc port : ℕ) (address : Bytes)
    → length address ≤ 64
    → take 64 (drop 8 (answer ssrc address port)) ≡ field address
unfolding low_bytes field
answer_address ssrc port address h =
    take-append 64 (field address) (low_bytes 2 port) (filled_length address h)

answer_port :
    (ssrc port : ℕ) (address : Bytes)
    → length address ≤ 64
    → port < 2 ^ 16
    → unpack_at 72 2 (answer ssrc address port) ≡ port
unfolding low_bytes field
answer_port ssrc port address h fits =
    ap (λ (r : Bytes). from_bytes (take 2 r))
      (drop-append 64 (field address) (low_bytes 2 port) (filled_length address h))
    ∙ from_bytes-low_bytes 2 port fits

request-eq :
    (ssrc : ℕ) {request : Bytes}
    → build_ip_discovery_packet ssrc ≡ ok request
    → request ≡ 0 ∷ 1 ∷ 0 ∷ 70 ∷ (low_bytes 4 ssrc ++ replicate 66 0)
unfolding build_ip_discovery_packet to_bytes
request-eq ssrc h = ground arith

-- Every address of at most 64 ASCII characters and every port that an answer carries is read back,
-- whatever SSRC it names; and the request that is sent is itself no answer: parsing it raises.
pub parse_ip_discovery_response-answer :
    (ssrc port : ℕ) (address : Bytes) {request : Bytes}
    → length address ≤ 64
    → port < 2 ^ 16
    → is_ascii address ≡ true
    → is_text address ≡ true
    → build_ip_discovery_packet ssrc ≡ ok request
    → (parse_ip_discovery_response (answer ssrc address port) ≡ ok (address, port))
      × (parse_ip_discovery_response request ≡ err value_error)
unfolding parse_ip_discovery_response decode_ascii from_bytes field low_bytes
parse_ip_discovery_response-answer ssrc port address {request} h fits a t b = (
  simp (
    parse_ip_discovery_response,
    length-answer ssrc port address h,
    answer_address ssrc port address h,
    before_zero-append address (64 - length address) t,
    decode_ascii,
    a,
    answer_port ssrc port address h fits,
  ),
  rw (request-eq ssrc b) refl,
)
