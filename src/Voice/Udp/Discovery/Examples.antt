-- ===== src/Voice/Udp/Discovery/Examples.antt =====
-- IP discovery at a concrete address.
use vaidcord.Base.{◌≡◌, refl, [], ◌∷◌, replicate, arith}
use vaidcord.Base.Bytes.{Bytes, to_bytes, low_bytes}
use vaidcord.Base.Result.{ok, err, value_error}
use vaidcord.Voice.Udp.Discovery.{answer, parse_ip_discovery_response-answer}
use vaidcord.Voice.Udp.{build_ip_discovery_packet, parse_ip_discovery_response, is_ascii}

-- "192.0.2.1"
abbrev address : Bytes
address = 49 ∷ 57 ∷ 50 ∷ 46 ∷ 48 ∷ 46 ∷ 50 ∷ 46 ∷ 49 ∷ []

abbrev request : Bytes
request = 0 ∷ 1 ∷ 0 ∷ 70 ∷ 0 ∷ 0 ∷ 1 ∷ 44 ∷ replicate 66 0

request_built : build_ip_discovery_packet 300 ≡ ok request
unfolding build_ip_discovery_packet to_bytes low_bytes
request_built = refl

parse_ip_discovery_response-answer_example :
    (parse_ip_discovery_response (answer 300 address 50000) ≡ ok (address, 50000))
    × (parse_ip_discovery_response request ≡ err value_error)
unfolding is_ascii
parse_ip_discovery_response-answer_example =
    parse_ip_discovery_response-answer 300 50000 address (omega arith) (omega arith) refl refl
      request_built
