-- ===== src/Voice/Connection/Handshake/Opens.antt =====
-- When the handshake of a voice connection succeeds, and what is there then.
use vaidcord.Base.{ℕ, ◌≡◌, true, none, some, List}
use Prim.Native.String.{String}
use vaidcord.Base.Result.{Result}
use vaidcord.Voice.Connection.{
  VoiceGatewayConfig, VoiceReady, VoiceUdpClient, ready, Socket, Effect, connected, sent,
  select_protocol_frame, discovered, Connection, Services, note,
}
use vaidcord.Voice.Dave.Backend.{DaveCryptoBackend}
use vaidcord.Voice.Dave.Controller.{Controller}
use vaidcord.Voice.Sender.{SessionDescription}

module _ {S : Type 0} (config : VoiceGatewayConfig) (services : Services) (b : DaveCryptoBackend S)
    (answers : (trace : List Effect) → services.send_json trace ≡ none) where
  -- The UDP transport of a connection that is ready and has its client.
  abbrev established : VoiceUdpClient → String → ℕ → String → Connection S → Connection S
  established v address port mode c =
      note (sent (select_protocol_frame address port mode))
        (note discovered (record c { udp = some (record v { connected = true }) }))

  -- What `handshake` leaves.
  abbrev pub Established : VoiceReady → SessionDescription → Socket → Connection S → Type 0
  Established r d s c =
      (c.ready ≡ some r)
      × (c.session_description ≡ some d)
      × (c.udp ≡ some (record { ip = r.ip; port = r.port; connected = true }))
      × (c.voice_box ≡ none)
      × (c.ws ≡ some s)
