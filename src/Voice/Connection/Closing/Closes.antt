-- ===== src/Voice/Connection/Closing/Closes.antt =====
-- What `close` leaves of a voice connection.
use mathlib.Core.Path.{subst}
use vaidcord.Base.{◌≡◌, ◌⊎◌, inl, inr, refl, true, false, none, arith}
use vaidcord.Base.Action.{◌>>◌, >>=-ok, >>=-err}
use vaidcord.Base.Result.{Raised, Result, ok, err, runtime_error, Result-cases}
use vaidcord.Voice.Connection.{Frame, Connection, Services, Method, is_open, send}
use vaidcord.Voice.Connection.Closing.{
  Closers, close_ws, close_udp, stop_reader, stop_player, await_receiver, await_reader,
  await_heartbeat, await_udp, await_ws, close,
}

-- The parts that are gone, one more with each step.
module _ {S : Type 0} (c : Connection S) where
  abbrev pub NoPlayer : Type 0
  NoPlayer = (c.closing ≡ true) × (c.player ≡ false)

  abbrev pub NoReceiver : Type 0
  NoReceiver = NoPlayer × (c.receiver ≡ false)

  abbrev pub NoReader : Type 0
  NoReader = NoReceiver × (c.reader ≡ false)

  abbrev pub NoHeartbeat : Type 0
  NoHeartbeat = NoReader × (c.heartbeat ≡ none)

  abbrev pub NoUdp : Type 0
  NoUdp = NoHeartbeat × (c.udp ≡ none)

  -- No part of the connection is left.
  abbrev pub IsClosed : Type 0
  IsClosed = NoUdp × (is_open c.ws ≡ false)

module _ {S : Type 0} where
  -- What an await of `close` comes to: a part less, or an exception.
  abbrev Awaited : (Connection S → Type 0) → Result (Unit {0}) × Connection S → Type 0
  Awaited P (ok u, c) = P c
  Awaited P (err e, c) = c.closing ≡ true

  >>-Awaited :
      (P Q : Connection S → Type 0) (m n : Method S (Unit {0})) (c : Connection S)
      → Awaited P (m c)
      → ((c' : Connection S) → P c' → Awaited Q (n c'))
      → Awaited Q ((m >> n) c)
  >>-Awaited P Q m n c h next = elim (Result-cases (m c).0) [
    | inl (u, e) ↦
        rw (>>=-ok m (λ u. n) c u e) (next (m c).1 (subst (λ r. Awaited P (r, (m c).1)) e h))
    | inr (x, e) ↦ rw (>>=-err m (λ u. n) c x e) (subst (λ r. Awaited P (r, (m c).1)) e h)
  ]

  await_receiver-Awaited :
      (closers : Closers) (c : Connection S)
      → NoPlayer c
      → Awaited (λ c. NoReceiver c) (await_receiver closers c)
  unfolding await_receiver
  await_receiver-Awaited closers c h = ground (arith, h)

  await_reader-Awaited :
      (closers : Closers) (c : Connection S)
      → NoReceiver c
      → Awaited (λ c. NoReader c) (await_reader closers c)
  unfolding await_reader stop_reader
  await_reader-Awaited closers c h = ground (arith, h)

  await_heartbeat-Awaited :
      (closers : Closers) (c : Connection S)
      → NoReader c
      → Awaited (λ c. NoHeartbeat c) (await_heartbeat closers c)
  unfolding await_heartbeat
  await_heartbeat-Awaited closers c h = ground (arith, h)

  await_udp-Awaited :
      (closers : Closers) (c : Connection S)
      → NoHeartbeat c
      → Awaited (λ c. NoUdp c) (await_udp closers c)
  unfolding await_udp close_udp
  await_udp-Awaited closers c h = ground (arith, h)

  await_ws-Awaited :
      (closers : Closers) (c : Connection S)
      → NoUdp c
      → Awaited (λ c. IsClosed c) (await_ws closers c)
  unfolding await_ws close_ws
  await_ws-Awaited closers c h = ground (arith, h)

  stop_player-NoPlayer : (c : Connection S) → NoPlayer (stop_player (record c { closing = true }))
  stop_player-NoPlayer c = ground arith

  close-Awaited :
      (closers : Closers) (c : Connection S) → Awaited (λ c. IsClosed c) (close closers c)
  unfolding close
  close-Awaited closers c =
      let udp : (c : Connection S)
          → NoHeartbeat c
          → Awaited (λ c. IsClosed c) ((await_udp closers >> await_ws closers) c) =
        λ c h.
          >>-Awaited (λ c. NoUdp c) (λ c. IsClosed c) (await_udp closers) (await_ws closers) c
            (await_udp-Awaited closers c h) (await_ws-Awaited closers) in
      let heartbeat : (c : Connection S)
          → NoReader c
          → Awaited (λ c. IsClosed c)
              ((await_heartbeat closers >> (await_udp closers >> await_ws closers)) c) =
        λ c h.
          >>-Awaited (λ c. NoHeartbeat c) (λ c. IsClosed c) (await_heartbeat closers)
            (await_udp closers >> await_ws closers) c (await_heartbeat-Awaited closers c h) udp in
      let reader : (c : Connection S)
          → NoReceiver c
          → Awaited (λ c. IsClosed c)
              ((await_reader closers
                  >> (await_heartbeat closers >> (await_udp closers >> await_ws closers)))
                c) =
        λ c h.
          >>-Awaited (λ c. NoReader c) (λ c. IsClosed c) (await_reader closers)
            (await_heartbeat closers >> (await_udp closers >> await_ws closers)) c
            (await_reader-Awaited closers c h) heartbeat in
      let c1 = stop_player (record c { closing = true }) in
      >>-Awaited (λ c. NoReceiver c) (λ c. IsClosed c) (await_receiver closers)
        (await_reader closers
          >> (await_heartbeat closers >> (await_udp closers >> await_ws closers)))
        c1 (await_receiver-Awaited closers c1 (stop_player-NoPlayer c)) reader

  IsClosed-close :
      (closers : Closers) (c : Connection S) → IsClosed c → close closers c ≡ (ok tt, c)
  unfolding close await_receiver await_reader await_heartbeat await_udp await_ws
  IsClosed-close closers c h = ground (arith, h)

  send_closed :
      (services : Services) (frame : Frame) (c : Connection S)
      → IsClosed c
      → send services frame c ≡ (err runtime_error, c)
  unfolding send
  send_closed services frame c (h, o) = rw (send, o) refl

  -- Where `close` returns it leaves the connection closing, with no player, no receiver, no reader, no
  -- heartbeat, no UDP client and no open websocket; nothing is sent any more, and closing it again
  -- returns and does nothing, whatever the awaits would raise. Where an await raises, of a task that had
  -- died or of a client, the connection is at least marked as closing.
  pub close-IsClosed-send :
      (services : Services) (closers again : Closers) (frame : Frame) (c : Connection S)
      → let (result, c') = close closers c in
        ((result ≡ ok tt)
          × IsClosed c'
          × (send services frame c' ≡ (err runtime_error, c'))
          × (close again c' ≡ (ok tt, c')))
        ⊎ ((e : Raised) × (result ≡ err e) × (c'.closing ≡ true))
  close-IsClosed-send services closers again frame c =
      let c' = (close closers c).1 in
      elim (Result-cases (close closers c).0) [
        | inl (u, e) ↦
            let closed =
              subst (λ r. Awaited (λ c. IsClosed c) (r, c')) e (close-Awaited closers c) in
            inl (e, closed, send_closed services frame c' closed, IsClosed-close again c' closed)
        | inr (x, e) ↦
            inr (x, e, subst (λ r. Awaited (λ c. IsClosed c) (r, c')) e (close-Awaited closers c))
      ]
