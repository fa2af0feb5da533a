-- ===== src/Voice/Connection/Closing.antt =====
-- `close` of a voice connection with its parts.
pub mod Closes
use vaidcord.Base.{Bool, true, false, Option, none, some, List, [], ◌∷◌, if◌then◌else◌, is_some}
use vaidcord.Base.Action.{modify, ◌>>=◌, ◌>>◌}
use vaidcord.Base.Result.{Raised, Result, ok, err}
use vaidcord.Voice.Connection.{
  Ending, closes, Socket, Effect, closed_socket, closed_udp, player_stopped, receiver_stopped,
  task_cancelled, Connection, Method, is_open, note,
}

-- `ws.close()`, with code 1000
abbrev pub close_socket : Option Socket → Option Socket
close_socket none = none
close_socket (some s) =
    some (record s { messages = []; ending = closes (some 1000); closed = true })

-- What the awaits of `close` raise: of the receiver and of the tasks, what is not the cancellation that
-- `close` asked for and suppresses, such as the exception that a task had died of.
pub record Closers : Type 0 where
  pub receiver_stop : Option Raised
  pub reader_task : Option Raised
  pub heartbeat_task : Option Raised
  pub udp_close : Option Raised
  pub ws_close : Option Raised

abbrev pub raise_with :
    {S : Type 0} → Option Raised → Connection S → Result (Unit {0}) × Connection S
raise_with none c = (ok tt, c)
raise_with (some e) c = (err e, c)

module _ {S : Type 0} where
  -- `if self._ws is not None and not self._ws.closed: await self._ws.close()`
  unfoldable pub close_ws : Connection S → Connection S
  close_ws c = if is_open c.ws then note closed_socket (record c { ws = close_socket c.ws }) else c

  -- `if self.udp is not None: await self.udp.close(); self.udp = None`
  unfoldable pub close_udp : Connection S → Connection S
  close_udp c = if is_some c.udp then note closed_udp (record c { udp = none }) else c

  -- `_stop_reader`
  unfoldable pub stop_reader : Connection S → Connection S
  stop_reader c = if c.reader then note task_cancelled (record c { reader = false }) else c

  abbrev pub stop_player : Connection S → Connection S
  stop_player c = if c.player then note player_stopped (record c { player = false }) else c

  abbrev pub stop_receiver : Connection S → Connection S
  stop_receiver c = if c.receiver then note receiver_stopped (record c { receiver = false }) else c

  abbrev pub stop_heartbeat : Connection S → Connection S
  stop_heartbeat c =
      if is_some c.heartbeat then note task_cancelled (record c { heartbeat = none }) else c

  -- A part that is there is stopped and awaited. What it raises leaves the parts behind it, and where
  -- the attribute is set only behind the await, the part itself.
  unfoldable pub await_receiver : Closers → Method S (Unit {0})
  await_receiver closers c =
      if c.receiver then raise_with closers.receiver_stop (stop_receiver c) else (ok tt, c)

  unfoldable pub await_reader : Closers → Method S (Unit {0})
  unfolding stop_reader
  await_reader closers c =
      if c.reader then raise_with closers.reader_task (stop_reader c) else (ok tt, c)

  unfoldable pub await_heartbeat : Closers → Method S (Unit {0})
  await_heartbeat closers c =
      if is_some c.heartbeat
      then elim closers.heartbeat_task [
        | none ↦ (ok tt, stop_heartbeat c)
        | some e ↦ (err e, note task_cancelled c)
      ]
      else (ok tt, c)

  unfoldable pub await_udp : Closers → Method S (Unit {0})
  unfolding close_udp
  await_udp closers c =
      if is_some c.udp
      then elim closers.udp_close [ none ↦ (ok tt, close_udp c) | some e ↦ (err e, c) ]
      else (ok tt, c)

  unfoldable pub await_ws : Closers → Method S (Unit {0})
  unfolding close_ws
  await_ws closers c =
      if is_open c.ws
      then elim closers.ws_close [ none ↦ (ok tt, close_ws c) | some e ↦ (err e, c) ]
      else (ok tt, c)

  unfoldable pub close : Closers → Method S (Unit {0})
  unfolding await_receiver await_reader await_heartbeat await_udp await_ws
  close closers = do
    modify (λ c. stop_player (record c { closing = true }))
    await_receiver closers
    await_reader closers
    await_heartbeat closers
    await_udp closers
    await_ws closers
