-- ===== src/Lib.antt =====
-- vaidcord-py: a Discord framework in Python, whose core logic is modelled here. Paths are from the root
-- of the repository; `vaidcord/` stands for vaidcord-py/src/vaidcord/.
--
-- Base: what the parts share. Result and Action are calls that raise, without and with an object that
--   they mutate: what was written before a raise stays written. Dict and Items are Python's dict in
--   insertion order; Bits and Bytes are integers as bit sets and as big-endian bytes, Int the order of
--   Python's integers, Names texts as keys; Texts are lists of character codes, Decimal is `str` and
--   `int` on plain ASCII digits.
-- Permissions: vaidcord/permissions.py. Flags are the members of the IntFlag by position, a set of
--   them a natural number, with `~` as IntFlag's KEEP boundary has it; Overwrite is
--   PermissionOverwrite; Calculator is PermissionCalculator, with records for what it reads of a guild,
--   a member and a channel; OverwriteLaws, BitLaws, Granted and Resolve are about them.
-- Voice.Rtp, Voice.Crypto, Voice.Sender: vaidcord/voice/rtp.py, crypto.py and the sending part of
--   connection.py. A sender builds a header, seals the frame under it with the box of the session and
--   sends the datagram; a receiver parses the header and opens the payload with the same box. The
--   socket is the list of the datagrams that were sent.
-- Voice.Manager: VoiceManager of voice/connection.py, which joins a channel by the updates of the main
--   gateway and keeps a connection per guild.
-- Voice.Connection: VoiceConnection of the same file as a client of the voice gateway. Policy is what
--   follows a close code; Payloads is what a message does; Closing is `close`; Handshake opens, resumes,
--   rejoins and reconnects; Reader is the loop of `_read_loop`. A socket is the messages that it still
--   brings and what it ends with; the state holds a trace of what was done.
-- Voice.Receiver, Voice.Udp, Voice.Player: voice/receive.py, the packets of udp.py, and player.py.
-- Voice.Dave: vaidcord/voice/dave. Kdf and Ratchet are crypto/kdf.py and crypto/ratchet.py, the chain
--   of a sender's keys with its cache of skipped ones; State, Backend and Controller are state.py,
--   opcodes.py, models.py, backend.py and controller.py: the controller takes the gateway's messages,
--   keeps the protocol's state and calls a backend, which has a state of its own.
-- Fsm: vaidcord/fsm. Key and State are storage/base.py and state.py; Memory is MemoryFSMStorage of
--   storage/memory.py, with Command for sequences of its operations and Abstract for a function from
--   keys that does the same; Snapshot is its export and import.
--   Context is context.py: the conversations that an event belongs to.
-- Http: vaidcord/http. Retry is retry.py and the loop of `_request_with_retry` in client.py; what an
--   attempt meets is a function of its number. The loop runs for the `max_retries` rounds of its range.
--   Request is `request` with `create_discord_error` of errors.py; RateLimit is the check of a
--   response's headers and the wait of rate_limit.py.
-- Routing: vaidcord/router.py and filters/base.py. Registry keeps handlers, filters and middleware in
--   the order in which they are tried; Memo is the cached resolution of what a router inherits, on the
--   routers from one up to its root; Filters are the filters as Boolean expressions; Kwargs picks the
--   arguments of a handler; Dispatch sends an event through a tree of routers, with its outer
--   middleware, its handlers, their filters and the inner middleware.
--   Polling is `start_polling` of dispatcher.py, for several calls at once, on bots of their own or on one.
-- Commands: vaidcord/commands.py and the command sync of bot.py. Options is the check of options and
--   the payload of a command, Sync the merge of payloads.
-- Oauth2: vaidcord/oauth2.py, a client's token with the grants that set it and `ensure_valid_token`.
-- Errors: vaidcord/errors.py, the details of an error and the close codes.
-- Mock: the ids of vaidcord/mock/snowflake.py. Formatting: vaidcord/formatting.
-- Gateway: vaidcord/gateway_runtime.py and the parts of bot.py that share its state. Connection opens,
--   identifies, resumes, beats and reconnects; Updates is the dispatch of one update; Loop is the
--   receive loop with `Bot.start` and `Bot.stop` around it. The state holds a trace of what was done,
--   and what a service answers is a function of that trace.
--
-- Names are the source's, methods without their class or leading underscore; a `-` in a theorem's name
-- joins the functions that it relates.
--
-- Parameters. HKDF-Expand gives output of the length that is asked for. A cipher opens what it sealed
-- under the same key, nonce and header. The json module reads back what it wrote. Nothing else is
-- asked of these libraries, and the examples instantiate each.
--
-- Bounds. The loop of the ratchet runs on as many rounds as generations are missing, which is what its
-- own test allows, since each round moves the generation by one. The reader of a voice connection and a
-- player run for any number of rounds, and the theorems say how they stand behind each number.
-- `decimal` runs on the number itself, which a division by ten makes smaller. Counters wrap at 16 and 32 bits as the source masks them.
--
-- Not modelled: negative integers as permission sets; `int` on texts with signs, blanks, underscores or
-- other digits, and on floats; nested mutable values in a conversation's data, which the storage copies
-- one level deep; logging, sleeps and imports that may fail; the other storages, audio sources and
-- codecs, the rest of the HTTP client, the API's data types, the mock server but its ids, and the Go
-- and Rust packages. Of the voice gateway: rounds of its heartbeat are not interleaved, ids in payloads
-- are numbers, the pauses of a player have no length, and a player is not cancelled while it finishes;
-- the main gateway takes what VoiceManager sends, and the endpoint of a voice server is not null. Of the
-- router: the entry "filter_data" of a context stands apart from it, a context belongs to the id of its
-- event, and whether a value matches an annotation is a parameter. Of the gateway: a round of the
-- heartbeat's task is taken as a whole between two messages, a task that cancels itself is cancelled at
-- its next call that waits for the network, closing a websocket raises nothing but that cancellation,
-- since aiohttp's `close` catches what the transport raises, and the task that retries the
-- synchronisation of commands, which `Bot.stop` cancels, is left out.
pub mod Base
pub mod Permissions
pub mod Voice
pub mod Fsm
pub mod Http
pub mod Routing
pub mod Gateway
pub mod Commands
pub mod Oauth2
pub mod Mock
pub mod Formatting
pub mod Errors
