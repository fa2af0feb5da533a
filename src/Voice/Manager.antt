-- ===== src/Voice/Manager.antt =====
-- `class VoiceManager` in vaidcord-py/src/vaidcord/voice/connection.py, with `VoiceState` and
-- `VoiceServerUpdate` of models.py: the voice updates of the main gateway, and joining a channel.
pub mod Join
pub mod Registry
mod Examples
use Prim.Native.String.{String}
use vaidcord.Base.{
  ℕ, Bool, true, false, Option, none, some, List, [], ◌∷◌, if◌then◌else◌, foldl, ◌==◌,
}
use vaidcord.Base.Dict.{nat_key, lookup, insert, erase}
use vaidcord.Base.Result.{Result, ok, err, other_error}

pub record VoiceState : Type 0 where
  pub guild_id : ℕ
  pub channel_id : Option ℕ
  pub user_id : Option ℕ
  pub session_id : Option String

pub record VoiceServerUpdate : Type 0 where
  pub guild_id : ℕ
  pub token : String
  pub endpoint : String

-- The updates that the manager is given: a voice state, whose session id is none where it is missing
-- or empty, a voice server, or any other. Ids are numbers and no key that is read is missing.
pub data Update : Type 0 where
  state_update : VoiceState → Update
  server_update : VoiceServerUpdate → Update
  other_update : Update

-- What the manager asks for: joining and leaving through the main gateway, and moving a connection.
pub data Request : Type 0 where
  join : ℕ → ℕ → Bool → Bool → Request
  leave : ℕ → Request
  migrate : VoiceServerUpdate → Request
  close : ℕ → Request

-- Connections are named by numbers; a waiter is whether the guild's event is set.
pub record VoiceManager : Type 0 where
  pub states : List (ℕ × VoiceState)
  pub servers : List (ℕ × VoiceServerUpdate)
  pub waiters : List (ℕ × Bool)
  pub connections : List (ℕ × ℕ)
  pub requests : List Request

-- `_event_for(guild_id).set()` and `.clear()`, which make the event where there is none.
unfoldable pub set_event : ℕ → Bool → VoiceManager → VoiceManager
set_event guild flag m = record m { waiters = insert guild flag m.waiters }

abbrev pub is_set : ℕ → VoiceManager → Bool
is_set guild m = elim (lookup guild m.waiters) [ none ↦ false | some flag ↦ flag ]

-- `connection is not None and connection.is_connected`
abbrev pub is_live : (ℕ → Bool) → Option ℕ → Bool
is_live is_connected none = false
is_live is_connected (some c) = is_connected c

abbrev pub request : Request → VoiceManager → VoiceManager
request r m = record m { requests = r ∷ m.requests }

-- `state is not None and server is not None`
abbrev pub both :
    Option VoiceState → Option VoiceServerUpdate → Option (VoiceState × VoiceServerUpdate)
both none v = none
both (some s) none = none
both (some s) (some v) = some (s, v)

unfoldable pub arrived : ℕ → VoiceManager → Option (VoiceState × VoiceServerUpdate)
arrived guild m = both (lookup guild m.states) (lookup guild m.servers)

-- `pop`, `pop`, `clear`
unfoldable pub forget_arrived : ℕ → VoiceManager → VoiceManager
unfolding set_event
forget_arrived guild m =
    set_event guild false
      (record m { states = erase guild m.states; servers = erase guild m.servers })

-- `_forget`
unfoldable pub forget : ℕ → ℕ → VoiceManager → VoiceManager
forget guild c m = elim (lookup guild m.connections) [
  | none ↦ m
  | some d ↦ elim (c == d) [
    | true ↦ record m { connections = erase guild m.connections }
    | false ↦ m
  ]
]

-- `existing.close()`, and `connection.close()` where one is there.
abbrev pub close_existing : Option ℕ → VoiceManager → VoiceManager
close_existing none m = m
close_existing (some c) m = request (close c) m

module _ (is_connected : ℕ → Bool) where
  unfoldable pub handle_state : VoiceState → VoiceManager → VoiceManager
  unfolding set_event
  handle_state s m = elim s.session_id [
    | none ↦ m
    | some id ↦ set_event s.guild_id true (record m { states = insert s.guild_id s m.states })
  ]

  unfoldable pub handle_server : VoiceServerUpdate → VoiceManager → VoiceManager
  unfolding set_event
  handle_server v m =
      let m' = set_event v.guild_id true (record m { servers = insert v.guild_id v m.servers }) in
      if is_live is_connected (lookup v.guild_id m.connections) then request (migrate v) m' else m'

  unfoldable pub handle_gateway_event : VoiceManager → Update → VoiceManager
  unfolding handle_state handle_server
  handle_gateway_event m (state_update s) = handle_state s m
  handle_gateway_event m (server_update v) = handle_server v m
  handle_gateway_event m other_update = m

  abbrev pub handle_all : List Update → VoiceManager → VoiceManager
  handle_all us m = foldl handle_gateway_event m us

  -- The rest of the loop behind a check that failed. An element of the list is what the manager is
  -- given before the waiting task can run again; where the list ends the deadline is over.
  unfoldable pub wait_loop :
      ℕ → List (List Update) → VoiceManager → Result (VoiceState × VoiceServerUpdate) × VoiceManager
  unfolding arrived set_event
  wait_loop guild [] m = (err other_error, m)
  wait_loop guild (us ∷ rounds) m =
      let m' = handle_all us m in
      elim (is_set guild m') [
        | false ↦ wait_loop guild rounds m'
        | true ↦ elim (arrived guild m') [
          | some found ↦ (ok found, set_event guild false m')
          | none ↦ wait_loop guild rounds (set_event guild false m')
        ]
      ]

  -- `during` is what the manager is given while the request is sent.
  unfoldable pub request_join :
      ℕ
      → ℕ
      → Bool
      → Bool
      → List Update
      → List (List Update)
      → VoiceManager
      → Result (VoiceState × VoiceServerUpdate) × VoiceManager
  unfolding forget_arrived arrived wait_loop
  request_join guild channel self_mute self_deaf during rounds m =
      let m' =
        handle_all during
          (request (join guild channel self_mute self_deaf) (forget_arrived guild m)) in
      elim (arrived guild m') [
        | some found ↦ (ok found, m')
        | none ↦ wait_loop guild ([] ∷ rounds) m'
      ]

  -- `connection` is the new object, `meanwhile` what the manager is given while it connects, and
  -- `outcome` how its `connect` ends.
  unfoldable pub open_connection :
      ℕ → ℕ → List Update → Result (Unit {0}) → VoiceManager → Result ℕ × VoiceManager
  open_connection guild connection meanwhile outcome m =
      let m' =
        handle_all meanwhile (record m { connections = insert guild connection m.connections }) in
      elim outcome [
        | ok u ↦ (ok connection, m')
        | err e ↦ (err e, record m' { connections = erase guild m'.connections })
      ]

  unfoldable pub connect :
      ℕ
      → ℕ
      → Bool
      → Bool
      → List Update
      → List (List Update)
      → ℕ
      → List Update
      → Result (Unit {0})
      → VoiceManager
      → Result ℕ × VoiceManager
  unfolding request_join open_connection
  connect guild channel mute deaf during rounds connection meanwhile outcome m =
      let (r, m') =
        request_join guild channel mute deaf during rounds
          (close_existing (lookup guild m.connections) m) in
      elim r [
        | err e ↦ (err e, m')
        | ok found ↦ open_connection guild connection meanwhile outcome m'
      ]

  unfoldable pub disconnect : ℕ → VoiceManager → VoiceManager
  disconnect guild m =
      close_existing (lookup guild m.connections)
        (request (leave guild) (record m { connections = erase guild m.connections }))
