-- ===== src/Voice/Manager/Examples.antt =====
-- Joining a channel at concrete inputs.
use vaidcord.Base.{ℕ, ◌≡◌, refl, Bool, false, none, some, List, [], ◌∷◌}
use vaidcord.Base.Dict.{nat_key}
use vaidcord.Base.Result.{ok}
use vaidcord.Voice.Manager.{
  VoiceState, VoiceServerUpdate, Update, state_update, server_update, VoiceManager, request_join,
}
use vaidcord.Voice.Manager.Join.{first_pair, request_join-first_pair}

abbrev never : ℕ → Bool
never c = false

abbrev state_of : ℕ → ℕ → VoiceState
state_of guild user = record {
  guild_id = guild;
  channel_id = some 3;
  user_id = some user;
  session_id = some "session";
}

abbrev server : VoiceServerUpdate
server = record { guild_id = 1; token = "token"; endpoint = "voice.example" }

abbrev manager : VoiceManager
manager = record {
  states = (1, state_of 1 9) ∷ [];
  servers = (1, server) ∷ [];
  waiters = [];
  connections = (1, 40) ∷ (2, 41) ∷ [];
  requests = [];
}

-- The bot's own state, then another member's, then the server.
abbrev rounds : List (List Update)
rounds =
    (state_update (state_of 1 2) ∷ [])
    ∷ (state_update (state_of 2 6) ∷ [])
    ∷ (state_update (state_of 1 5) ∷ server_update server ∷ [])
    ∷ []

-- The state of the other member is returned.
another_member : first_pair 1 (none, none) ([] ∷ rounds) ≡ ok (state_of 1 5, server)
unfolding first_pair
another_member = refl

request_join-first_pair_example :
    (request_join never 1 3 false false [] rounds manager).0 ≡ ok (state_of 1 5, server)
unfolding first_pair
request_join-first_pair_example = request_join-first_pair never 1 3 false false [] rounds manager
