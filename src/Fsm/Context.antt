-- ===== src/Fsm/Context.antt =====
-- vaidcord-py/src/vaidcord/fsm/context.py: the contexts of an event, over any storage.
pub mod Scopes
mod Examples
use vaidcord.Base.{
  ℕ, ◌≡◌, ◌==◌, Bool, true, false, Option, none, some, List, [], ◌∷◌, if◌then◌else◌, is_some,
}
use vaidcord.Base.Action.{Action, pure, ◌>>=◌}
use vaidcord.Base.Decimal.{read_decimal}
use vaidcord.Base.Dict.{lookup, insert}
use vaidcord.Base.Result.{Result, ok, err}
use vaidcord.Base.Texts.{Text}
use vaidcord.Base.Value.{Value, null, number, text, other}
use vaidcord.Fsm.Key.{
  FsmScope, user, channel, topic, guild, member, custom, scope_key, StorageKey, user_key,
  channel_key, topic_key, guild_key, member_key,
}

-- `_to_int`
unfoldable pub to_int : Option Value → Option ℕ
to_int none = none
to_int (some null) = none
to_int (some (number n)) = some n
to_int (some (text cs)) = elim (read_decimal cs) [ ok n ↦ some n | err e ↦ none ]
to_int (some (other b)) = none

-- What `_resolve_ids` reads of a message, and of an event: the ids of its objects, where it has them,
-- and the entries of its data.
pub record Message : Type 0 where
  pub author : ℕ
  pub channel : ℕ
  pub guild : Option ℕ

pub record Event : Type 0 where
  pub user : Option ℕ
  pub channel : Option ℕ
  pub guild : Option ℕ
  pub message : Option Message
  pub data_user_id : Option Value
  pub data_channel_id : Option Value
  pub data_guild_id : Option Value
  pub data_topic_id : Option Value
  pub data_thread_id : Option Value

pub record Ids : Type 0 where
  pub user_id : Option ℕ
  pub channel_id : Option ℕ
  pub guild_id : Option ℕ
  pub topic_id : Option ℕ

abbrev from_message : Option ℕ → Option ℕ → Option Value → Option ℕ
from_message (some id) in_message value = some id
from_message none (some id) value = some id
from_message none none value = to_int value

abbrev message_author : Option Message → Option ℕ
message_author none = none
message_author (some m) = some m.author

abbrev message_channel : Option Message → Option ℕ
message_channel none = none
message_channel (some m) = some m.channel

abbrev message_guild : Option Message → Option ℕ
message_guild none = none
message_guild (some m) = m.guild

-- `a or b` of two ids, of which 0 counts as none.
abbrev truthy_or : Option ℕ → Option ℕ → Option ℕ
truthy_or none b = b
truthy_or (some n) b = if n == 0 then b else some n

unfoldable pub resolve_ids : Event → Ids
resolve_ids e = record {
  user_id = from_message e.user (message_author e.message) e.data_user_id;
  channel_id = from_message e.channel (message_channel e.message) e.data_channel_id;
  guild_id = from_message e.guild (message_guild e.message) e.data_guild_id;
  topic_id = truthy_or (to_int e.data_topic_id) (to_int e.data_thread_id);
}

abbrev map_option : (ℕ → StorageKey) → Option ℕ → Option StorageKey
map_option f none = none
map_option f (some id) = some (f id)

abbrev member_of : Option ℕ → Option ℕ → Option StorageKey
member_of none u = none
member_of (some g) none = none
member_of (some g) (some u) = some (member_key g u)

-- The key of a scope, if its ids are known.
unfoldable pub key_of : Ids → FsmScope → Option StorageKey
key_of ids user = map_option user_key ids.user_id
key_of ids channel = map_option channel_key ids.channel_id
key_of ids topic = map_option topic_key ids.topic_id
key_of ids guild = map_option guild_key ids.guild_id
key_of ids member = member_of ids.guild_id ids.user_id
key_of ids custom = none

abbrev add_context :
    FsmScope → Option StorageKey → List (FsmScope × StorageKey) → List (FsmScope × StorageKey)
add_context scope none m = m
add_context scope (some key) m = insert scope key m

-- The loop of `_build_fsm_map`. A context is its key: all share the storage.
unfoldable pub build_from :
    List FsmScope → Ids → List (FsmScope × StorageKey) → List (FsmScope × StorageKey)
build_from [] ids m = m
build_from (scope ∷ scopes) ids m = build_from scopes ids (add_context scope (key_of ids scope) m)

unfoldable pub build_fsm_map : List FsmScope → Ids → List (FsmScope × StorageKey)
build_fsm_map scopes ids = build_from scopes ids []

-- The primary scope and its context: the configured scope, or else the first of the map.
unfoldable pub choose_primary :
    FsmScope → List (FsmScope × StorageKey) → Option (FsmScope × StorageKey)
choose_primary primary [] = none
choose_primary primary ((scope, key) ∷ m) = elim (lookup primary ((scope, key) ∷ m)) [
  | some found ↦ some (primary, found)
  | none ↦ some (scope, key)
]
