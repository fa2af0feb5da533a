-- ===== src/Fsm/Context/Examples.antt =====
-- The contexts of an event in a guild channel.
use vaidcord.Base.{◌≡◌, refl, none, some, List, [], ◌∷◌}
use vaidcord.Fsm.Key.{FsmScope, member, user, channel, guild, topic, scope_key, member_key}
use vaidcord.Fsm.Context.{
  Event, resolve_ids, to_int, key_of, build_from, build_fsm_map, choose_primary,
}

abbrev event : Event
event = record {
  user = none;
  channel = none;
  guild = none;
  message = some (record { author = 7; channel = 4; guild = some 3 });
  data_user_id = none;
  data_channel_id = none;
  data_guild_id = none;
  data_topic_id = none;
  data_thread_id = none;
}

abbrev scopes : List FsmScope
scopes = member ∷ user ∷ channel ∷ topic ∷ guild ∷ []

primary_of_event :
    choose_primary topic (build_fsm_map scopes (resolve_ids event)) ≡ some (member, member_key 3 7)
unfolding choose_primary build_fsm_map build_from resolve_ids key_of to_int
primary_of_event = refl
