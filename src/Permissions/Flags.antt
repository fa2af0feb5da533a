-- ===== src/Permissions/Flags.antt =====
-- `class Permissions(IntFlag)` of vaidcord-py/src/vaidcord/permissions.py: the named flags, the
-- operations of the class on the integer value, and the groups of flags it lists.
use vaidcord.Base.{ℕ, ◌+◌, ◌-◌, ◌^◌, bit_and, bit_or, max, Bool, List, [], ◌∷◌, foldl, ◌==◌}
use vaidcord.Base.Bits.{bit_length}

pub data Flag : Type 0 where
  create_instant_invite kick_members ban_members administrator manage_channels : Flag
  manage_guild add_reactions view_audit_log priority_speaker stream view_channel : Flag
  send_messages send_tts_messages manage_messages embed_links attach_files : Flag
  read_message_history mention_everyone use_external_emojis view_guild_insights connect : Flag
  speak mute_members deafen_members move_members use_vad change_nickname : Flag
  manage_nicknames manage_roles manage_webhooks manage_guild_expressions : Flag
  use_application_commands request_to_speak manage_events manage_threads : Flag
  create_public_threads create_private_threads use_external_stickers : Flag
  send_messages_in_threads use_embedded_activities moderate_members : Flag
  view_creator_monetization_analytics use_soundboard create_guild_expressions : Flag
  create_events use_external_sounds send_voice_messages set_voice_channel_status : Flag
  send_polls use_external_apps pin_messages bypass_slowmode : Flag

-- The shift `n` in `NAME = 1 << n`.
abbrev pub position : Flag → ℕ
position create_instant_invite = 0
position kick_members = 1
position ban_members = 2
position administrator = 3
position manage_channels = 4
position manage_guild = 5
position add_reactions = 6
position view_audit_log = 7
position priority_speaker = 8
position stream = 9
position view_channel = 10
position send_messages = 11
position send_tts_messages = 12
position manage_messages = 13
position embed_links = 14
position attach_files = 15
position read_message_history = 16
position mention_everyone = 17
position use_external_emojis = 18
position view_guild_insights = 19
position connect = 20
position speak = 21
position mute_members = 22
position deafen_members = 23
position move_members = 24
position use_vad = 25
position change_nickname = 26
position manage_nicknames = 27
position manage_roles = 28
position manage_webhooks = 29
position manage_guild_expressions = 30
position use_application_commands = 31
position request_to_speak = 32
position manage_events = 33
position manage_threads = 34
position create_public_threads = 35
position create_private_threads = 36
position use_external_stickers = 37
position send_messages_in_threads = 38
position use_embedded_activities = 39
position moderate_members = 40
position view_creator_monetization_analytics = 41
position use_soundboard = 42
position create_guild_expressions = 43
position create_events = 44
position use_external_sounds = 45
position send_voice_messages = 46
position set_voice_channel_status = 48
position send_polls = 49
position use_external_apps = 50
position pin_messages = 51
position bypass_slowmode = 52

abbrev pub flag : Flag → ℕ
flag f = 2 ^ position f

-- `for perm in cls`, in declaration order.
abbrev pub members : List Flag
members =
    create_instant_invite ∷ kick_members ∷ ban_members ∷ administrator ∷ manage_channels
    ∷ manage_guild ∷ add_reactions ∷ view_audit_log ∷ priority_speaker ∷ stream ∷ view_channel
    ∷ send_messages ∷ send_tts_messages ∷ manage_messages ∷ embed_links ∷ attach_files
    ∷ read_message_history ∷ mention_everyone ∷ use_external_emojis ∷ view_guild_insights ∷ connect
    ∷ speak ∷ mute_members ∷ deafen_members ∷ move_members ∷ use_vad ∷ change_nickname
    ∷ manage_nicknames ∷ manage_roles ∷ manage_webhooks ∷ manage_guild_expressions
    ∷ use_application_commands ∷ request_to_speak ∷ manage_events ∷ manage_threads
    ∷ create_public_threads ∷ create_private_threads ∷ use_external_stickers
    ∷ send_messages_in_threads ∷ use_embedded_activities ∷ moderate_members
    ∷ view_creator_monetization_analytics ∷ use_soundboard ∷ create_guild_expressions
    ∷ create_events ∷ use_external_sounds ∷ send_voice_messages ∷ set_voice_channel_status
    ∷ send_polls ∷ use_external_apps ∷ pin_messages ∷ bypass_slowmode ∷ []

-- A set of permissions is the value of an `IntFlag`, a natural number; its boundary is `KEEP`, so
-- unnamed bits stay.
abbrev pub Permissions : Type 0
Permissions = ℕ

-- `a | b | …`
abbrev pub union : List Flag → Permissions
union fs = foldl (λ acc f. bit_or acc (flag f)) 0 fs

unfoldable pub has : Permissions → Permissions → Bool
has p other = bit_and p other == other

unfoldable pub add : Permissions → Permissions → Permissions
add p other = bit_or p other

-- `~other` of an `IntFlag` with boundary `KEEP`: the negative `~value` is taken modulo
-- `max(all_bits + 1, 2 ** (~value).bit_length())`, where `all_bits + 1` is `1 << 53`.
unfoldable pub width : Permissions → ℕ
width other = max 53 (bit_length (other + 1))

unfoldable pub invert : Permissions → Permissions
invert other = 2 ^ width other - 1 - other

unfoldable pub remove : Permissions → Permissions → Permissions
unfolding invert
remove p other = bit_and p (invert other)

abbrev pub no_permissions : Permissions
no_permissions = 0

-- `Permissions.all`, the loop over the members.
unfoldable pub all_permissions : Permissions
all_permissions = foldl (λ acc f. bit_or acc (flag f)) 0 members

unfoldable pub text_channel_permissions : List Flag
text_channel_permissions =
    create_instant_invite ∷ manage_channels ∷ add_reactions ∷ view_channel ∷ send_messages
    ∷ send_tts_messages ∷ manage_messages ∷ embed_links ∷ attach_files ∷ read_message_history
    ∷ mention_everyone ∷ use_external_emojis ∷ use_application_commands ∷ manage_threads
    ∷ create_public_threads ∷ create_private_threads ∷ use_external_stickers
    ∷ send_messages_in_threads ∷ use_embedded_activities ∷ moderate_members ∷ send_voice_messages
    ∷ send_polls ∷ use_external_apps ∷ pin_messages ∷ bypass_slowmode ∷ []

unfoldable pub voice_channel_permissions : List Flag
voice_channel_permissions =
    create_instant_invite ∷ manage_channels ∷ add_reactions ∷ view_channel ∷ send_messages
    ∷ send_tts_messages ∷ manage_messages ∷ embed_links ∷ attach_files ∷ read_message_history
    ∷ mention_everyone ∷ use_external_emojis ∷ connect ∷ speak ∷ mute_members ∷ deafen_members
    ∷ move_members ∷ use_vad ∷ use_application_commands ∷ manage_events ∷ use_embedded_activities
    ∷ moderate_members ∷ use_soundboard ∷ use_external_sounds ∷ send_voice_messages
    ∷ set_voice_channel_status ∷ send_polls ∷ use_external_apps ∷ bypass_slowmode ∷ []

unfoldable pub stage_channel_permissions : List Flag
stage_channel_permissions =
    create_instant_invite ∷ manage_channels ∷ add_reactions ∷ view_channel ∷ send_messages
    ∷ send_tts_messages ∷ manage_messages ∷ embed_links ∷ attach_files ∷ read_message_history
    ∷ mention_everyone ∷ use_external_emojis ∷ stream ∷ connect ∷ speak ∷ mute_members
    ∷ deafen_members ∷ move_members ∷ use_vad ∷ request_to_speak ∷ manage_events ∷ create_events
    ∷ use_application_commands ∷ moderate_members ∷ use_soundboard ∷ use_external_sounds
    ∷ send_voice_messages ∷ send_polls ∷ use_external_apps ∷ bypass_slowmode ∷ []

unfoldable pub administrative_permissions : List Flag
administrative_permissions =
    kick_members ∷ ban_members ∷ administrator ∷ manage_channels ∷ manage_guild ∷ manage_messages
    ∷ manage_roles ∷ manage_webhooks ∷ manage_guild_expressions ∷ manage_threads
    ∷ view_creator_monetization_analytics ∷ []

unfoldable pub default_permissions : Permissions
default_permissions = union (
    create_instant_invite ∷ add_reactions ∷ view_channel ∷ send_messages ∷ send_tts_messages
    ∷ embed_links ∷ attach_files ∷ read_message_history ∷ mention_everyone ∷ use_external_emojis
    ∷ connect ∷ speak ∷ use_vad ∷ change_nickname ∷ use_application_commands ∷ use_external_stickers
    ∷ send_messages_in_threads ∷ use_embedded_activities ∷ create_guild_expressions ∷ create_events
    ∷ send_voice_messages ∷ send_polls ∷ use_external_apps ∷ [])
