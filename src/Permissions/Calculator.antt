-- ===== src/Permissions/Calculator.antt =====
-- `class PermissionCalculator`, `calculate_permissions` and `check_permission`. The guild, the
-- member and the channel are what the class reads of them: `is_owner`, `get_role` and
-- `is_timed_out` have no definition in the package, and are given by the caller's objects.
use vaidcord.Base.{ℕ, Bool, true, false, Option, none, some, List, [], ◌∷◌, if◌then◌else◌}
use vaidcord.Base.Result.{Result, ok, err, value_error, type_error, ◌>>=◌}
use vaidcord.Base.Dict.{lookup, insert, nat_key}
use vaidcord.Permissions.Flags.{
  flag, Permissions, has, add, remove, union, no_permissions, all_permissions, default_permissions,
  administrator, view_channel, read_message_history, send_messages, send_tts_messages, embed_links,
  attach_files, mention_everyone, use_external_emojis, send_messages_in_threads,
  send_voice_messages, send_polls, connect, speak, mute_members, deafen_members, move_members,
  use_vad, use_soundboard, use_external_sounds,
}
use vaidcord.Permissions.Overwrite.{
  IntOrText, to_int, from_int, PermissionOverwrite, OverwriteData, from_dict, required,
}

pub record Role : Type 0 where
  pub id : ℕ
  pub permissions : IntOrText

pub record Member : Type 0 where
  pub id : ℕ
  pub roles : List Role
  pub is_timed_out : Bool

pub record Guild : Type 0 where
  pub id : ℕ
  pub is_owner : Member → Bool
  pub get_role : ℕ → Option Role

-- An overwrite as a caller may give it: the class's object, or the API's dict.
pub data Entry : Type 0 where
  object : PermissionOverwrite → Entry
  payload : OverwriteData → Entry

pub data Overwrites : Type 0 where
  listed : List Entry → Overwrites
  mapping : List (IntOrText × Entry) → Overwrites

pub record Channel : Type 0 where
  pub guild_id : Option ℕ
  pub guild : Option Guild
  pub permission_overwrites : Option Overwrites

-- `permissions` of the @everyone role, or the default set.
unfoldable pub everyone_permissions : Option Role → Result Permissions
everyone_permissions none = ok default_permissions
everyone_permissions (some role) = from_int role.permissions

-- `for role in member.roles: permissions = permissions.add(...)`
unfoldable pub add_roles : Permissions → List Role → Result Permissions
add_roles p [] = ok p
add_roles p (role ∷ roles) = do
  role_perms ← from_int role.permissions
  add_roles (add p role_perms) roles

-- The administrator rule, then the rule for timed out members.
unfoldable pub restrict : Member → Permissions → Permissions
restrict member permissions =
    if has permissions (flag administrator)
    then all_permissions
    else if member.is_timed_out
    then add (add no_permissions (flag view_channel)) (flag read_message_history)
    else permissions

unfoldable pub compute_base_permissions : Member → Guild → Result Permissions
compute_base_permissions member guild = if guild.is_owner member then ok all_permissions else do
  everyone ← everyone_permissions (guild.get_role guild.id)
  permissions ← add_roles everyone member.roles
  ok (restrict member permissions)

entry_overwrite : Entry → Result PermissionOverwrite
entry_overwrite (object o) = ok o
entry_overwrite (payload d) = from_dict d

-- `int(overwrite_data["id"])`: an object of the class cannot be indexed.
listed_id : Entry → Result ℕ
listed_id (object o) = err type_error
listed_id (payload d) = do raw ← required d.id; to_int raw

normalize_list :
    List (ℕ × PermissionOverwrite) → List Entry → Result (List (ℕ × PermissionOverwrite))
normalize_list acc [] = ok acc
normalize_list acc (e ∷ es) = do
  id ← listed_id e
  overwrite ← entry_overwrite e
  normalize_list (insert id overwrite acc) es

normalize_mapping :
    List (ℕ × PermissionOverwrite)
    → List (IntOrText × Entry)
    → Result (List (ℕ × PermissionOverwrite))
normalize_mapping acc [] = ok acc
normalize_mapping acc ((k, e) ∷ es) = do
  id ← to_int k
  overwrite ← entry_overwrite e
  normalize_mapping (insert id overwrite acc) es

unfoldable pub normalize_overwrites : Overwrites → Result (List (ℕ × PermissionOverwrite))
unfolding normalize_list normalize_mapping listed_id entry_overwrite
normalize_overwrites (listed es) = normalize_list [] es
normalize_overwrites (mapping es) = normalize_mapping [] es

-- `channel.permission_overwrites or []`
abbrev pub or_empty : Option Overwrites → Overwrites
or_empty none = listed []
or_empty (some o) = o

-- `permissions.remove(o.deny).add(o.allow)`, if there is an overwrite.
abbrev pub apply_overwrite : Option PermissionOverwrite → Permissions → Permissions
apply_overwrite none p = p
apply_overwrite (some o) p = add (remove p o.deny) o.allow

abbrev pub lookup_guild : Option ℕ → List (ℕ × PermissionOverwrite) → Option PermissionOverwrite
lookup_guild none d = none
lookup_guild (some id) d = lookup id d

-- The loop that collects `role_allow` and `role_deny`.
abbrev pub collect_one :
    Permissions × Permissions → Option PermissionOverwrite → Permissions × Permissions
collect_one (allow, deny) none = (allow, deny)
collect_one (allow, deny) (some o) = (add allow o.allow, add deny o.deny)

unfoldable pub collect_roles :
    List (ℕ × PermissionOverwrite)
    → List Role
    → Permissions × Permissions
    → Permissions × Permissions
collect_roles d [] acc = acc
collect_roles d (role ∷ roles) acc = collect_roles d roles (collect_one acc (lookup role.id d))

abbrev pub guild_or : Option ℕ → Option ℕ → Option ℕ
guild_or none other = other
guild_or (some id) other = some id

-- The three layers of overwrites, the highest priority last.
unfoldable pub apply_layers :
    Permissions → Member → Option ℕ → List (ℕ × PermissionOverwrite) → Permissions
apply_layers base member guild_id d =
    let everyone = apply_overwrite (lookup_guild guild_id d) base in
    let (role_allow, role_deny) = collect_roles d member.roles (no_permissions, no_permissions) in
    apply_overwrite (lookup member.id d) (add (remove everyone role_deny) role_allow)

unfoldable pub compute_overwrites : Permissions → Member → Channel → Option ℕ → Result Permissions
compute_overwrites base member channel guild_id =
    if has base (flag administrator) then ok all_permissions else do
      overwrites ← normalize_overwrites (or_empty channel.permission_overwrites)
      ok (apply_layers base member (guild_or guild_id channel.guild_id) overwrites)

abbrev resolve_guild : Option Guild → Option Guild → Result Guild
resolve_guild (some g) other = ok g
resolve_guild none (some g) = ok g
resolve_guild none none = err value_error

unfoldable pub compute_effective_permissions : Member → Channel → Option Guild → Result Permissions
compute_effective_permissions member channel guild = do
  resolved ← resolve_guild guild channel.guild
  base ← compute_base_permissions member resolved
  compute_overwrites base member channel (some resolved.id)

unfoldable pub can_send_messages : Permissions → Bool
can_send_messages p = if has p (flag send_messages) then true else false

unfoldable pub get_implicit_denied : Permissions → Permissions
get_implicit_denied p =
    let view =
      if has p (flag view_channel)
      then no_permissions
      else add no_permissions (
          union (
            send_messages ∷ send_tts_messages ∷ embed_links ∷ attach_files ∷ mention_everyone
            ∷ use_external_emojis ∷ send_messages_in_threads ∷ send_voice_messages ∷ send_polls
            ∷ [])) in
    let send =
      if has p (flag send_messages)
      then view
      else add view
          (union (mention_everyone ∷ send_tts_messages ∷ attach_files ∷ embed_links ∷ [])) in
    if has p (flag connect)
    then send
    else add send (
        union (
          speak ∷ mute_members ∷ deafen_members ∷ move_members ∷ use_vad ∷ use_soundboard
          ∷ use_external_sounds ∷ []))

unfoldable pub calculate_permissions : Member → Channel → Option Guild → Result Permissions
calculate_permissions member channel guild = compute_effective_permissions member channel guild

unfoldable pub check_permission : Member → Channel → Permissions → Option Guild → Result Bool
check_permission member channel required_set guild = do
  effective ← calculate_permissions member channel guild
  ok (has effective required_set)
