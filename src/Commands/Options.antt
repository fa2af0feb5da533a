-- ===== src/Commands/Options.antt =====
-- `_validate_options` and `RegisteredCommand.to_payload` of commands.py. The entries of an option
-- beside "required" and "options" are a list of values of any type.
pub mod Required
use Prim.Native.String.{String}
use vaidcord.Base.{
  ℕ, ◌==◌, Bool, true, false, ◌&&◌, Option, none, some, List, [], ◌∷◌, ◌++◌, if◌then◌else◌,
}
use vaidcord.Base.Names.{name_key}
use vaidcord.Base.Dict.{Key}
use vaidcord.Base.Result.{Result, ok, err, value_error, ◌>>=◌}

-- `item.get("required") is True`, the other entries, and the nested options if they are a list.
mutual
  pub data CommandOption (V : Type 0) : Type 0 where
    leaf : Bool → List (String × V) → CommandOption V
    group : Bool → List (String × V) → CommandOptions V → CommandOption V

  pub data CommandOptions (V : Type 0) : Type 0 where
    no_options : CommandOptions V
    more_options : CommandOption V → CommandOptions V → CommandOptions V

abbrev pub is_required : {V : Type 0} → CommandOption V → Bool
is_required (leaf required entries) = required
is_required (group required entries nested) = required

-- The loop of `_validate_options`, with `seen_optional`.
unfoldable mutual
  pub validate_from : {V : Type 0} → Bool → CommandOptions V → Result (CommandOptions V)
  validate_from seen_optional no_options = ok no_options
  validate_from seen_optional (more_options option options) =
      if is_required option && seen_optional then err value_error else (do
        item ← validate_option option
        rest ← validate_from (if is_required option then seen_optional else true) options
        ok (more_options item rest))

  pub validate_option : {V : Type 0} → CommandOption V → Result (CommandOption V)
  validate_option (leaf required entries) = ok (leaf required entries)
  validate_option (group required entries nested) = do
    items ← validate_from false nested
    ok (group required entries items)

unfoldable pub validate_options : {V : Type 0} → CommandOptions V → Result (CommandOptions V)
unfolding validate_from
validate_options options = validate_from false options

-- The values of a payload.
pub data Value (V : Type 0) : Type 0 where
  number : ℕ → Value V
  text : String → Value V
  flag : Bool → Value V
  texts : List (String × String) → Value V
  numbers : List ℕ → Value V
  options_value : CommandOptions V → Value V

pub data ApplicationCommandType : Type 0 where
  chat_input user_command message_command : ApplicationCommandType

abbrev pub type_number : ApplicationCommandType → ℕ
type_number chat_input = 1
type_number user_command = 2
type_number message_command = 3

pub record RegisteredCommand (V : Type 0) : Type 0 where
  pub name : String
  pub description : String
  pub kind : ApplicationCommandType
  pub guild_id : Option ℕ
  pub options : CommandOptions V
  pub dm_permission : Option Bool
  pub default_member_permissions : Option String
  pub name_localizations : Option (List (String × String))
  pub description_localizations : Option (List (String × String))
  pub integration_types : Option (List ℕ)
  pub contexts : Option (List ℕ)
  pub nsfw : Option Bool

-- `if value is not None: payload[name] = …`
abbrev pub entry : {A V : Type 0} → String → (A → Value V) → Option A → List (String × Value V)
entry name f none = []
entry name f (some a) = (name, f a) ∷ []

abbrev pub described : String → String
described description = if name_key.same description "" then "No description" else description

abbrev pub options_entry : {V : Type 0} → CommandOptions V → Result (List (String × Value V))
options_entry no_options = ok []
options_entry (more_options option options) = do
  validated ← validate_options (more_options option options)
  ok (("options", options_value validated) ∷ [])

-- The entries that only a command of the chat has.
unfoldable pub chat_entries : {V : Type 0} → RegisteredCommand V → Result (List (String × Value V))
chat_entries command = elim command.kind [
  | chat_input ↦ do
    options ← options_entry command.options
    ok (
        ("description", text (described command.description))
          ∷ entry "description_localizations" texts command.description_localizations
        ++ options)
  | user_command ↦ ok []
  | message_command ↦ ok []
]

-- The names are all distinct, so each assignment adds an entry at the end.
unfoldable pub to_payload : {V : Type 0} → RegisteredCommand V → Result (List (String × Value V))
unfolding chat_entries
to_payload command = do
  chat ← chat_entries command
  ok (
      ("type", number (type_number command.kind))
        ∷ ("name", text command.name)
        ∷ entry "name_localizations" texts command.name_localizations
      ++ chat
      ++ entry "dm_permission" flag command.dm_permission
      ++ entry "default_member_permissions" text command.default_member_permissions
      ++ entry "integration_types" numbers command.integration_types
      ++ entry "contexts" numbers command.contexts
      ++ entry "nsfw" flag command.nsfw)
