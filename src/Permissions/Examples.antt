-- ===== src/Permissions/Examples.antt =====
-- Tests of the permission modules, and their theorems at concrete inputs.
use vaidcord.Base.{◌≡◌, refl, true, false, none, some, [], ◌∷◌, arith}
use vaidcord.Base.Bits.{test_bit, test_bit-zero, bit_length}
use vaidcord.Base.Result.{ok, err, type_error}
use vaidcord.Base.Decimal.{decimal, read_decimal}
use vaidcord.Permissions.Flags.{has, add, remove, invert, width, all_permissions}
use vaidcord.Permissions.Overwrite.{
  int, text, to_int, from_int, to_string, PermissionOverwrite, from_dict, to_dict,
}
use vaidcord.Permissions.OverwriteLaws.{IsConsistent, from_dict-to_dict}
use vaidcord.Permissions.Calculator.{
  Role, Member, Guild, Channel, listed, object, payload, normalize_overwrites, restrict,
  everyone_permissions, add_roles, collect_roles, apply_layers, compute_base_permissions,
  compute_overwrites, compute_effective_permissions,
}
use vaidcord.Permissions.Resolve.{compute_overwrites_bits, decided}
use vaidcord.Permissions.Granted.{compute_base_permissions_bits, granted}

abbrev moderators : Role
moderators = record { id = 7; permissions = text (b'6' ∷ []) }

abbrev everyone : Role
everyone = record { id = 1; permissions = int 1024 }

abbrev admins : Role
admins = record { id = 9; permissions = int 8 }

abbrev guild : Guild
guild = record { id = 1; is_owner = λ m. false; get_role = λ id. some everyone }

abbrev alice : Member
alice = record { id = 50; roles = moderators ∷ []; is_timed_out = false }

abbrev muted : Member
muted = record { id = 50; roles = moderators ∷ []; is_timed_out = true }

abbrev boss : Member
boss = record { id = 60; roles = admins ∷ []; is_timed_out = false }

-- @everyone is denied VIEW_CHANNEL, the member is allowed SEND_MESSAGES.
abbrev closed : PermissionOverwrite
closed = record { id = 1; type = 0; allow = 0; deny = 1024 }

abbrev speaker : PermissionOverwrite
speaker = record { id = 50; type = 1; allow = 2048; deny = 0 }

abbrev channel : Channel
channel = record {
  guild_id = some 1;
  guild = none;
  permission_overwrites = some (listed (payload (to_dict closed) ∷ payload (to_dict speaker) ∷ []));
}

base_of_alice : compute_base_permissions alice guild ≡ ok 1030
unfolding compute_base_permissions everyone_permissions add_roles restrict has add from_int
    read_decimal
base_of_alice = refl

base_of_muted : compute_base_permissions muted guild ≡ ok 66560
unfolding compute_base_permissions everyone_permissions add_roles restrict has add from_int
    read_decimal
base_of_muted = refl

base_of_boss : compute_base_permissions boss guild ≡ ok all_permissions
unfolding compute_base_permissions everyone_permissions add_roles restrict has add from_int
    read_decimal
base_of_boss = refl

read_overwrites :
    normalize_overwrites (listed (payload (to_dict closed) ∷ payload (to_dict speaker) ∷ []))
    ≡ ok ((1, closed) ∷ (50, speaker) ∷ [])
unfolding normalize_overwrites to_dict from_dict to_int from_int to_string decimal read_decimal
read_overwrites = refl

-- An object of the class in a list is not indexable.
object_in_list : normalize_overwrites (listed (object closed ∷ [])) ≡ err type_error
unfolding normalize_overwrites
object_in_list = refl

alice_in_channel : compute_overwrites 1030 alice channel (some 1) ≡ ok 2054
unfolding compute_overwrites apply_layers collect_roles has add remove invert width
    normalize_overwrites to_dict from_dict to_int from_int to_string decimal read_decimal bit_length
alice_in_channel = refl

muted_in_channel : compute_effective_permissions muted channel (some guild) ≡ ok 67584
unfolding compute_effective_permissions compute_overwrites apply_layers collect_roles has add remove
    normalize_overwrites to_dict from_dict to_int from_int to_string decimal read_decimal bit_length
    width compute_base_permissions everyone_permissions add_roles restrict
muted_in_channel = refl

compute_overwrites_bits_example :
    test_bit 11 2054 ≡ decided 11 1030 alice (some 1) ((1, closed) ∷ (50, speaker) ∷ [])
compute_overwrites_bits_example =
    compute_overwrites_bits 1030 alice channel (some 1) 11 (omega arith) (unfold has in refl)
      read_overwrites alice_in_channel

compute_base_permissions_bits_example : test_bit 2 1030 ≡ granted 2 alice guild
unfolding from_int read_decimal test_bit
compute_base_permissions_bits_example = compute_base_permissions_bits alice guild 2 base_of_alice

from_dict-to_dict_example : from_dict (to_dict speaker) ≡ ok speaker
from_dict-to_dict_example = from_dict-to_dict speaker

closed-IsConsistent : IsConsistent closed
closed-IsConsistent i = rw test_bit-zero
