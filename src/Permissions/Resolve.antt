-- ===== src/Permissions/Resolve.antt =====
-- The permissions in a channel, bit by bit, against the order of priority that the class documents.
use vaidcord.Base.{
  ℕ, ◌<◌, ◌≡◌, refl, Bool, true, false, not, ◌&&◌, ◌||◌, Option, none, some, List, [], ◌∷◌, arith,
  if◌then◌else◌, ap, ◌∙◌,
}
use vaidcord.Base.Bits.{test_bit, test_bit-zero}
use vaidcord.Base.Result.{ok, err, value_error}
use vaidcord.Base.Dict.{lookup, nat_key}
use vaidcord.Permissions.Flags.{
  flag, Permissions, has, add, remove, no_permissions, all_permissions, administrator,
}
use vaidcord.Permissions.BitLaws.{test_bit-add, test_bit-remove_named}
use vaidcord.Permissions.Overwrite.{PermissionOverwrite}
use vaidcord.Permissions.Calculator.{
  Role, Member, Guild, Channel, apply_overwrite, collect_one, lookup_guild, collect_roles, guild_or,
  apply_layers, normalize_overwrites, or_empty, compute_base_permissions, compute_overwrites,
  compute_effective_permissions, check_permission, calculate_permissions,
}

-- `overwrites.get(id)` allows, or denies, the bit.
abbrev pub allows : ℕ → Option PermissionOverwrite → Bool
allows i none = false
allows i (some o) = test_bit i o.allow

abbrev pub denies : ℕ → Option PermissionOverwrite → Bool
denies i none = false
denies i (some o) = test_bit i o.deny

abbrev pub any_allows : ℕ → List (ℕ × PermissionOverwrite) → List Role → Bool
any_allows i d [] = false
any_allows i d (r ∷ rs) = allows i (lookup r.id d) || any_allows i d rs

abbrev pub any_denies : ℕ → List (ℕ × PermissionOverwrite) → List Role → Bool
any_denies i d [] = false
any_denies i d (r ∷ rs) = denies i (lookup r.id d) || any_denies i d rs

-- The first rule that speaks of the bit decides it: the member's overwrite, then the roles', then
-- that of @everyone, and in each of them an allow before a deny; else the base.
abbrev pub decided : ℕ → Permissions → Member → Option ℕ → List (ℕ × PermissionOverwrite) → Bool
decided i base member guild_id d =
    if allows i (lookup member.id d)
    then true
    else if denies i (lookup member.id d)
    then false
    else if any_allows i d member.roles
    then true
    else if any_denies i d member.roles
    then false
    else if allows i (lookup_guild guild_id d)
    then true
    else if denies i (lookup_guild guild_id d)
    then false
    else test_bit i base

or_assoc : (a b c : Bool) → ((a || b) || c) ≡ (a || (b || c))
or_assoc true b c = refl
or_assoc false b c = refl

apply_overwrite_bit :
    (i : ℕ) (o : Option PermissionOverwrite) (p : Permissions)
    → i < 53
    → test_bit i (apply_overwrite o p) ≡ (allows i o || (test_bit i p && not (denies i o)))
apply_overwrite_bit i none p named = ground arith
apply_overwrite_bit i (some o) p named =
    ground (arith, test_bit-add i (remove p o.deny) o.allow, test_bit-remove_named i p o.deny named)

collect_one_bits :
    (i : ℕ) (acc : Permissions × Permissions) (o : Option PermissionOverwrite)
    → (test_bit i (collect_one acc o).0 ≡ (test_bit i acc.0 || allows i o))
      × (test_bit i (collect_one acc o).1 ≡ (test_bit i acc.1 || denies i o))
collect_one_bits i acc none = ground arith
collect_one_bits i acc (some o) = (test_bit-add i acc.0 o.allow, test_bit-add i acc.1 o.deny)

collect_roles_bits :
    (i : ℕ) (d : List (ℕ × PermissionOverwrite)) (rs : List Role) (acc : Permissions × Permissions)
    → (test_bit i (collect_roles d rs acc).0 ≡ (test_bit i acc.0 || any_allows i d rs))
      × (test_bit i (collect_roles d rs acc).1 ≡ (test_bit i acc.1 || any_denies i d rs))
unfolding collect_roles
collect_roles_bits i d [] acc = ground arith
collect_roles_bits i d (r ∷ rs) acc =
    let here = collect_one_bits i acc (lookup r.id d) in
    let later = collect_roles_bits i d rs (collect_one acc (lookup r.id d)) in
    (
      later.0
          ∙ ap (λ b. b || any_allows i d rs) here.0
          ∙ or_assoc (test_bit i acc.0) (allows i (lookup r.id d)) (any_allows i d rs),
      later.1
          ∙ ap (λ b. b || any_denies i d rs) here.1
          ∙ or_assoc (test_bit i acc.1) (denies i (lookup r.id d)) (any_denies i d rs),
    )

-- The layers as Boolean equations, for any values of their parts.
layers_bits :
    (base : Permissions) (member : Member) (guild_id : Option ℕ)
    (d : List (ℕ × PermissionOverwrite)) (i : ℕ)
    → i < 53
    → test_bit i (apply_layers base member guild_id d) ≡ decided i base member guild_id d
unfolding apply_layers
layers_bits base member guild_id d i named =
    let roles = collect_roles d member.roles (no_permissions, no_permissions) in
    let first = apply_overwrite (lookup_guild guild_id d) base in
    ground (
      arith,
      apply_overwrite_bit i (lookup_guild guild_id d) base named,
      collect_roles_bits i d member.roles (no_permissions, no_permissions),
      test_bit-zero i,
      test_bit-remove_named i first roles.1 named,
      test_bit-add i (remove first roles.1) roles.0,
      apply_overwrite_bit i (lookup member.id d) (add (remove first roles.1) roles.0) named,
    )

-- Without the administrator bit, each of the 53 bits that Discord names is decided by the first
-- overwrite that speaks of it: the member's, the roles' together, @everyone's; an allow goes before
-- a deny of the same layer, and a bit of which none speaks is that of the base permissions. The
-- overwrites are those that `_normalize_overwrites` reads.
pub compute_overwrites_bits :
    (base : Permissions) (member : Member) (channel : Channel) (guild_id : Option ℕ)
    {p : Permissions} {d : List (ℕ × PermissionOverwrite)} (i : ℕ)
    → i < 53
    → has base (flag administrator) ≡ false
    → normalize_overwrites (or_empty channel.permission_overwrites) ≡ ok d
    → compute_overwrites base member channel guild_id ≡ ok p
    → test_bit i p ≡ decided i base member (guild_or guild_id channel.guild_id) d
unfolding compute_overwrites
compute_overwrites_bits base member channel guild_id {p} {d} i named admin parsed h =
    ground (arith, layers_bits base member (guild_or guild_id channel.guild_id) d i named)

-- Whoever has ADMINISTRATOR in the base permissions has every permission in the channel, whatever
-- its overwrites are, also where these could not be read.
pub administrator_bypass :
    (member : Member) (channel : Channel) (guild : Guild) {base : Permissions}
    (required_set : Permissions)
    → compute_base_permissions member guild ≡ ok base
    → has base (flag administrator) ≡ true
    → check_permission member channel required_set (some guild)
      ≡ ok (has all_permissions required_set)
unfolding check_permission calculate_permissions compute_effective_permissions compute_overwrites
administrator_bypass member channel guild required_set computed admin = rw computed (rw admin)

-- A timed out member without ADMINISTRATOR whose own overwrite in the channel allows a named bit has
-- that bit in the channel, where the call returns: the overwrites are applied after the timeout rule.
pub timeout_lifted_by_overwrite :
    (member : Member) (channel : Channel) (guild : Guild) {base p : Permissions}
    {d : List (ℕ × PermissionOverwrite)} (i : ℕ)
    → i < 53
    → member.is_timed_out ≡ true
    → compute_base_permissions member guild ≡ ok base
    → has base (flag administrator) ≡ false
    → normalize_overwrites (or_empty channel.permission_overwrites) ≡ ok d
    → allows i (lookup member.id d) ≡ true
    → compute_effective_permissions member channel (some guild) ≡ ok p
    → test_bit i p ≡ true
unfolding compute_effective_permissions
timeout_lifted_by_overwrite member channel guild {base} i named out computed admin parsed allowed
      h =
    compute_overwrites_bits base member channel (some guild.id) i named admin parsed
      (rw computed at h)
    ∙ rw allowed

-- Without a guild, given or on the channel, the call raises `ValueError`.
pub effective_without_guild :
    (member : Member) (channel : Channel)
    → channel.guild ≡ none
    → compute_effective_permissions member channel none ≡ err value_error
unfolding compute_effective_permissions
effective_without_guild member channel h = ground arith
