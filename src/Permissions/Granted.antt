-- ===== src/Permissions/Granted.antt =====
-- What the roles of a member grant, bit by bit, with the rules for owners, administrators and timeouts.
use vaidcord.Base.{
  ℕ, ◌≡◌, Bool, false, ◌||◌, Bool-cases, inl, inr, Option, none, some, List, [], ◌∷◌, arith, ◌==◌,
  if◌then◌else◌,
}
use vaidcord.Base.Bits.{test_bit, test_bit-zero}
use vaidcord.Base.Result.{Result, ok, err, ◌>>=◌, >>=-eq-ok}
use vaidcord.Base.Dict.{nat_key}
use vaidcord.Permissions.Flags.{
  flag, position, Permissions, add, no_permissions, all_permissions, default_permissions,
  administrator, view_channel, read_message_history,
}
use vaidcord.Permissions.BitLaws.{test_bit-add, test_bit-flag, has-flag}
use vaidcord.Permissions.Overwrite.{from_int}
use vaidcord.Permissions.Calculator.{
  Role, Member, Guild, everyone_permissions, add_roles, restrict, compute_base_permissions,
}

-- The bit of a payload that is read as a number.
abbrev pub payload_bit : ℕ → Result Permissions → Bool
payload_bit i (ok p) = test_bit i p
payload_bit i (err _) = false

-- Some role of the list has the bit.
abbrev pub role_bit : ℕ → List Role → Bool
role_bit i [] = false
role_bit i (r ∷ rs) = payload_bit i (from_int r.permissions) || role_bit i rs

abbrev pub everyone_bit : ℕ → Option Role → Bool
everyone_bit i none = test_bit i default_permissions
everyone_bit i (some r) = payload_bit i (from_int r.permissions)

-- What the roles grant before the administrator and timeout rules.
abbrev pub granted : ℕ → Member → Guild → Bool
granted i member guild = everyone_bit i (guild.get_role guild.id) || role_bit i member.roles

add_roles_bits :
    (i : ℕ) (p : Permissions) (rs : List Role) {q : Permissions}
    → add_roles p rs ≡ ok q
    → test_bit i q ≡ (test_bit i p || role_bit i rs)
unfolding add_roles
add_roles_bits i p [] h = ground arith
add_roles_bits i p (r ∷ rs) {q} h =
    let (a, e, later) = >>=-eq-ok (from_int r.permissions) (λ x. add_roles (add p x) rs) h in
    ground (arith, e, add_roles_bits i (add p a) rs later, test_bit-add i p a)

everyone_permissions_bit :
    (i : ℕ) (o : Option Role) {p : Permissions}
    → everyone_permissions o ≡ ok p
    → test_bit i p ≡ everyone_bit i o
unfolding everyone_permissions
everyone_permissions_bit i none h = ground arith
everyone_permissions_bit i (some r) h = ground arith

restrict_bits :
    (i : ℕ) (member : Member) (p : Permissions)
    → test_bit i (restrict member p) ≡ (
        if test_bit (position administrator) p
        then test_bit i all_permissions
        else if member.is_timed_out
        then (i == position view_channel) || (i == position read_message_history)
        else test_bit i p)
unfolding restrict
restrict_bits i member p = ground (
  arith,
  has-flag p administrator,
  test_bit-add i (add no_permissions (flag view_channel)) (flag read_message_history),
  test_bit-add i no_permissions (flag view_channel),
  test_bit-zero i,
  test_bit-flag view_channel i,
  test_bit-flag read_message_history i,
)

-- The two calls before the rules.
granted_bits :
    (i : ℕ) (member : Member) (guild : Guild) {e q : Permissions}
    → everyone_permissions (guild.get_role guild.id) ≡ ok e
    → add_roles e member.roles ≡ ok q
    → test_bit i q ≡ granted i member guild
granted_bits i member guild {e} found added = ground (
  arith,
  everyone_permissions_bit i (guild.get_role guild.id) found,
  add_roles_bits i e member.roles added,
)

-- A member who does not own the guild has, if the call returns: every permission, where the
-- @everyone role (or the default set) and the roles together grant ADMINISTRATOR; else, timed out,
-- VIEW_CHANNEL and READ_MESSAGE_HISTORY alone; else just the bits that those roles grant. The owner
-- has every permission.
pub compute_base_permissions_bits :
    (member : Member) (guild : Guild) {p : Permissions} (i : ℕ)
    → compute_base_permissions member guild ≡ ok p
    → test_bit i p ≡ (
        if guild.is_owner member
        then test_bit i all_permissions
        else if granted (position administrator) member guild
        then test_bit i all_permissions
        else if member.is_timed_out
        then (i == position view_channel) || (i == position read_message_history)
        else granted i member guild)
unfolding compute_base_permissions
compute_base_permissions_bits member guild {p} i h = elim (Bool-cases (guild.is_owner member)) [
  | inl owner ↦ ground arith
  | inr other ↦
      let (e, found, tail) =
        >>=-eq-ok (everyone_permissions (guild.get_role guild.id))
          (λ e. add_roles e member.roles >>= λ q. ok (restrict member q)) {b = p} (ground arith) in
      let (q, added, done) =
        >>=-eq-ok (add_roles e member.roles) (λ q. ok (restrict member q)) tail in
      ground (
        arith,
        done,
        restrict_bits i member q,
        granted_bits i member guild found added,
        granted_bits (position administrator) member guild found added,
      )
]
