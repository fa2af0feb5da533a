-- ===== src/Commands/Sync.antt =====
-- `Bot._resolve_command_sync_payload` of vaidcord-py/src/vaidcord/bot.py. A payload is a dict with
-- values of any type; `int` and `str` of a value are parameters.
pub mod Merged
use Prim.Native.String.{String}
use vaidcord.Base.{
  ℕ, ◌==◌, ==_iff, ◌↔◌, ap, ◌≡◌, refl, Bool, true, false, not, ◌&&◌, ◌||◌, Option, none, some, List,
  [], ◌∷◌, if◌then◌else◌, arith,
}
use vaidcord.Base.Dict.{Key, nat_key, lookup, insert}
use vaidcord.Base.Names.{name_key}

abbrev pub Payload : Type 0 → Type 0
Payload V = List (String × V)

-- Equality of the tuples of a type and a name.
abbrev pub same_command : ℕ × String → ℕ × String → Bool
same_command (a, b) (c, d) = a == c && name_key.same b d

pub same_command_iff : (k j : ℕ × String) → (same_command k j ≡ true) ↔ (k ≡ j)
same_command_iff (a, b) (c, d) = (
  λ h.
      let x = (==_iff a c).0 (ground (arith, h)) in
      let y = (name_key.same_iff b d).0 (ground (arith, h)) in rw (x, y) refl,
  λ h.
      let x : a ≡ c = ap (λ (q : ℕ × String). q.0) h in
      let y : b ≡ d = ap (λ (q : ℕ × String). q.1) h in
      let e = (==_iff a c).1 x in let f = (name_key.same_iff b d).1 y in ground (arith, e, f),
)

instance abbrev pub command_key : Key (ℕ × String)
command_key = record { same = same_command; same_iff = same_command_iff }

abbrev pub is_in : String → List String → Bool
is_in name [] = false
is_in name (n ∷ names) = name_key.same n name || is_in name names

abbrev pub server_fields : List String
server_fields =
    "id" ∷ "application_id" ∷ "guild_id" ∷ "version" ∷ "default_permission" ∷ "name_localized"
    ∷ "description_localized" ∷ []

-- `_normalize_command_payload`, whose copies of the options are equal to them.
unfoldable pub normalize_command_payload : {V : Type 0} → Payload V → Payload V
normalize_command_payload [] = []
normalize_command_payload ((name, v) ∷ payload) =
    if is_in name server_fields
    then normalize_command_payload payload
    else (name, v) ∷ normalize_command_payload payload

abbrev pub of_option : {A B : Type 0} → B → (A → B) → Option A → B
of_option default f none = default
of_option default f (some a) = f a

module _ {V : Type 0} (to_int : V → ℕ) (to_str : V → String) where
  -- `(int(normalized.get("type", 1)), str(normalized.get("name", "")))`
  abbrev pub key_of : Payload V → ℕ × String
  key_of payload =
      (of_option 1 to_int (lookup "type" payload), of_option "" to_str (lookup "name" payload))

  abbrev pub is_named : ℕ × String → Bool
  is_named (type, name) = not (name_key.same name "")

  -- Each of the two loops.
  unfoldable pub merge_items :
      List (Payload V) → List ((ℕ × String) × Payload V) → List ((ℕ × String) × Payload V)
  merge_items [] merged = merged
  merge_items (item ∷ items) merged =
      let normalized = normalize_command_payload item in
      merge_items items (
        if is_named (key_of normalized)
        then insert (key_of normalized) normalized merged
        else merged)

  abbrev pub values : List ((ℕ × String) × Payload V) → List (Payload V)
  values [] = []
  values ((k, payload) ∷ merged) = payload ∷ values merged

  unfoldable pub resolve_command_sync_payload :
      Bool → List (Payload V) → List (Payload V) → List (Payload V)
  unfolding merge_items
  resolve_command_sync_payload replaces current desired =
      if replaces then desired else values (merge_items desired (merge_items current []))
