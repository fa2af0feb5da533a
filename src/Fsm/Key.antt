-- ===== src/Fsm/Key.antt =====
-- vaidcord-py/src/vaidcord/fsm/storage/base.py: the scopes and the keys of the storage.
use vaidcord.Base.{ℕ, ◌≡◌, ◌↔◌, refl, Bool, true, ◌&&◌, Option, none, some, ◌==◌, arith}
use vaidcord.Base.Dict.{Key, nat_key}
use vaidcord.Base.Texts.{Text, text_key, same_option, same_option_iff}

pub data FsmScope : Type 0 where
  user channel topic guild member custom : FsmScope

abbrev pub scope_number : FsmScope → ℕ
scope_number user = 0
scope_number channel = 1
scope_number topic = 2
scope_number guild = 3
scope_number member = 4
scope_number custom = 5

scope_number-injective : (a b : FsmScope) → scope_number a ≡ scope_number b → a ≡ b
scope_number-injective a b h = ground arith

abbrev pub same_scope : FsmScope → FsmScope → Bool
same_scope a b = scope_number a == scope_number b

pub same_scope_iff : (a b : FsmScope) → (same_scope a b ≡ true) ↔ (a ≡ b)
same_scope_iff a b = ground (arith, scope_number-injective a b)

instance abbrev pub scope_key : Key FsmScope
scope_key = record { same = same_scope; same_iff = same_scope_iff }

pub record StorageKey : Type 0 where
  pub scope : FsmScope
  pub guild_id : Option ℕ
  pub channel_id : Option ℕ
  pub topic_id : Option ℕ
  pub user_id : Option ℕ
  pub custom_id : Option Text

abbrev pub no_ids : FsmScope → StorageKey
no_ids s = record {
  scope = s;
  guild_id = none;
  channel_id = none;
  topic_id = none;
  user_id = none;
  custom_id = none;
}

-- The class methods of `StorageKey`.
abbrev pub user_key : ℕ → StorageKey
user_key id = record (no_ids user) { user_id = some id }

abbrev pub channel_key : ℕ → StorageKey
channel_key id = record (no_ids channel) { channel_id = some id }

abbrev pub topic_key : ℕ → StorageKey
topic_key id = record (no_ids topic) { topic_id = some id }

abbrev pub guild_key : ℕ → StorageKey
guild_key id = record (no_ids guild) { guild_id = some id }

abbrev pub member_key : ℕ → ℕ → StorageKey
member_key guild_id user_id = record (no_ids member) {
  guild_id = some guild_id;
  user_id = some user_id;
}

abbrev pub custom_key : Text → StorageKey
custom_key id = record (no_ids custom) { custom_id = some id }

abbrev pub from_legacy_ids : ℕ → ℕ → StorageKey
from_legacy_ids user_id chat_id = member_key chat_id user_id

and_true : {a b : Bool} → (a && b) ≡ true → (a ≡ true) × (b ≡ true)
and_true {a} {b} h = ground arith

abbrev pub same_key : StorageKey → StorageKey → Bool
same_key a b =
    same_scope a.scope b.scope
    && (same_option a.guild_id b.guild_id
        && (same_option a.channel_id b.channel_id
            && (same_option a.topic_id b.topic_id
                && (same_option a.user_id b.user_id && same_option a.custom_id b.custom_id))))

same_key-forward : (a b : StorageKey) → same_key a b ≡ true → a ≡ b
same_key-forward a b h =
    let (p, h1) = and_true h in
    let (q, h2) = and_true h1 in
    let (r, h3) = and_true h2 in
    let (t, h4) = and_true h3 in
    let (u, v) = and_true h4 in
    let e0 = (same_scope_iff a.scope b.scope).0 p in
    let e1 = (same_option_iff a.guild_id b.guild_id).0 q in
    let e2 = (same_option_iff a.channel_id b.channel_id).0 r in
    let e3 = (same_option_iff a.topic_id b.topic_id).0 t in
    let e4 = (same_option_iff a.user_id b.user_id).0 u in
    let e5 = (same_option_iff a.custom_id b.custom_id).0 v in cc

same_key_refl : (a : StorageKey) → same_key a a ≡ true
same_key_refl a =
    rw
      (
        (same_scope_iff a.scope a.scope).1 refl,
        (same_option_iff a.guild_id a.guild_id).1 refl,
        (same_option_iff a.channel_id a.channel_id).1 refl,
        (same_option_iff a.topic_id a.topic_id).1 refl,
        (same_option_iff a.user_id a.user_id).1 refl,
        (same_option_iff a.custom_id a.custom_id).1 refl,
      )
      refl

pub same_key_iff : (a b : StorageKey) → (same_key a b ≡ true) ↔ (a ≡ b)
same_key_iff a b = (same_key-forward a b, λ h. rw (← h) (same_key_refl a))

instance abbrev pub storage_key : Key StorageKey
storage_key = record { same = same_key; same_iff = same_key_iff }
