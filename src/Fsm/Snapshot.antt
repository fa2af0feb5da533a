-- ===== src/Fsm/Snapshot.antt =====
-- vaidcord-py/src/vaidcord/fsm/storage/memory.py: the export of a storage and its import. The json
-- module is a parameter, with the round trip that it documents for texts, integers and None.
pub mod Roundtrip
use vaidcord.Base.{
  ℕ, ◌≡◌, refl, Bool, true, false, Option, none, some, List, [], ◌∷◌, if◌then◌else◌, arith,
}
use vaidcord.Base.Action.{Action, pure, lift, modify, ◌>>=◌, ◌>>◌}
use vaidcord.Base.Dict.{insert}
use vaidcord.Base.Items.{insert_all, map_keys}
use vaidcord.Base.Result.{Result, ok, err, key_error, value_error}
use vaidcord.Base.Texts.{Text, text_key, same_text}
use vaidcord.Fsm.Key.{
  FsmScope, user, channel, topic, guild, member, custom, StorageKey, storage_key,
}
use vaidcord.Fsm.Memory.{MemoryFsmStorage, Data, Method}

-- The values of the scopes, by character codes.
abbrev pub scope_text : FsmScope → Text
scope_text user = 117 ∷ 115 ∷ 101 ∷ 114 ∷ []
scope_text channel = 99 ∷ 104 ∷ 97 ∷ 110 ∷ 110 ∷ 101 ∷ 108 ∷ []
scope_text topic = 116 ∷ 111 ∷ 112 ∷ 105 ∷ 99 ∷ []
scope_text guild = 103 ∷ 117 ∷ 105 ∷ 108 ∷ 100 ∷ []
scope_text member = 109 ∷ 101 ∷ 109 ∷ 98 ∷ 101 ∷ 114 ∷ []
scope_text custom = 99 ∷ 117 ∷ 115 ∷ 116 ∷ 111 ∷ 109 ∷ []

unfoldable scopes : List FsmScope
scopes = user ∷ channel ∷ topic ∷ guild ∷ member ∷ custom ∷ []

unfoldable find_scope : Text → List FsmScope → Result FsmScope
find_scope t [] = err value_error
find_scope t (s ∷ ss) = if same_text (scope_text s) t then ok s else find_scope t ss

-- `FsmScope(text)`
unfoldable pub scope_of_text : Text → Result FsmScope
unfolding find_scope scopes
scope_of_text t = find_scope t scopes

-- The object of a key, `none` for the scope where it is missing, and for an id also where it is null.
pub record KeyPayload : Type 0 where
  pub scope : Option Text
  pub guild_id : Option ℕ
  pub channel_id : Option ℕ
  pub topic_id : Option ℕ
  pub user_id : Option ℕ
  pub custom_id : Option Text

pub record Json : Type 0 where
  pub dumps : KeyPayload → Text
  pub loads : Text → Result KeyPayload
  pub loads-dumps : (p : KeyPayload) → loads (dumps p) ≡ ok p

pub record FsmSnapshot {ℓ} (A : Type ℓ) : Type ℓ where
  pub states : Option (List (Text × Option Text))
  pub data_of : Option (List (Text × Data A))

abbrev pub items {ℓ} : {A : Type ℓ} → Option (List A) → List A
items none = []
items (some xs) = xs

module _ (json : Json) where
  unfoldable pub encode_key : StorageKey → Text
  encode_key k = json.dumps (record {
    scope = some (scope_text k.scope);
    guild_id = k.guild_id;
    channel_id = k.channel_id;
    topic_id = k.topic_id;
    user_id = k.user_id;
    custom_id = k.custom_id;
  })

  abbrev pub payload_scope : Option Text → Result FsmScope
  payload_scope none = err key_error
  payload_scope (some t) = scope_of_text t

  unfoldable pub decode_key : Text → Result StorageKey
  decode_key raw = elim (json.loads raw) [
    | err e ↦ err e
    | ok p ↦ elim (payload_scope p.scope) [
      | err e ↦ err e
      | ok scope ↦ ok (record {
        scope = scope;
        guild_id = p.guild_id;
        channel_id = p.channel_id;
        topic_id = p.topic_id;
        user_id = p.user_id;
        custom_id = p.custom_id;
      })
    ]
  ]

  -- `{encode_key(k): v for k, v in d.items()}`
  abbrev pub encode_items {ℓ} : {V : Type ℓ} → List (StorageKey × V) → List (Text × V)
  encode_items d = insert_all (map_keys encode_key d) []

  -- `{decode_key(raw): value for raw, value in items}`, on top of what is built so far.
  unfoldable pub decode_items {ℓ} :
      {V : Type ℓ} → List (Text × V) → List (StorageKey × V) → Result (List (StorageKey × V))
  decode_items [] d = ok d
  decode_items ((raw, v) ∷ rest) d = elim (decode_key raw) [
    | err e ↦ err e
    | ok k ↦ decode_items rest (insert k v d)
  ]

  unfoldable pub export_snapshot {ℓ} : {A : Type ℓ} → Method A (FsmSnapshot A)
  export_snapshot s = (
    ok (record { states = some (encode_items s.states); data_of = some (encode_items s.data_of) }),
    s,
  )

  unfoldable pub import_snapshot {ℓ} : {A : Type ℓ} → FsmSnapshot A → Method A (Unit {0})
  import_snapshot snapshot = do
    states ← lift (decode_items (items snapshot.states) [])
    modify (λ s. record s { states = states })
    d ← lift (decode_items (items snapshot.data_of) [])
    modify (λ s. record s { data_of = d })
