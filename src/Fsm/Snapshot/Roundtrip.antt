-- ===== src/Fsm/Snapshot/Roundtrip.antt =====
-- An export is read back as the storage that it was made of.
use vaidcord.Base.{◌≡◌, refl, some, List, [], ◌∷◌, arith}
use vaidcord.Base.Dict.{insert}
use vaidcord.Base.Items.{insert_all, map_keys, IsDict, insert_all-IsDict_lem, map_keys-IsDict}
use vaidcord.Base.Result.{ok}
use vaidcord.Base.Texts.{text_key}
use vaidcord.Fsm.Key.{FsmScope, StorageKey, storage_key}
use vaidcord.Fsm.Memory.{MemoryFsmStorage}
use vaidcord.Fsm.Snapshot.{
  scope_text, scope_of_text, find_scope, scopes, Json, FsmSnapshot, encode_key, decode_key,
  encode_items, decode_items, export_snapshot, import_snapshot,
}

scope_of_text-scope_text : (s : FsmScope) → scope_of_text (scope_text s) ≡ ok s
unfolding scope_of_text find_scope scopes
scope_of_text-scope_text s = ground arith

module _ (json : Json) where
  -- A key is decoded from its own encoding.
  pub decode_key-encode_key : (k : StorageKey) → decode_key json (encode_key json k) ≡ ok k
  unfolding decode_key encode_key
  decode_key-encode_key k =
      let law = json.loads-dumps (record {
        scope = some (scope_text k.scope);
        guild_id = k.guild_id;
        channel_id = k.channel_id;
        topic_id = k.topic_id;
        user_id = k.user_id;
        custom_id = k.custom_id;
      }) in
      let known = scope_of_text-scope_text k.scope in ground arith

  encode_key-injective : (a b : StorageKey) → encode_key json a ≡ encode_key json b → a ≡ b
  encode_key-injective a b h =
      let p = decode_key-encode_key a in let q = decode_key-encode_key b in cc

  decode_items-map_keys {ℓ} :
      {V : Type ℓ} (d acc : List (StorageKey × V))
      → decode_items json (map_keys (encode_key json) d) acc ≡ ok (insert_all d acc)
  unfolding decode_items
  decode_items-map_keys [] acc = refl
  decode_items-map_keys ((k, v) ∷ d) acc =
      let q = decode_key-encode_key k in
      let ih = decode_items-map_keys d (insert k v acc) in ground arith

  decode_items-encode_items {ℓ} :
      {V : Type ℓ} (d : List (StorageKey × V))
      → IsDict d
      → decode_items json (encode_items json d) [] ≡ ok d
  decode_items-encode_items d h =
      let own = map_keys-IsDict (encode_key json) d encode_key-injective h in
      let e = insert_all-IsDict_lem (map_keys (encode_key json) d) own in
      let f = insert_all-IsDict_lem d h in let q = decode_items-map_keys d [] in rw (e, q, f) refl

  -- Whatever a storage holds, importing the export of another makes it equal to that other, with the
  -- same order of its keys.
  pub import_snapshot-export_snapshot {ℓ} :
      {A : Type ℓ} (s t : MemoryFsmStorage A) (snapshot : FsmSnapshot A)
      → IsDict s.states
      → IsDict s.data_of
      → (export_snapshot json s).0 ≡ ok snapshot
      → import_snapshot json snapshot t ≡ (ok tt, s)
  unfolding export_snapshot import_snapshot
  import_snapshot-export_snapshot s t snapshot h k e =
      let p = decode_items-encode_items s.states h in
      let q = decode_items-encode_items s.data_of k in ground arith
