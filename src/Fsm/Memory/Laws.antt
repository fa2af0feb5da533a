-- ===== src/Fsm/Memory/Laws.antt =====
-- What the operations on one key leave in the storage.
use vaidcord.Base.{
  ◌≡◌, inl, inr, refl, Option, none, some, List, [], ◌∷◌, if◌then◌else◌, arith, Bool-cases,
}
use vaidcord.Base.Dict.{lookup, insert, lookup-insert, lookup-erase}
use vaidcord.Base.Items.{insert_all, IsDict, or_else, lookup-insert_all}
use vaidcord.Base.Result.{ok, err, Result-cases}
use vaidcord.Base.Texts.{Text, text_key}
use vaidcord.Fsm.Key.{StorageKey, storage_key}
use vaidcord.Fsm.State.{StateValue}
use vaidcord.Fsm.Memory.{
  MemoryFsmStorage, Data, joined, or_empty, normalize_state, put_state, get_state, set_state,
  get_data, update_data, set_many_states,
}

-- What an assignment says of a key: the text, if it is assigned a state that has one.
abbrev pub assigned : Option (Option StateValue) → Option Text → Option Text
assigned none old = old
assigned (some v) old = elim (normalize_state v) [ ok t ↦ t | err e ↦ none ]

module _ {ℓ} {A : Type ℓ} where
  -- The state and the data under a key.
  abbrev pub state_at : StorageKey → MemoryFsmStorage A → Option Text
  state_at j s = joined (lookup j s.states)

  abbrev pub data_at : StorageKey → MemoryFsmStorage A → Data A
  data_at j s = or_empty (lookup j s.data_of)

  pub state_at-put_state :
      (k j : StorageKey) (t : Option Text) (s : MemoryFsmStorage A)
      → state_at j (put_state k t s) ≡ (if storage_key.same k j then t else state_at j s)
  state_at-put_state k j none s = let q = lookup-erase k j s.states in ground arith
  state_at-put_state k j (some t) s = let q = lookup-insert k j (some t) s.states in ground arith

  pub data_at-insert :
      (k j : StorageKey) (d : Data A) (s : MemoryFsmStorage A)
      → data_at j (record s { data_of = insert k d s.data_of })
        ≡ (if storage_key.same k j then d else data_at j s)
  data_at-insert k j d s = let q = lookup-insert k j d s.data_of in ground arith

  set_state-put_state :
      (k : StorageKey) (v : Option StateValue) (t : Option Text) (s : MemoryFsmStorage A)
      → normalize_state v ≡ ok t
      → set_state k v s ≡ (ok tt, put_state k t s)
  unfolding set_state
  set_state-put_state k v t s h = ground arith

  pub put_state-data_of :
      (k : StorageKey) (t : Option Text) (s : MemoryFsmStorage A)
      → (put_state k t s).data_of ≡ s.data_of
  put_state-data_of k none s = refl
  put_state-data_of k (some t) s = refl

  -- Setting a state whose text is `t` gives the key that text, or no state for None; the states of
  -- all other keys and all data are as before.
  pub set_state_lem :
      (k j : StorageKey) (v : Option StateValue) (t : Option Text) (s : MemoryFsmStorage A)
      → normalize_state v ≡ ok t
      → ((set_state k v s).0 ≡ ok tt)
        × ((get_state j (set_state k v s).1).0
            ≡ ok (if storage_key.same k j then t else state_at j s))
        × ((set_state k v s).1.data_of ≡ s.data_of)
  unfolding get_state
  set_state_lem k j v t s h =
      rw (set_state-put_state k v t s h, state_at-put_state k j t s, put_state-data_of k t s)
        (refl, refl, refl)

  -- A name in the data of the updated key is what the items say, or else what was there; the data of
  -- all other keys and all states are as before, and the update returns the new data.
  pub update_data_lem :
      (k j : StorageKey) (items : Data A) (s : MemoryFsmStorage A) (name : Text)
      → IsDict items
      → ((update_data k items s).0 ≡ (get_data k (update_data k items s).1).0)
        × (lookup name (data_at j (update_data k items s).1) ≡ (
            if storage_key.same k j
            then or_else (lookup name items) (lookup name (data_at j s))
            else lookup name (data_at j s)))
        × ((update_data k items s).1.states ≡ s.states)
  unfolding update_data get_data
  update_data_lem k j items s name h =
      let d = insert_all items (data_at k s) in
      let own = data_at-insert k k d s in
      let at = data_at-insert k j d s in
      let name_in = lookup-insert_all name items (data_at k s) h in
      let r = (storage_key.same_iff k k).1 refl in
      elim (Bool-cases (storage_key.same k j)) [
        | inl e ↦
            let same = (storage_key.same_iff k j).0 e in
            let moved : lookup name (data_at k s) ≡ lookup name (data_at j s) = cc in
            rw (own, at, r, e) (refl, ground arith, refl)
        | inr e ↦ rw (own, at, r, e) (refl, refl, refl)
      ]

  set_many_states-put_state :
      (k : StorageKey) (v : Option StateValue) (t : Option Text)
      (rest : List (StorageKey × Option StateValue)) (s : MemoryFsmStorage A)
      → normalize_state v ≡ ok t
      → set_many_states ((k, v) ∷ rest) s ≡ set_many_states rest (put_state k t s)
  unfolding set_many_states set_state
  set_many_states-put_state k v t rest s h = ground arith

  -- An assignment of states to distinct keys that does not raise gives each of its keys the state that
  -- it assigns, and leaves the states of the other keys alone.
  pub set_many_states_lem :
      (assignments : List (StorageKey × Option StateValue)) (j : StorageKey)
      (s : MemoryFsmStorage A)
      → IsDict assignments
      → (set_many_states assignments s).0 ≡ ok tt
      → (get_state j (set_many_states assignments s).1).0
        ≡ ok (assigned (lookup j assignments) (state_at j s))
  unfolding set_many_states set_state get_state IsDict
  set_many_states_lem [] j s d h = refl
  set_many_states_lem ((k, v) ∷ rest) j s (a, b) h = elim (Result-cases (normalize_state v)) [
    | inr (e, f) ↦ absurd (ground arith)
    | inl (t, f) ↦
        let ih = set_many_states_lem rest j (put_state k t s) b (ground arith) in
        let q = state_at-put_state k j t s in
        let step = set_many_states-put_state k v t rest s f in
        elim (Bool-cases (storage_key.same k j)) [
          | inl e ↦
              let same = (storage_key.same_iff k j).0 e in
              let absent : lookup j rest ≡ none = cc in rw (step, ih, q, e, absent) (ground arith)
          | inr e ↦ rw (step, ih, q, e) refl
        ]
  ]
