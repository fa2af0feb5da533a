-- ===== src/Fsm/Memory/Command.antt =====
-- The mutating operations as commands: the invariant of the storage over any sequence of them, and the
-- isolation of conversations from each other.
use vaidcord.Base.{
  ◌≡◌, inl, inr, Bool, true, false, Option, none, some, List, [], ◌∷◌, arith, Bool-cases,
}
use vaidcord.Base.Dict.{lookup, insert, erase}
use vaidcord.Base.Items.{insert_all, IsDict, insert-IsDict, erase-IsDict, insert_all-IsDict}
use vaidcord.Base.Result.{Result-cases}
use vaidcord.Base.Texts.{Text, text_key}
use vaidcord.Fsm.Key.{StorageKey, storage_key}
use vaidcord.Fsm.State.{StateValue}
use vaidcord.Fsm.Memory.{
  MemoryFsmStorage, Data, or_empty, normalize_state, put_state, get_data, set_state, set_data,
  update_data, clear, set_many_states, transition_data,
}
use vaidcord.Fsm.Memory.Laws.{data_at}

module _ {ℓ} (A : Type ℓ) where
  pub data Command : Type ℓ where
    assign : StorageKey → Option StateValue → Command
    store : StorageKey → Data A → Command
    update : StorageKey → Data A → Command
    forget : StorageKey → Command
    assign_many : List (StorageKey × Option StateValue) → Command
    transfer : StorageKey → StorageKey → Bool → Bool → Command

module _ {ℓ} {A : Type ℓ} where
  unfoldable pub run : Command A → MemoryFsmStorage A → MemoryFsmStorage A
  unfolding set_state set_data update_data clear set_many_states transition_data get_data
  run (assign k v) s = (set_state k v s).1
  run (store k d) s = (set_data k d s).1
  run (update k items) s = (update_data k items s).1
  run (forget k) s = (clear k s).1
  run (assign_many assignments) s = (set_many_states assignments s).1
  run (transfer from_key to_key clear_source merge) s =
      (transition_data from_key to_key clear_source merge s).1

  abbrev pub run_all : List (Command A) → MemoryFsmStorage A → MemoryFsmStorage A
  run_all [] s = s
  run_all (c ∷ cs) s = run_all cs (run c s)

  -- The data that a command brings is a dict.
  unfoldable pub TakesDict : Command A → Type ℓ
  TakesDict (store k d) = IsDict d
  TakesDict _ = Unit

  unfoldable pub AllTakeDict : List (Command A) → Type ℓ
  AllTakeDict [] = Unit
  AllTakeDict (c ∷ cs) = TakesDict c × AllTakeDict cs

  -- Every data is a dict.
  unfoldable pub AreDicts : List (StorageKey × Data A) → Type ℓ
  AreDicts [] = Unit
  AreDicts ((k, d) ∷ rest) = IsDict d × AreDicts rest

  pub record IsValid (s : MemoryFsmStorage A) : Type ℓ where
    pub states : IsDict s.states
    pub keys : IsDict s.data_of
    pub values : AreDicts s.data_of

  insert-AreDicts :
      (k : StorageKey) (d : Data A) (m : List (StorageKey × Data A))
      → IsDict d
      → AreDicts m
      → AreDicts (insert k d m)
  unfolding AreDicts
  insert-AreDicts k d [] h a = (h, tt)
  insert-AreDicts k d ((j, w) ∷ m) h (a, b) = elim (Bool-cases (storage_key.same j k)) [
    | inl e ↦ rw e (h, b)
    | inr e ↦ rw e (a, insert-AreDicts k d m h b)
  ]

  erase-AreDicts :
      (k : StorageKey) (m : List (StorageKey × Data A)) → AreDicts m → AreDicts (erase k m)
  unfolding AreDicts
  erase-AreDicts k [] a = tt
  erase-AreDicts k ((j, w) ∷ m) (a, b) = elim (Bool-cases (storage_key.same j k)) [
    | inl e ↦ rw e (erase-AreDicts k m b)
    | inr e ↦ rw e (a, erase-AreDicts k m b)
  ]

  lookup-AreDicts :
      (k : StorageKey) (m : List (StorageKey × Data A))
      → AreDicts m
      → IsDict (or_empty (lookup k m))
  unfolding AreDicts IsDict
  lookup-AreDicts k [] a = tt
  lookup-AreDicts k ((j, w) ∷ m) (a, b) = elim (Bool-cases (storage_key.same j k)) [
    | inl e ↦ rw e a
    | inr e ↦ rw e (lookup-AreDicts k m b)
  ]

  put_state-IsValid :
      (k : StorageKey) (t : Option Text) (s : MemoryFsmStorage A)
      → IsValid s
      → IsValid (put_state k t s)
  put_state-IsValid k none s v = record {
    states = erase-IsDict k s.states v.states;
    keys = v.keys;
    values = v.values;
  }
  put_state-IsValid k (some t) s v = record {
    states = insert-IsDict k (some t) s.states v.states;
    keys = v.keys;
    values = v.values;
  }

  abbrev inserted : StorageKey → Data A → MemoryFsmStorage A → MemoryFsmStorage A
  inserted k d s = record s { data_of = insert k d s.data_of }

  store-IsValid :
      (k : StorageKey) (d : Data A) (s : MemoryFsmStorage A)
      → IsDict d
      → IsValid s
      → IsValid (record s { data_of = insert k d s.data_of })
  store-IsValid k d s h v = record {
    states = v.states;
    keys = insert-IsDict k d s.data_of v.keys;
    values = insert-AreDicts k d s.data_of h v.values;
  }

  forget-IsValid : (k : StorageKey) (s : MemoryFsmStorage A) → IsValid s → IsValid (clear k s).1
  unfolding clear
  forget-IsValid k s v = record {
    states = erase-IsDict k s.states v.states;
    keys = erase-IsDict k s.data_of v.keys;
    values = erase-AreDicts k s.data_of v.values;
  }

  set_state-IsValid :
      (k : StorageKey) (v : Option StateValue) (s : MemoryFsmStorage A)
      → IsValid s
      → IsValid (set_state k v s).1
  unfolding set_state
  set_state-IsValid k v s h = elim (Result-cases (normalize_state v)) [
    | inl (t, e) ↦ rw e (put_state-IsValid k t s h)
    | inr (x, e) ↦ rw e h
  ]

  set_many_states-IsValid :
      (assignments : List (StorageKey × Option StateValue)) (s : MemoryFsmStorage A)
      → IsValid s
      → IsValid (set_many_states assignments s).1
  unfolding set_many_states set_state
  set_many_states-IsValid [] s h = h
  set_many_states-IsValid ((k, v) ∷ rest) s h = elim (Result-cases (normalize_state v)) [
    | inl (t, e) ↦
        let step : (set_many_states ((k, v) ∷ rest) s).1
            ≡ (set_many_states rest (put_state k t s)).1 =
          ground arith in
        rw step (set_many_states-IsValid rest (put_state k t s) (put_state-IsValid k t s h))
    | inr (x, e) ↦ let step : (set_many_states ((k, v) ∷ rest) s).1 ≡ s = ground arith in rw step h
  ]

  transfer-IsValid :
      (from_key to_key : StorageKey) (clear_source merge : Bool) (s : MemoryFsmStorage A)
      → IsValid s
      → IsValid (transition_data from_key to_key clear_source merge s).1
  unfolding transition_data get_data set_data clear
  transfer-IsValid f t true true s v =
      forget-IsValid f (inserted t (insert_all (data_at f s) (data_at t s)) s) (
        store-IsValid t (insert_all (data_at f s) (data_at t s)) s
          (insert_all-IsDict (data_at f s) (data_at t s) (lookup-AreDicts t s.data_of v.values)) v)
  transfer-IsValid f t false true s v =
      store-IsValid t (insert_all (data_at f s) (data_at t s)) s
        (insert_all-IsDict (data_at f s) (data_at t s) (lookup-AreDicts t s.data_of v.values)) v
  transfer-IsValid f t true false s v =
      forget-IsValid f (inserted t (data_at f s) s)
        (store-IsValid t (data_at f s) s (lookup-AreDicts f s.data_of v.values) v)
  transfer-IsValid f t false false s v =
      store-IsValid t (data_at f s) s (lookup-AreDicts f s.data_of v.values) v

  run-IsValid :
      (c : Command A) (s : MemoryFsmStorage A) → TakesDict c → IsValid s → IsValid (run c s)
  unfolding run TakesDict set_data update_data
  run-IsValid (assign k v) s d h = set_state-IsValid k v s h
  run-IsValid (store k x) s d h = store-IsValid k x s d h
  run-IsValid (update k items) s d h =
      store-IsValid k (insert_all items (data_at k s)) s
        (insert_all-IsDict items (data_at k s) (lookup-AreDicts k s.data_of h.values)) h
  run-IsValid (forget k) s d h = forget-IsValid k s h
  run-IsValid (assign_many assignments) s d h = set_many_states-IsValid assignments s h
  run-IsValid (transfer from_key to_key clear_source merge) s d h =
      transfer-IsValid from_key to_key clear_source merge s h

  -- Over any sequence of operations that are given dicts, also where some of them raise, a valid
  -- storage stays valid: the keys of its two dicts and of the data under each key are distinct.
  pub run_all-IsValid :
      (cs : List (Command A)) (s : MemoryFsmStorage A)
      → AllTakeDict cs
      → IsValid s
      → IsValid (run_all cs s)
  unfolding AllTakeDict
  run_all-IsValid [] s d h = h
  run_all-IsValid (c ∷ cs) s (d, ds) h = run_all-IsValid cs (run c s) ds (run-IsValid c s d h)
