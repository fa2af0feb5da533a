-- ===== src/Fsm/Memory/Abstract.antt =====
-- The storage of memory.py as a function from keys: what `get_state` and `get_data` answer behind any
-- sequence of operations.
use mathlib.Core.Path.{subst}
use vaidcord.Base.{
  sym, ◌≡◌, refl, inl, inr, Bool, true, false, Option, none, List, [], ◌∷◌, if◌then◌else◌, arith,
}
use vaidcord.Base.Dict.{insert, lookup-erase}
use vaidcord.Base.Items.{insert_all}
use vaidcord.Base.Result.{ok, err, Result-cases}
use vaidcord.Base.Texts.{Text, text_key}
use vaidcord.Fsm.Key.{StorageKey, storage_key}
use vaidcord.Fsm.State.{StateValue}
use vaidcord.Fsm.Memory.{
  MemoryFsmStorage, Data, normalize_state, put_state, get_state, get_data, set_state, set_data,
  update_data, clear, set_many_states, transition_data,
}
use vaidcord.Fsm.Memory.Command.{
  Command, assign, store, update, forget, assign_many, transfer, run, run_all,
}
use vaidcord.Fsm.Memory.Laws.{
  state_at, data_at, state_at-put_state, data_at-insert, put_state-data_of,
}

-- Every key has a state, which may be none, and data.
pub record Memory {ℓ} (A : Type ℓ) : Type ℓ where
  pub state : StorageKey → Option Text
  pub data_of : StorageKey → Data A

abbrev pub put {ℓ} : {B : Type ℓ} → StorageKey → B → (StorageKey → B) → StorageKey → B
put k new old j = if storage_key.same k j then new else old j

module _ {ℓ} {A : Type ℓ} where
  abbrev pub put_text : StorageKey → Option Text → Memory A → Memory A
  put_text k t m = record m { state = put k t m.state }

  abbrev pub put_data : StorageKey → Data A → Memory A → Memory A
  put_data k d m = record m { data_of = put k d m.data_of }

  abbrev pub forgotten : StorageKey → Memory A → Memory A
  forgotten k m = record { state = put k none m.state; data_of = put k [] m.data_of }

  -- Assignments in order, up to the first whose state has no text.
  unfoldable pub assign_all : List (StorageKey × Option StateValue) → Memory A → Memory A
  assign_all [] m = m
  assign_all ((k, v) ∷ rest) m = elim (normalize_state v) [
    | ok t ↦ assign_all rest (put_text k t m)
    | err e ↦ m
  ]

  abbrev pub moved : Bool → Data A → Data A → Data A
  moved true source target = insert_all source target
  moved false source target = source

  unfoldable pub step : Command A → Memory A → Memory A
  unfolding assign_all
  step (assign k v) m = assign_all ((k, v) ∷ []) m
  step (store k d) m = put_data k d m
  step (update k items) m = put_data k (insert_all items (m.data_of k)) m
  step (forget k) m = forgotten k m
  step (assign_many assignments) m = assign_all assignments m
  step (transfer from_key to_key clear_source merge) m =
      let m' = put_data to_key (moved merge (m.data_of from_key) (m.data_of to_key)) m in
      if clear_source then forgotten from_key m' else m'

  abbrev pub step_all : List (Command A) → Memory A → Memory A
  step_all [] m = m
  step_all (c ∷ cs) m = step_all cs (step c m)

  -- The storage answers as the function does.
  abbrev pub Views : MemoryFsmStorage A → Memory A → Type ℓ
  Views s m = (j : StorageKey) → (state_at j s ≡ m.state j) × (data_at j s ≡ m.data_of j)

  abbrev pub view : MemoryFsmStorage A → Memory A
  view s = record { state = λ j. state_at j s; data_of = λ j. data_at j s }

  put_state-Views :
      (k : StorageKey) (t : Option Text) (s : MemoryFsmStorage A) (m : Memory A)
      → Views s m
      → Views (put_state k t s) (put_text k t m)
  put_state-Views k t s m v j =
      let (a, b) = v j in
      let data_kept = put_state-data_of k t s in
      let state_put = state_at-put_state k j t s in (rw (state_put, a) refl, rw data_kept b)

  insert-Views :
      (k : StorageKey) (d : Data A) (s : MemoryFsmStorage A) (m : Memory A)
      → Views s m
      → Views (record s { data_of = insert k d s.data_of }) (put_data k d m)
  insert-Views k d s m v j = let (a, b) = v j in (a, rw (data_at-insert k j d s, b) refl)

  clear-Views :
      (k : StorageKey) (s : MemoryFsmStorage A) (m : Memory A)
      → Views s m
      → Views (clear k s).1 (forgotten k m)
  unfolding clear
  clear-Views k s m v j =
      let (a, b) = v j in
      let e = lookup-erase k j s.states in
      let d = lookup-erase k j s.data_of in ground (arith, e, d, a, b)

  set_many_states-Views :
      (assignments : List (StorageKey × Option StateValue)) (s : MemoryFsmStorage A) (m : Memory A)
      → Views s m
      → Views (set_many_states assignments s).1 (assign_all assignments m)
  unfolding set_many_states set_state assign_all
  set_many_states-Views [] s m h = h
  set_many_states-Views ((k, v) ∷ rest) s m h = elim (Result-cases (normalize_state v)) [
    | inl (t, e) ↦
        let done : (set_many_states ((k, v) ∷ rest) s).1
            ≡ (set_many_states rest (put_state k t s)).1 =
          ground arith in
        let spec : assign_all ((k, v) ∷ rest) m ≡ assign_all rest (put_text k t m) = ground arith in
        rw (done, spec)
          (set_many_states-Views rest (put_state k t s) (put_text k t m)
            (put_state-Views k t s m h))
    | inr (x, e) ↦
        let done : (set_many_states ((k, v) ∷ rest) s).1 ≡ s = ground arith in
        let spec : assign_all ((k, v) ∷ rest) m ≡ m = ground arith in rw (done, spec) h
  ]

  set_state-Views :
      (k : StorageKey) (v : Option StateValue) (s : MemoryFsmStorage A) (m : Memory A)
      → Views s m
      → Views (set_state k v s).1 (assign_all ((k, v) ∷ []) m)
  unfolding set_state assign_all
  set_state-Views k v s m h = elim (Result-cases (normalize_state v)) [
    | inl (t, e) ↦
        let done : (set_state k v s).1 ≡ put_state k t s = ground arith in
        let spec : assign_all ((k, v) ∷ []) m ≡ put_text k t m = ground arith in
        subst (λ x. Views x (assign_all ((k, v) ∷ []) m)) (sym done)
          (subst (λ y. Views (put_state k t s) y) (sym spec) (put_state-Views k t s m h))
    | inr (x, e) ↦
        let done : (set_state k v s).1 ≡ s = ground arith in
        let spec : assign_all ((k, v) ∷ []) m ≡ m = ground arith in
        subst (λ x. Views x (assign_all ((k, v) ∷ []) m)) (sym done)
          (subst (λ y. Views s y) (sym spec) h)
  ]

  put_moved-Views :
      (k : StorageKey) (d d' : Data A) (s : MemoryFsmStorage A) (m : Memory A)
      → d ≡ d'
      → Views s m
      → Views (record s { data_of = insert k d s.data_of }) (put_data k d' m)
  put_moved-Views k d d' s m e h = rw e (insert-Views k d' s m h)

  transition_data-Views :
      (f t : StorageKey) (clear_source merge : Bool) (s : MemoryFsmStorage A) (m : Memory A)
      → Views s m
      → Views
          (transition_data f t clear_source merge s).1
          (step (transfer f t clear_source merge) m)
  unfolding transition_data get_data set_data clear step
  transition_data-Views f t true true s m h =
      let (_, source) = h f in
      let (_, target) = h t in
      let d = insert_all (data_at f s) (data_at t s) in
      let d' = insert_all (m.data_of f) (m.data_of t) in
      clear-Views f (record s { data_of = insert t d s.data_of }) (put_data t d' m)
        (put_moved-Views t d d' s m (rw (source, target) refl) h)
  transition_data-Views f t false true s m h =
      let (_, source) = h f in
      let (_, target) = h t in
      put_moved-Views t (insert_all (data_at f s) (data_at t s))
        (insert_all (m.data_of f) (m.data_of t)) s m (rw (source, target) refl) h
  transition_data-Views f t true false s m h =
      let (_, source) = h f in
      clear-Views f (record s { data_of = insert t (data_at f s) s.data_of })
        (put_data t (m.data_of f) m) (put_moved-Views t (data_at f s) (m.data_of f) s m source h)
  transition_data-Views f t false false s m h =
      let (_, source) = h f in put_moved-Views t (data_at f s) (m.data_of f) s m source h

  run-Views :
      (c : Command A) (s : MemoryFsmStorage A) (m : Memory A)
      → Views s m
      → Views (run c s) (step c m)
  unfolding run step set_data update_data
  run-Views (assign k v) s m h = set_state-Views k v s m h
  run-Views (store k d) s m h = insert-Views k d s m h
  run-Views (update k items) s m h =
      let (_, e) = h k in
      put_moved-Views k (insert_all items (data_at k s)) (insert_all items (m.data_of k)) s m
        (rw e refl) h
  run-Views (forget k) s m h = clear-Views k s m h
  run-Views (assign_many assignments) s m h = set_many_states-Views assignments s m h
  run-Views (transfer f t clear_source merge) s m h =
      transition_data-Views f t clear_source merge s m h

  run_all-Views :
      (cs : List (Command A)) (s : MemoryFsmStorage A) (m : Memory A)
      → Views s m
      → Views (run_all cs s) (step_all cs m)
  run_all-Views [] s m h = h
  run_all-Views (c ∷ cs) s m h = run_all-Views cs (run c s) (step c m) (run-Views c s m h)

  -- After any sequence of operations on any keys, also where some of them raise, `get_state` and
  -- `get_data` of every key answer as the abstract memory does, a function from keys to states and data
  -- on which the same operations are performed: an assignment sets the state of its key alone, a store
  -- or an update its data alone, a clear forgets both, and a transfer copies or merges the data of its
  -- source into that of its target, and then clears the source if it is told to.
  pub run_all-step_all :
      (cs : List (Command A)) (s : MemoryFsmStorage A) (j : StorageKey)
      → ((get_state j (run_all cs s)).0 ≡ ok ((step_all cs (view s)).state j))
        × ((get_data j (run_all cs s)).0 ≡ ok ((step_all cs (view s)).data_of j))
  unfolding get_state get_data
  run_all-step_all cs s j =
      let (a, b) = run_all-Views cs s (view s) (λ j. (refl, refl)) j in (rw a refl, rw b refl)
