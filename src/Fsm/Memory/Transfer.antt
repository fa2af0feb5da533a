-- ===== src/Fsm/Memory/Transfer.antt =====
-- `transition_data`: what moves from one conversation to another.
use vaidcord.Base.{◌≡◌, refl, Bool, true, false, none, [], if◌then◌else◌, arith, ◌&&◌, ◌∙◌, ap}
use vaidcord.Base.Dict.{insert, lookup-erase}
use vaidcord.Base.Items.{insert_all}
use vaidcord.Base.Result.{ok}
use vaidcord.Base.Texts.{text_key}
use vaidcord.Fsm.Key.{StorageKey, storage_key}
use vaidcord.Fsm.Memory.{MemoryFsmStorage, Data, get_data, set_data, clear, transition_data}
use vaidcord.Fsm.Memory.Laws.{state_at, data_at, data_at-insert}

module _ {ℓ} {A : Type ℓ} where
  -- The data of the target after a transfer.
  abbrev pub transferred : StorageKey → StorageKey → Bool → MemoryFsmStorage A → Data A
  transferred from_key to_key merge s =
      if merge then insert_all (data_at from_key s) (data_at to_key s) else data_at from_key s

  data_at-clear :
      (k j : StorageKey) (s : MemoryFsmStorage A)
      → data_at j (clear k s).1 ≡ (if storage_key.same k j then [] else data_at j s)
  unfolding clear
  data_at-clear k j s = let q = lookup-erase k j s.data_of in ground arith

  state_at-clear :
      (k j : StorageKey) (s : MemoryFsmStorage A)
      → state_at j (clear k s).1 ≡ (if storage_key.same k j then none else state_at j s)
  unfolding clear
  state_at-clear k j s = let q = lookup-erase k j s.states in ground arith

  -- The storage after a transfer that clears its source.
  abbrev cleared : StorageKey → StorageKey → Data A → MemoryFsmStorage A → MemoryFsmStorage A
  cleared from_key to_key d s =
      (clear from_key (record s { data_of = insert to_key d s.data_of })).1

  cleared_lem :
      (from_key to_key j : StorageKey) (d : Data A) (s : MemoryFsmStorage A)
      → (ok d ≡ ok d)
        × (data_at j (cleared from_key to_key d s) ≡ (
            if storage_key.same from_key j
            then []
            else (if storage_key.same to_key j then d else data_at j s)))
        × (state_at j (cleared from_key to_key d s)
            ≡ (if storage_key.same from_key j then none else state_at j s))
  cleared_lem from_key to_key j d s =
      let m = record s { data_of = insert to_key d s.data_of } in
      let q = data_at-insert to_key j d s in
      (
        refl,
        data_at-clear from_key j m ∙ ap (λ x. if storage_key.same from_key j then [] else x) q,
        state_at-clear from_key j m,
      )

  -- A transfer returns the data that it gives the target: that of the source, or merged the source's
  -- over the target's. With `clear_source` the source ends without data and without a state, also
  -- where the source is the target. All other keys keep their data and their states.
  pub transition_data_lem :
      (from_key to_key j : StorageKey) (clear_source merge : Bool) (s : MemoryFsmStorage A)
      → let x = transition_data from_key to_key clear_source merge s in
        (x.0 ≡ ok (transferred from_key to_key merge s))
        × (data_at j x.1 ≡ (
            if clear_source && storage_key.same from_key j
            then []
            else (if storage_key.same to_key j
                then transferred from_key to_key merge s
                else data_at j s)))
        × (state_at j x.1
            ≡ (if clear_source && storage_key.same from_key j then none else state_at j s))
  unfolding transition_data get_data set_data clear
  transition_data_lem from_key to_key j true true s =
      cleared_lem from_key to_key j (transferred from_key to_key true s) s
  transition_data_lem from_key to_key j true false s =
      cleared_lem from_key to_key j (transferred from_key to_key false s) s
  transition_data_lem from_key to_key j false true s =
      let q = data_at-insert to_key j (transferred from_key to_key true s) s in (refl, q, refl)
  transition_data_lem from_key to_key j false false s =
      let q = data_at-insert to_key j (transferred from_key to_key false s) s in (refl, q, refl)
