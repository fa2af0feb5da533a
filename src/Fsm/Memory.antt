-- ===== src/Fsm/Memory.antt =====
-- vaidcord-py/src/vaidcord/fsm/storage/memory.py. The values in the data of a conversation are of a
-- type `A` that the storage does not look into.
pub mod Laws
pub mod Transfer
pub mod Command
pub mod Abstract
use vaidcord.Base.{ℕ, ◌≡◌, Bool, true, false, Option, none, some, List, [], ◌∷◌, if◌then◌else◌}
use vaidcord.Base.Action.{Action, pure, lift, gets, modify, ◌>>=◌, ◌>>◌}
use vaidcord.Base.Dict.{lookup, insert, erase}
use vaidcord.Base.Items.{insert_all}
use vaidcord.Base.Result.{Result, ok, err}
use vaidcord.Base.Texts.{Text, text_key}
use vaidcord.Fsm.Key.{FsmScope, StorageKey, storage_key}
use vaidcord.Fsm.State.{StateValue, str}

abbrev pub Data {ℓ} : Type ℓ → Type ℓ
Data A = List (Text × A)

pub record MemoryFsmStorage {ℓ} (A : Type ℓ) : Type ℓ where
  pub states : List (StorageKey × Option Text)
  pub data_of : List (StorageKey × Data A)

abbrev pub Method {ℓ κ} : Type ℓ → Type κ → Type (ℓ ⊔ κ)
Method A B = Action (MemoryFsmStorage A) B

-- `dict.get(key, None)`, where the value may be `None` too.
abbrev pub joined : Option (Option Text) → Option Text
joined none = none
joined (some t) = t

abbrev pub normalize_state : Option StateValue → Result (Option Text)
normalize_state none = ok none
normalize_state (some v) = elim (str v) [ ok t ↦ ok (some t) | err e ↦ err e ]

module _ {ℓ} {A : Type ℓ} where
  abbrev pub empty_storage : MemoryFsmStorage A
  empty_storage = record { states = []; data_of = [] }

  abbrev pub or_empty : Option (Data A) → Data A
  or_empty none = []
  or_empty (some d) = d

  unfoldable pub get_state : StorageKey → Method A (Option Text)
  get_state key = gets (λ s. joined (lookup key s.states))

  abbrev pub put_state : StorageKey → Option Text → MemoryFsmStorage A → MemoryFsmStorage A
  put_state key none s = record s { states = erase key s.states }
  put_state key (some t) s = record s { states = insert key (some t) s.states }

  unfoldable pub set_state : StorageKey → Option StateValue → Method A (Unit {0})
  set_state key state = do
    normalized ← lift (normalize_state state)
    modify (put_state key normalized)

  unfoldable pub get_data : StorageKey → Method A (Data A)
  get_data key = gets (λ s. or_empty (lookup key s.data_of))

  unfoldable pub set_data : StorageKey → Data A → Method A (Unit {0})
  set_data key d = modify (λ s. record s { data_of = insert key d s.data_of })

  -- `setdefault`, the update in place and the copy.
  unfoldable pub update_data : StorageKey → Data A → Method A (Data A)
  update_data key items s =
      let d = insert_all items (or_empty (lookup key s.data_of)) in
      (ok d, record s { data_of = insert key d s.data_of })

  unfoldable pub clear : StorageKey → Method A (Unit {0})
  clear key = modify (λ s. record { states = erase key s.states; data_of = erase key s.data_of })

  unfoldable pub set_many_states : List (StorageKey × Option StateValue) → Method A (Unit {0})
  set_many_states [] = pure tt
  set_many_states ((key, state) ∷ assignments) = do set_state key state; set_many_states assignments

  abbrev pub many :
      List StorageKey
      → MemoryFsmStorage A
      → List (StorageKey × Option Text)
      → List (StorageKey × Option Text)
  many [] s found = found
  many (key ∷ keys) s found = many keys s (insert key (joined (lookup key s.states)) found)

  unfoldable pub get_many_states : List StorageKey → Method A (List (StorageKey × Option Text))
  get_many_states keys s = (ok (many keys s []), s)

  unfoldable pub set_state_for :
      FsmScope
      → Option StateValue
      → Option ℕ
      → Option ℕ
      → Option ℕ
      → Option ℕ
      → Option Text
      → Method A (Unit {0})
  unfolding set_state
  set_state_for scope state guild_id channel_id topic_id user_id custom_id =
      set_state
        (record {
          scope = scope;
          guild_id = guild_id;
          channel_id = channel_id;
          topic_id = topic_id;
          user_id = user_id;
          custom_id = custom_id;
        })
        state

  unfoldable pub transition_data : StorageKey → StorageKey → Bool → Bool → Method A (Data A)
  transition_data from_key to_key clear_source merge = do
    source ← get_data from_key
    result ←
        (if merge
          then (do
            target ← get_data to_key
            set_data to_key (insert_all source target)
            pure (insert_all source target))
          else (do set_data to_key source; pure source))
    if clear_source then (do clear from_key; pure result) else pure result
