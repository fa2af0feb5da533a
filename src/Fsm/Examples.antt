-- ===== src/Fsm/Examples.antt =====
-- The storage at concrete inputs, with numbers for the values of the data, and a stand-in for the json
-- module.
use vaidcord.Base.{
  ℕ, zero, suc, ◌≡◌, refl, true, Option, none, some, List, [], ◌∷◌, ◌++◌, length, take, drop,
  take-append, drop-append,
}
use vaidcord.Base.Items.{IsDict}
use vaidcord.Base.Result.{Result, ok}
use vaidcord.Base.Texts.{Text, text_key}
use vaidcord.Fsm.Key.{StorageKey, storage_key, user_key, member_key, channel_key}
use vaidcord.Fsm.State.{State, StateValue, plain, declared, state_text}
use vaidcord.Fsm.Memory.{
  MemoryFsmStorage, empty_storage, normalize_state, get_state, get_data, set_state, set_many_states,
  transition_data,
}
use vaidcord.Fsm.Memory.Laws.{state_at, data_at}
use vaidcord.Fsm.Memory.Transfer.{transition_data_lem}
use vaidcord.Fsm.Memory.Abstract.{step_all, view, run_all-step_all}
use vaidcord.Fsm.Memory.Command.{Command, assign, store, transfer, run_all, AreDicts, IsValid}
use vaidcord.Fsm.Snapshot.{
  KeyPayload, Json, FsmSnapshot, encode_items, export_snapshot, import_snapshot,
}
use vaidcord.Fsm.Snapshot.Roundtrip.{import_snapshot-export_snapshot}

abbrev alice : StorageKey
alice = user_key 7

abbrev alice_in_guild : StorageKey
alice_in_guild = member_key 3 7

-- `form:name`, declared by a group.
abbrev name_state : State
name_state = record {
  explicit_state = none;
  group_name = some (102 ∷ 111 ∷ 114 ∷ 109 ∷ []);
  name = some (110 ∷ 97 ∷ 109 ∷ 101 ∷ []);
}

abbrev name_text : Text
name_text = 102 ∷ 111 ∷ 114 ∷ 109 ∷ 58 ∷ 110 ∷ 97 ∷ 109 ∷ 101 ∷ []

abbrev filled : MemoryFsmStorage ℕ
filled = record {
  states = (alice, some name_text) ∷ [];
  data_of = (alice, (1 ∷ [], 10) ∷ (2 ∷ [], 20) ∷ []) ∷ (alice_in_guild, (2 ∷ [], 5) ∷ []) ∷ [];
}

name_state_text : normalize_state (some (declared name_state)) ≡ ok (some name_text)
unfolding state_text
name_state_text = refl

abbrev assignments : List (StorageKey × Option StateValue)
assignments = (alice, none) ∷ (alice_in_guild, some (plain (65 ∷ []))) ∷ []

assignments_done : (set_many_states assignments filled).0 ≡ ok tt
unfolding set_many_states set_state
assignments_done = refl

transition_data_lem_example :
    let x = transition_data alice alice_in_guild true true filled in
    (x.0 ≡ ok ((2 ∷ [], 20) ∷ (1 ∷ [], 10) ∷ []))
    × (data_at alice x.1 ≡ [])
    × (state_at alice x.1 ≡ none)
transition_data_lem_example = transition_data_lem alice alice_in_guild alice true true filled

filled-IsValid : IsValid filled
unfolding IsDict AreDicts
filled-IsValid = record {
  states = (refl, tt);
  keys = (refl, (refl, tt));
  values = ((refl, (refl, tt)), ((refl, tt), tt));
}

abbrev commands : List (Command ℕ)
commands =
    store (channel_key 4) ((1 ∷ [], 6) ∷ [])
    ∷ assign alice_in_guild (some (plain (65 ∷ [])))
    ∷ transfer alice (channel_key 4) true true
    ∷ []

run_all-step_all_example :
    ((get_state alice_in_guild (run_all commands filled)).0
      ≡ ok ((step_all commands (view filled)).state alice_in_guild))
    × ((get_data alice_in_guild (run_all commands filled)).0
        ≡ ok ((step_all commands (view filled)).data_of alice_in_guild))
run_all-step_all_example = run_all-step_all commands filled alice_in_guild

-- Not JSON, but with the round trip that is asked of it.
abbrev write_option : Option ℕ → Text → Text
write_option none r = 0 ∷ r
write_option (some n) r = 1 ∷ n ∷ r

abbrev write_text : Option Text → Text → Text
write_text none r = 0 ∷ r
write_text (some t) r = 1 ∷ length t ∷ t ++ r

abbrev read_option : Text → Option ℕ × Text
read_option [] = (none, [])
read_option (zero ∷ r) = (none, r)
read_option (suc _ ∷ []) = (none, [])
read_option (suc _ ∷ n ∷ r) = (some n, r)

abbrev read_text : Text → Option Text × Text
read_text [] = (none, [])
read_text (zero ∷ r) = (none, r)
read_text (suc _ ∷ []) = (none, [])
read_text (suc _ ∷ n ∷ r) = (some (take n r), drop n r)

read_option-write_option : (o : Option ℕ) (r : Text) → read_option (write_option o r) ≡ (o, r)
read_option-write_option none r = refl
read_option-write_option (some n) r = refl

read_text-write_text : (o : Option Text) (r : Text) → read_text (write_text o r) ≡ (o, r)
read_text-write_text none r = refl
read_text-write_text (some t) r =
    rw (take-append (length t) t r refl, drop-append (length t) t r refl) refl

abbrev write_key : KeyPayload → Text
write_key p = write_text p.scope (
    write_option p.guild_id (
      write_option p.channel_id
        (write_option p.topic_id (write_option p.user_id (write_text p.custom_id [])))))

abbrev read_key : Text → Result KeyPayload
read_key t =
    let (scope, r0) = read_text t in
    let (guild_id, r1) = read_option r0 in
    let (channel_id, r2) = read_option r1 in
    let (topic_id, r3) = read_option r2 in
    let (user_id, r4) = read_option r3 in
    let (custom_id, r5) = read_text r4 in
    ok (record {
      scope = scope;
      guild_id = guild_id;
      channel_id = channel_id;
      topic_id = topic_id;
      user_id = user_id;
      custom_id = custom_id;
    })

read_key-write_key : (p : KeyPayload) → read_key (write_key p) ≡ ok p
read_key-write_key p =
    let r4 = write_text p.custom_id [] in
    let r3 = write_option p.user_id r4 in
    let r2 = write_option p.topic_id r3 in
    let r1 = write_option p.channel_id r2 in
    let r0 = write_option p.guild_id r1 in
    rw
      (
        read_text-write_text p.scope r0,
        read_option-write_option p.guild_id r1,
        read_option-write_option p.channel_id r2,
        read_option-write_option p.topic_id r3,
        read_option-write_option p.user_id r4,
        read_text-write_text p.custom_id [],
      )
      refl

abbrev json : Json
json = record { dumps = write_key; loads = read_key; loads-dumps = read_key-write_key }

abbrev exported : FsmSnapshot ℕ
exported = record {
  states = some (encode_items json filled.states);
  data_of = some (encode_items json filled.data_of);
}

exported-filled : (export_snapshot json filled).0 ≡ ok exported
unfolding export_snapshot
exported-filled = refl

import_snapshot-export_snapshot_example :
    import_snapshot json exported empty_storage ≡ (ok tt, filled)
import_snapshot-export_snapshot_example =
    import_snapshot-export_snapshot json filled empty_storage exported filled-IsValid.states
      filled-IsValid.keys exported-filled
