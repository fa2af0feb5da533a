-- ===== src/Fsm/State.antt =====
-- vaidcord-py/src/vaidcord/fsm/state.py: declared states and their texts.
use vaidcord.Base.{Option, none, some, ◌∷◌, ◌++◌}
use vaidcord.Base.Result.{Result, ok, err, runtime_error}
use vaidcord.Base.Texts.{Text}

pub record State : Type 0 where
  pub explicit_state : Option Text
  pub group_name : Option Text
  pub name : Option Text

-- The property `State.state`, which is also `str(state)`. 58 is the colon.
unfoldable pub state_text : State → Result Text
state_text s = elim s.explicit_state [
  | some t ↦ ok t
  | none ↦ elim s.group_name [
    | none ↦ err runtime_error
    | some group ↦ elim s.name [ none ↦ err runtime_error | some name ↦ ok (group ++ 58 ∷ name) ]
  ]
]

-- `str | StrEnum | State`, where an enumeration member is its text.
pub data StateValue : Type 0 where
  plain : Text → StateValue
  declared : State → StateValue

abbrev pub str : StateValue → Result Text
str (plain t) = ok t
str (declared s) = state_text s

-- `State.__set_name__` for a state under a name of a group.
abbrev pub set_name : Text → Text → State → State
set_name owner name s = record s { group_name = some owner; name = some name }
