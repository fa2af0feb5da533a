-- ===== src/Gateway/Updates.antt =====
-- `Bot._handle_dispatch` and `Bot._handle_ready` of vaidcord-py/src/vaidcord/bot.py.
pub mod Pending
use Prim.Native.String.{String}
use vaidcord.Base.{
  ℕ, ◌==◌, Bool, true, false, not, ◌&&◌, Option, none, some, List, [], ◌∷◌, if◌then◌else◌,
}
use vaidcord.Base.Action.{Action, pure, raise, lift, gets, modify, ◌>>=◌, ◌>>◌}
use vaidcord.Base.Result.{Raised, Result, ok, err}
use vaidcord.Gateway.{
  ready, Config, Kind, ready_kind, message_create_kind, message_update_kind,
  interaction_create_kind, other_kind, Effect, told_voice, told_interaction, propagated, Gateway,
  Services, Method, note, raise_if,
}

-- `s`, `t` and `d` of a payload of opcode 0. A `t` that is no member of `EventType` is `some none`.
pub record Dispatch (D : Type 0) : Type 0 where
  pub number : Option ℕ
  pub kind : Option (Option Kind)
  pub body : Option D

abbrev pub is_ready_kind : Kind → Bool
is_ready_kind ready_kind = true
is_ready_kind _ = false

abbrev pub is_message_create : Kind → Bool
is_message_create message_create_kind = true
is_message_create _ = false

abbrev pub set_sequence : {P Z : Type 0} → Option ℕ → Gateway P Z → Gateway P Z
set_sequence none g = g
set_sequence (some s) g = record g { sequence = some s }

abbrev pub same_user : Option ℕ → Option ℕ → Bool
same_user (some a) (some b) = a == b
same_user _ _ = false

module _ {P Z L D : Type 0} (config : Config P) (services : Services P Z L D) where
  unfoldable pub handle_ready : D → Method P Z (Unit {0})
  handle_ready d = do
    user ← lift (services.parse_user d)
    modify (λ g. record g { user = some user })
    raise_if (services.parse_guilds d)
    modify (λ g. record g {
      session_id = services.session_id_of d;
      resume_gateway_url = services.resume_gateway_url_of d;
      state = ready;
      is_ready = true;
    })
    g ← gets (λ g. g)
    raise_if (services.sync_commands g.trace)

  unfoldable pub propagate : Kind → Method P Z (Unit {0})
  propagate kind = do
    modify (note (propagated kind))
    g ← gets (λ g. g)
    raise_if (services.propagate_event g.trace)

  -- What stands between the parsing of an event and its propagation: true where it is propagated.
  unfoldable pub special : Kind → Option ℕ → D → Method P Z Bool
  unfolding handle_ready
  special ready_kind author d = do
    handle_ready d
    modify (λ g. record g { drop_pending_updates = false })
    pure true
  special interaction_create_kind author d = do
    modify (note told_interaction)
    g ← gets (λ g. g)
    raise_if (services.handle_interaction_create g.trace)
    pure true
  special kind author d = do
    g ← gets (λ g. g)
    pure (not (is_message_create kind && (config.ignore_self_messages && same_user g.user author)))

  unfoldable pub handle_known : Kind → D → Method P Z (Unit {0})
  unfolding special propagate
  handle_known kind d g =
      if g.drop_pending_updates && (not g.is_ready && not (is_ready_kind kind))
      then (ok tt, g)
      else (do
        author ← lift (services.message_author kind d)
        goes_on ← special kind author d
        if goes_on then propagate kind else pure tt)
          g

  unfoldable pub handle_kind : Option Kind → D → Method P Z (Unit {0})
  unfolding handle_known
  handle_kind none d = pure tt
  handle_kind (some kind) d = handle_known kind d

  unfoldable pub handle_dispatch : Dispatch D → Method P Z (Unit {0})
  unfolding handle_kind
  handle_dispatch u = do
    modify (set_sequence u.number)
    elim u.kind [
      | none ↦ pure tt
      | some kind ↦ elim u.body [
        | none ↦ pure tt
        | some d ↦ (do
          modify (note told_voice)
          g ← gets (λ g. g)
          raise_if (services.handle_voice_event g.trace)
          handle_kind kind d)
      ]
    ]
