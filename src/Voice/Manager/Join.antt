-- ===== src/Voice/Manager/Join.antt =====
-- What `VoiceManager.request_join` returns, by the updates that arrive alone.
use vaidcord.Base.{
  ℕ, ◌==◌, ◌≡◌, refl, ap, Bool, true, false, Option, none, some, List, [], ◌∷◌, foldl,
  if◌then◌else◌, is_some, arith, Bool-cases, Option-cases, ◌∙◌, inl, inr,
}
use vaidcord.Base.Dict.{nat_key, lookup, lookup-insert, lookup-erase}
use vaidcord.Base.Result.{Result, ok, err, other_error}
use vaidcord.Voice.Manager.{
  VoiceState, VoiceServerUpdate, Update, state_update, server_update, other_update, VoiceManager,
  join, request, set_event, is_set, handle_state, handle_server, handle_gateway_event, handle_all,
  both, arrived, wait_loop, forget_arrived, request_join,
}

-- The last voice state with a session and the last voice server of a guild, from those before.
abbrev last_state : ℕ → Option VoiceState → Update → Option VoiceState
last_state guild old (state_update s) =
    if is_some s.session_id then (if s.guild_id == guild then some s else old) else old
last_state guild old (server_update v) = old
last_state guild old other_update = old

abbrev last_server : ℕ → Option VoiceServerUpdate → Update → Option VoiceServerUpdate
last_server guild old (state_update s) = old
last_server guild old (server_update v) = if v.guild_id == guild then some v else old
last_server guild old other_update = old

abbrev Seen : Type 0
Seen = Option VoiceState × Option VoiceServerUpdate

abbrev see : ℕ → Seen → List Update → Seen
see guild (s, v) us = (foldl (last_state guild) s us, foldl (last_server guild) v us)

-- The first time that both are there, after each of the groups of updates.
unfoldable pub first_pair : ℕ → Seen → List (List Update) → Result (VoiceState × VoiceServerUpdate)
first_pair guild seen [] = err other_error
first_pair guild (s, v) (us ∷ rounds) =
    let later = see guild (s, v) us in
    elim (both later.0 later.1) [ some found ↦ ok found | none ↦ first_pair guild later rounds ]

-- What a manager knows of a guild.
abbrev Knows : ℕ → Seen → VoiceManager → Type 0
Knows guild (s, v) m = (lookup guild m.states ≡ s) × (lookup guild m.servers ≡ v)

first_pair_again :
    (guild : ℕ) (seen : Seen) (rounds : List (List Update))
    → both seen.0 seen.1 ≡ none
    → first_pair guild seen ([] ∷ rounds) ≡ first_pair guild seen rounds
unfolding first_pair
first_pair_again guild seen rounds h = rw (first_pair, h) refl

Knows-forget_arrived :
    (guild : ℕ) (m : VoiceManager) → Knows guild (none, none) (forget_arrived guild m)
unfolding forget_arrived set_event
Knows-forget_arrived guild m =
    ground (arith, lookup-erase guild guild m.states, lookup-erase guild guild m.servers)

module _ (is_connected : ℕ → Bool) (guild : ℕ) where
  Knows-handle_gateway_event :
      (s : Option VoiceState) (v : Option VoiceServerUpdate) (u : Update) (m : VoiceManager)
      → Knows guild (s, v) m
      → Knows guild
          (last_state guild s u, last_server guild v u)
          (handle_gateway_event is_connected m u)
  unfolding handle_gateway_event handle_state handle_server set_event
  Knows-handle_gateway_event s v (state_update u) m (hs, hv) =
      ground (arith, hs, hv, lookup-insert u.guild_id guild u m.states)
  Knows-handle_gateway_event s v (server_update u) m (hs, hv) =
      ground (arith, hs, hv, lookup-insert u.guild_id guild u m.servers)
  Knows-handle_gateway_event s v other_update m h = h

  Knows-handle_all :
      (s : Option VoiceState) (v : Option VoiceServerUpdate) (us : List Update) (m : VoiceManager)
      → Knows guild (s, v) m
      → Knows guild (see guild (s, v) us) (handle_all is_connected us m)
  Knows-handle_all s v [] m h = h
  Knows-handle_all s v (u ∷ us) m h =
      Knows-handle_all (last_state guild s u) (last_server guild v u) us
        (handle_gateway_event is_connected m u) (Knows-handle_gateway_event s v u m h)

  -- An event that is not set behind the updates was not set before them, and they told nothing of the
  -- guild.
  handle_gateway_event-quiet :
      (s : Option VoiceState) (v : Option VoiceServerUpdate) (u : Update) (m : VoiceManager)
      → is_set guild (handle_gateway_event is_connected m u) ≡ false
      → (is_set guild m ≡ false) × (last_state guild s u ≡ s) × (last_server guild v u ≡ v)
  unfolding handle_gateway_event handle_state handle_server set_event
  handle_gateway_event-quiet s v (state_update u) m h =
      ground (arith, h, lookup-insert u.guild_id guild true m.waiters)
  handle_gateway_event-quiet s v (server_update u) m h =
      ground (arith, h, lookup-insert u.guild_id guild true m.waiters)
  handle_gateway_event-quiet s v other_update m h = (h, refl, refl)

  handle_all-quiet :
      (s : Option VoiceState) (v : Option VoiceServerUpdate) (us : List Update) (m : VoiceManager)
      → is_set guild (handle_all is_connected us m) ≡ false
      → (is_set guild m ≡ false) × (see guild (s, v) us ≡ (s, v))
  handle_all-quiet s v [] m h = (h, refl)
  handle_all-quiet s v (u ∷ us) m h =
      let (quiet, same) =
        handle_all-quiet (last_state guild s u) (last_server guild v u) us
          (handle_gateway_event is_connected m u) h in
      let (before, e, f) = handle_gateway_event-quiet s v u m quiet in (before, cc)

  arrived-Knows :
      (seen : Seen) (m : VoiceManager) → Knows guild seen m → arrived guild m ≡ both seen.0 seen.1
  unfolding arrived
  arrived-Knows seen m (hs, hv) = rw (hs, hv) refl

  wait_loop-first_pair :
      (s : Option VoiceState) (v : Option VoiceServerUpdate) (rounds : List (List Update))
      (m : VoiceManager)
      → both s v ≡ none
      → Knows guild (s, v) m
      → (wait_loop is_connected guild rounds m).0 ≡ first_pair guild (s, v) rounds
  unfolding wait_loop first_pair arrived set_event
  wait_loop-first_pair s v [] m h k = refl
  wait_loop-first_pair s v (us ∷ rounds) m h k =
      let m' = handle_all is_connected us m in
      let later = see guild (s, v) us in
      let known = Knows-handle_all s v us m k in
      let reads = arrived-Knows later m' known in
      elim (Bool-cases (is_set guild m')) [
        | inr quiet ↦
            let same = (handle_all-quiet s v us m quiet).1 in
            let e = ap (λ (q : Seen). both q.0 q.1) same ∙ h in
            rw (wait_loop, first_pair, quiet, e)
              (wait_loop-first_pair later.0 later.1 rounds m' e known)
        | inl woken ↦ elim (Option-cases (both later.0 later.1)) [
          | inl missing ↦
              rw (wait_loop, first_pair, woken, reads, missing)
                (wait_loop-first_pair later.0 later.1 rounds (set_event guild false m') missing
                  known)
          | inr (found, e) ↦ rw (wait_loop, first_pair, woken, reads, e) refl
        ]
      ]

-- `request_join` returns the last voice state with a session and the last voice server of the guild,
-- as soon as it wakes with both of them there, in whatever order they came; the updates of other
-- guilds and what the manager knew before do not count, and where the pair is never complete it
-- raises. The state's user does not count either.
pub request_join-first_pair :
    (is_connected : ℕ → Bool) (guild channel : ℕ) (self_mute self_deaf : Bool)
    (during : List Update) (rounds : List (List Update)) (m : VoiceManager)
    → (request_join is_connected guild channel self_mute self_deaf during rounds m).0
      ≡ first_pair guild (none, none) (during ∷ rounds)
unfolding request_join first_pair
request_join-first_pair is_connected guild channel self_mute self_deaf during rounds m =
    let m0 = request (join guild channel self_mute self_deaf) (forget_arrived guild m) in
    let m' = handle_all is_connected during m0 in
    let later = see guild (none, none) during in
    let known =
      Knows-handle_all is_connected guild none none during m0 (Knows-forget_arrived guild m) in
    let reads = arrived-Knows is_connected guild later m' known in
    elim (Option-cases (both later.0 later.1)) [
      | inl missing ↦
          rw (request_join, first_pair, reads, missing)
            (wait_loop-first_pair is_connected guild later.0 later.1 ([] ∷ rounds) m' missing known
              ∙ first_pair_again guild later rounds missing)
      | inr (found, e) ↦ rw (request_join, first_pair, reads, e) refl
    ]
