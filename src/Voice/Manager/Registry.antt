-- ===== src/Voice/Manager/Registry.antt =====
-- Which connection `VoiceManager` has registered for a guild behind `connect`, `disconnect` and
-- `_forget`.
use vaidcord.Base.{
  ℕ, ◌==◌, ◌≡◌, refl, ◌∙◌, sym, Option, Bool, false, List, [], ◌∷◌, none, some, arith,
  if◌then◌else◌, inl, inr,
}
use mathlib.Core.Path.{subst}
use vaidcord.Base.Dict.{nat_key, lookup, insert, lookup-insert, lookup-erase}
use vaidcord.Base.Result.{Result, ok, err, Result-cases}
use vaidcord.Voice.Manager.{
  Update, state_update, server_update, other_update, VoiceManager, set_event, handle_state,
  handle_server, handle_gateway_event, handle_all, wait_loop, forget_arrived, request_join,
  open_connection, connect, close_existing, request, join,
}
use vaidcord.Voice.Manager.Join.{first_pair, request_join-first_pair}

module _ (is_connected : ℕ → Bool) where
  handle_gateway_event_keeps :
      (u : Update) (m : VoiceManager)
      → (handle_gateway_event is_connected m u).connections ≡ m.connections
  unfolding handle_gateway_event handle_state handle_server set_event
  handle_gateway_event_keeps (state_update s) m = ground arith
  handle_gateway_event_keeps (server_update v) m = ground arith
  handle_gateway_event_keeps other_update m = refl

  handle_all_keeps :
      (us : List Update) (m : VoiceManager)
      → (handle_all is_connected us m).connections ≡ m.connections
  handle_all_keeps [] m = refl
  handle_all_keeps (u ∷ us) m =
      handle_all_keeps us (handle_gateway_event is_connected m u) ∙ handle_gateway_event_keeps u m

  wait_loop_keeps :
      (guild : ℕ) (rounds : List (List Update)) (m : VoiceManager)
      → (wait_loop is_connected guild rounds m).1.connections ≡ m.connections
  unfolding wait_loop set_event
  wait_loop_keeps guild [] m = refl
  wait_loop_keeps guild (us ∷ rounds) m =
      let m' = handle_all is_connected us m in
      ground (
        arith,
        handle_all_keeps us m,
        wait_loop_keeps guild rounds m',
        wait_loop_keeps guild rounds (set_event guild false m'),
      )

  request_join_keeps :
      (guild channel : ℕ) (mute deaf : Bool) (during : List Update) (rounds : List (List Update))
      (m : VoiceManager)
      → (request_join is_connected guild channel mute deaf during rounds m).1.connections
        ≡ m.connections
  unfolding request_join forget_arrived set_event
  request_join_keeps guild channel mute deaf during rounds m =
      let m0 = request (join guild channel mute deaf) (forget_arrived guild m) in
      let m' = handle_all is_connected during m0 in
      ground (arith, handle_all_keeps during m0, wait_loop_keeps guild ([] ∷ rounds) m')

  close_existing_keeps :
      (c : Option ℕ) (m : VoiceManager) → (close_existing c m).connections ≡ m.connections
  close_existing_keeps none m = refl
  close_existing_keeps (some c) m = refl

  abbrev Registered : ℕ → ℕ → Result (Unit {0}) → List (ℕ × ℕ) → Result ℕ × VoiceManager → Type 0
  Registered guild connection (ok u) cs (r, m') =
      (r ≡ ok connection)
      × ((j : ℕ) → lookup j m'.connections ≡ (if guild == j then some connection else lookup j cs))
  Registered guild connection (err e) cs (r, m') =
      (r ≡ err e) × ((j : ℕ) → lookup j m'.connections ≡ (if guild == j then none else lookup j cs))

  abbrev Outcome :
      {A : Type 0}
      → ℕ
      → ℕ
      → Result (Unit {0})
      → List (ℕ × ℕ)
      → Result A
      → Result ℕ × VoiceManager
      → Type 0
  Outcome guild connection outcome cs (ok found) end = Registered guild connection outcome cs end
  Outcome guild connection outcome cs (err e) (r, m') = (r ≡ err e) × (m'.connections ≡ cs)

  open_connection-Registered :
      (guild connection : ℕ) (meanwhile : List Update) (outcome : Result (Unit {0}))
      (m : VoiceManager)
      → Registered guild connection outcome m.connections
          (open_connection is_connected guild connection meanwhile outcome m)
  unfolding open_connection
  open_connection-Registered guild connection meanwhile (ok u) m = (
    refl,
    λ j.
        rw
          (handle_all_keeps meanwhile
            (record m { connections = insert guild connection m.connections }))
          (lookup-insert guild j connection m.connections),
  )
  open_connection-Registered guild connection meanwhile (err e) m = (
    refl,
    λ j.
        rw
          (handle_all_keeps meanwhile
            (record m { connections = insert guild connection m.connections }))
          (lookup-erase guild j (insert guild connection m.connections)
            ∙ ground (arith, lookup-insert guild j connection m.connections)),
  )

  -- What a connect to a guild does: where the pair of updates is never complete it raises and the
  -- registry stays; where the new connection opens it is the guild's one; where opening raises, the
  -- guild has none. No other guild is touched, whatever arrives meanwhile.
  pub connect-Registered :
      (guild channel : ℕ) (mute deaf : Bool) (during : List Update) (rounds : List (List Update))
      (connection : ℕ) (meanwhile : List Update) (outcome : Result (Unit {0})) (m : VoiceManager)
      → let end =
          connect is_connected guild channel mute deaf during rounds connection meanwhile outcome
            m in
        Outcome guild connection outcome m.connections
          (first_pair guild (none, none) (during ∷ rounds))
          end
  unfolding connect
  connect-Registered guild channel mute deaf during rounds connection meanwhile outcome m =
      let m0 = close_existing (lookup guild m.connections) m in
      let (r, m') = request_join is_connected guild channel mute deaf during rounds m0 in
      let e = request_join-first_pair is_connected guild channel mute deaf during rounds m0 in
      let kept =
        request_join_keeps guild channel mute deaf during rounds m0
        ∙ close_existing_keeps (lookup guild m.connections) m in
      elim (Result-cases r) [
        | inr (x, h) ↦ rw (connect, sym e, h) (refl, kept)
        | inl (found, h) ↦
            rw (connect, sym e, h)
              (subst
                (λ cs.
                  Registered guild connection outcome cs
                    (open_connection is_connected guild connection meanwhile outcome m'))
                kept (open_connection-Registered guild connection meanwhile outcome m'))
      ]
