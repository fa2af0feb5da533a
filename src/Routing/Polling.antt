-- ===== src/Routing/Polling.antt =====
-- `Dispatcher.start_polling` of vaidcord-py/src/vaidcord/dispatcher.py, by the parts between its awaits:
-- several calls poll at once on one dispatcher. Calls and bots are numbers, and `bot_of` is the bot of a
-- call. A bot's run and the startup and shutdown handlers, which may raise, are what the parts wait for.
pub mod Overlaps
mod Examples
use vaidcord.Base.{
  ℕ, ◌+◌, ◌==◌, ◌≡◌, Bool, true, false, not, ◌&&◌, ◌||◌, List, [], ◌∷◌, if◌then◌else◌, contains,
}

-- Where a call stands: it waits for the startup, for the bot, or for the shutdown.
pub data Phase : Type 0 where
  idle starting running stopping : Phase

-- `_active_bots` and `_started`, with the calls and the numbers of startups and shutdowns begun.
pub record Dispatcher : Type 0 where
  pub active_bots : List ℕ
  pub started : Bool
  pub phase : ℕ → Phase
  pub startups : ℕ
  pub shutdowns : ℕ

abbrev pub fresh : Dispatcher
fresh = record { active_bots = []; started = false; phase = λ b. idle; startups = 0; shutdowns = 0 }

-- `set.add` and `set.discard`
abbrev pub add_bot : ℕ → List ℕ → List ℕ
add_bot b bots = if contains b bots then bots else b ∷ bots

abbrev pub discard : ℕ → List ℕ → List ℕ
discard b [] = []
discard b (c ∷ bots) = if b == c then discard b bots else c ∷ discard b bots

abbrev pub is_empty : List ℕ → Bool
is_empty [] = true
is_empty (b ∷ bots) = false

abbrev pub in_phase : ℕ → Phase → Dispatcher → Dispatcher
in_phase b p d = record d { phase = λ c. if b == c then p else d.phase c }

module _ (bot_of : ℕ → ℕ) where
  -- From the call to its first await.
  unfoldable pub begin_polling : ℕ → Dispatcher → Dispatcher
  begin_polling b d =
      let d' = record d { active_bots = add_bot (bot_of b) d.active_bots } in
      if d.started
      then in_phase b running d'
      else in_phase b starting (record d' { startups = d.startups + 1 })

  -- After the startup handlers, and where one of them raised: that is before the `try`.
  unfoldable pub finish_startup : ℕ → Dispatcher → Dispatcher
  finish_startup b d = in_phase b running (record d { started = true })

  unfoldable pub fail_startup : ℕ → Dispatcher → Dispatcher
  fail_startup b d = in_phase b idle d

  -- `finally`, from the end of the bot's run on.
  unfoldable pub end_run : ℕ → Dispatcher → Dispatcher
  end_run b d =
      let d' = record d { active_bots = discard (bot_of b) d.active_bots } in
      if is_empty d'.active_bots && d.started
      then in_phase b stopping (record d' { shutdowns = d.shutdowns + 1 })
      else in_phase b idle d'

  unfoldable pub finish_shutdown : ℕ → Dispatcher → Dispatcher
  finish_shutdown b d = in_phase b idle (record d { started = false })

  unfoldable pub fail_shutdown : ℕ → Dispatcher → Dispatcher
  fail_shutdown b d = in_phase b idle d

  -- The states that any calls reach, their parts in any order.
  pub data Reachable : Dispatcher → Type 0 where
    made : Reachable fresh
    called :
        (b : ℕ) (d : Dispatcher) → Reachable d → d.phase b ≡ idle → Reachable (begin_polling b d)
    startup_done :
        (b : ℕ) (d : Dispatcher)
        → Reachable d
        → d.phase b ≡ starting
        → Reachable (finish_startup b d)
    startup_raised :
        (b : ℕ) (d : Dispatcher) → Reachable d → d.phase b ≡ starting → Reachable (fail_startup b d)
    run_ended :
        (b : ℕ) (d : Dispatcher) → Reachable d → d.phase b ≡ running → Reachable (end_run b d)
    shutdown_done :
        (b : ℕ) (d : Dispatcher)
        → Reachable d
        → d.phase b ≡ stopping
        → Reachable (finish_shutdown b d)
    shutdown_raised :
        (b : ℕ) (d : Dispatcher)
        → Reachable d
        → d.phase b ≡ stopping
        → Reachable (fail_shutdown b d)
