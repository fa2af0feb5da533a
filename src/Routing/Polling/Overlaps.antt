-- ===== src/Routing/Polling/Overlaps.antt =====
-- What overlapping calls of `start_polling` keep, and what they do not.
use vaidcord.Base.{
  ℕ, ◌+◌, ◌<◌, ◌==◌, ==_iff, ◌≡◌, refl, inl, inr, Bool, true, false, not, ◌&&◌, ◌||◌, List, [], ◌∷◌,
  length, contains, arith, Bool-cases,
}
use vaidcord.Routing.Polling.{
  Phase, idle, starting, running, Dispatcher, add_bot, discard, is_empty, in_phase, begin_polling,
  finish_startup, fail_startup, end_run, finish_shutdown, fail_shutdown, Reachable, made, called,
  startup_done, startup_raised, run_ended, shutdown_done, shutdown_raised,
}

abbrev pub is_live : Phase → Bool
is_live starting = true
is_live running = true
is_live _ = false

-- Each call that waits for a startup or for its bot has the bot among the active ones, and a startup
-- was begun before; so it was where the dispatcher counts as started.
pub record IsConsistent (bot_of : ℕ → ℕ) (d : Dispatcher) : Type 0 where
  pub live_active : (c : ℕ) → is_live (d.phase c) ≡ true → contains (bot_of c) d.active_bots ≡ true
  pub live_begun : (c : ℕ) → is_live (d.phase c) ≡ true → 0 < d.startups
  pub started_begun : d.started ≡ true → 0 < d.startups

-- A call that is live after another phase was set was live before.
live_before :
    (b c : ℕ) (p : Phase) (d : Dispatcher)
    → is_live p ≡ false
    → is_live ((in_phase b p d).phase c) ≡ true
    → is_live (d.phase c) ≡ true
live_before b c p d n h = elim (Bool-cases (b == c)) [ inl e ↦ ground arith | inr e ↦ ground arith ]

contains-add_bot :
    (b c : ℕ) (bots : List ℕ) → contains c (add_bot b bots) ≡ (b == c || contains c bots)
contains-add_bot b c bots = elim (Bool-cases (b == c)) [
  | inl e ↦
      let same = (==_iff b c).0 e in
      elim (Bool-cases (contains b bots)) [
        | inl k ↦ rw (k, e) (rw (← same) k)
        | inr k ↦ ground (arith, same)
      ]
  | inr e ↦ ground (arith, e)
]

contains-discard :
    (b c : ℕ) (bots : List ℕ) → contains c (discard b bots) ≡ (not (b == c) && contains c bots)
contains-discard b c [] = ground arith
contains-discard b c (x ∷ bots) = ground (arith, contains-discard b c bots)

empty-contains : (c : ℕ) (bots : List ℕ) → is_empty bots ≡ true → contains c bots ≡ false
empty-contains c [] h = refl
empty-contains c (b ∷ bots) h = cc

module _ (bot_of : ℕ → ℕ) (apart : (b c : ℕ) → (bot_of b == bot_of c) ≡ (b == c)) where
  begin_polling-IsConsistent :
      (b : ℕ) (d : Dispatcher)
      → IsConsistent bot_of d
      → IsConsistent bot_of (begin_polling bot_of b d)
  unfolding begin_polling
  begin_polling-IsConsistent b d i = record {
    live_active = λ c h.
        let q = contains-add_bot (bot_of b) (bot_of c) d.active_bots in
        ground (arith, i.live_active c);
    live_begun = λ c h. ground (arith, i.started_begun, i.live_begun c);
    started_begun = λ h. ground (arith, i.started_begun);
  }

  finish_startup-IsConsistent :
      (b : ℕ) (d : Dispatcher)
      → d.phase b ≡ starting
      → IsConsistent bot_of d
      → IsConsistent bot_of (finish_startup bot_of b d)
  unfolding finish_startup
  finish_startup-IsConsistent b d p i = record {
    live_active = λ c h. elim (Bool-cases (b == c)) [
      | inl e ↦
          let same = (==_iff b c).0 e in
          let k = i.live_active b (rw p refl) in ground (arith, same, k)
      | inr e ↦ ground (arith, i.live_active c)
    ];
    live_begun = λ c h. i.live_begun b (rw p refl);
    started_begun = λ h. i.live_begun b (rw p refl);
  }

  idle-IsConsistent :
      (b : ℕ) (d : Dispatcher) → IsConsistent bot_of d → IsConsistent bot_of (in_phase b idle d)
  idle-IsConsistent b d i = record {
    live_active = λ c h. i.live_active c (live_before b c idle d refl h);
    live_begun = λ c h. i.live_begun c (live_before b c idle d refl h);
    started_begun = i.started_begun;
  }

  end_run-IsConsistent :
      (b : ℕ) (d : Dispatcher) → IsConsistent bot_of d → IsConsistent bot_of (end_run bot_of b d)
  unfolding end_run
  end_run-IsConsistent b d i = record {
    live_active = λ c h.
        let q = contains-discard (bot_of b) (bot_of c) d.active_bots in
        ground (arith, i.live_active c, apart b c);
    live_begun = λ c h. ground (arith, i.live_begun c);
    started_begun = λ h. ground (arith, i.started_begun);
  }

  Reachable-IsConsistent : (d : Dispatcher) → Reachable bot_of d → IsConsistent bot_of d
  unfolding finish_shutdown fail_shutdown fail_startup
  Reachable-IsConsistent _ made = record {
    live_active = λ c h. cc;
    live_begun = λ c h. cc;
    started_begun = λ h. cc;
  }
  Reachable-IsConsistent _ (called b d r p) =
      begin_polling-IsConsistent b d (Reachable-IsConsistent d r)
  Reachable-IsConsistent _ (startup_done b d r p) =
      finish_startup-IsConsistent b d p (Reachable-IsConsistent d r)
  Reachable-IsConsistent _ (startup_raised b d r p) =
      idle-IsConsistent b d (Reachable-IsConsistent d r)
  Reachable-IsConsistent _ (run_ended b d r p) =
      end_run-IsConsistent b d (Reachable-IsConsistent d r)
  Reachable-IsConsistent _ (shutdown_done b d r p) =
      let i = Reachable-IsConsistent d r in
      idle-IsConsistent b (record d { started = false })
        (record { live_active = i.live_active; live_begun = i.live_begun; started_begun = λ h. cc })
  Reachable-IsConsistent _ (shutdown_raised b d r p) =
      idle-IsConsistent b d (Reachable-IsConsistent d r)

  end_run-begins :
      (b : ℕ) (d : Dispatcher)
      → (end_run bot_of b d).shutdowns ≡ d.shutdowns + 1
      → (is_empty (discard (bot_of b) d.active_bots) ≡ true) × (d.started ≡ true)
  unfolding end_run
  end_run-begins b d h = ground arith

  -- Where no two calls are for the same bot, and however they overlap and fail: where the end of a bot's
  -- run begins the shutdown handlers, no call waits for a startup or for a bot any more, and a startup was begun before.
  pub end_run-shutdown :
      (b : ℕ) (d : Dispatcher)
      → Reachable bot_of d
      → (end_run bot_of b d).shutdowns ≡ d.shutdowns + 1
      → ((c : ℕ) → is_live ((end_run bot_of b d).phase c) ≡ false)
        × (0 < (end_run bot_of b d).startups)
  unfolding end_run
  end_run-shutdown b d r h =
      let i = Reachable-IsConsistent d r in
      let (e, st) = end_run-begins b d h in
      (
        (λ c.
            let q = contains-discard (bot_of b) (bot_of c) d.active_bots in
            let gone = empty-contains (bot_of c) (discard (bot_of b) d.active_bots) e in
            ground (arith, i.live_active c, apart b c)),
        ground (arith, i.started_begun),
      )

abbrev pub begin_all : (ℕ → ℕ) → List ℕ → Dispatcher → Dispatcher
begin_all bot_of [] d = d
begin_all bot_of (b ∷ bots) d = begin_all bot_of bots (begin_polling bot_of b d)

-- Calls that all begin before the first startup has ended begin a startup each.
begin_all_lem :
    (bot_of : ℕ → ℕ) (bots : List ℕ) (d : Dispatcher)
    → d.started ≡ false
    → ((begin_all bot_of bots d).startups ≡ d.startups + length bots)
      × ((begin_all bot_of bots d).shutdowns ≡ d.shutdowns)
unfolding begin_polling
begin_all_lem bot_of [] d h = (omega arith, refl)
begin_all_lem bot_of (b ∷ bots) d h =
    let ih = begin_all_lem bot_of bots (begin_polling bot_of b d) (ground arith) in ground arith
