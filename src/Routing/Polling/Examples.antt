-- ===== src/Routing/Polling/Examples.antt =====
-- Two bots on one dispatcher.
use vaidcord.Base.{ℕ, ◌+◌, ◌<◌, ◌≡◌, refl, false}
use vaidcord.Routing.Polling.{
  running, Dispatcher, fresh, begin_polling, finish_startup, end_run, Reachable, made, called,
  startup_done, run_ended,
}
use vaidcord.Routing.Polling.Overlaps.{is_live, end_run-shutdown}

-- Each call has a bot of its own.
abbrev own : ℕ → ℕ
own c = c

-- Both begin, both startups end, and the first bot ends.
abbrev overlapped : Dispatcher
overlapped =
    end_run own 1 (
      finish_startup own 2 (finish_startup own 1 (begin_polling own 2 (begin_polling own 1 fresh))))

overlapped-Reachable : Reachable own overlapped
unfolding begin_polling finish_startup end_run
overlapped-Reachable =
    run_ended 1 _
      (startup_done 2 _ (startup_done 1 _ (called 2 _ (called 1 _ made refl) refl) refl) refl) refl

last_shuts_down : (end_run own 2 overlapped).shutdowns ≡ overlapped.shutdowns + 1
unfolding begin_polling finish_startup end_run
last_shuts_down = refl

started_twice : overlapped.startups ≡ 2
unfolding begin_polling finish_startup end_run
started_twice = refl

end_run-shutdown_example :
    ((c : ℕ) → is_live ((end_run own 2 overlapped).phase c) ≡ false)
    × (0 < (end_run own 2 overlapped).startups)
end_run-shutdown_example =
    end_run-shutdown own (λ b c. refl) 2 overlapped overlapped-Reachable last_shuts_down

-- Two calls for one bot: the second run ends at once, and takes the bot off while the first still runs.
abbrev same_bot : Dispatcher
same_bot =
    end_run (λ c. 7) 2
      (begin_polling (λ c. 7) 2 (finish_startup (λ c. 7) 1 (begin_polling (λ c. 7) 1 fresh)))

shut_down_early : (same_bot.shutdowns ≡ 1) × (same_bot.phase 1 ≡ running)
unfolding begin_polling finish_startup end_run
shut_down_early = (refl, refl)
