-- ===== src/Http/Retry/Attempts.antt =====
-- How a request ends, over any server.
use vaidcord.Base.{
  ℕ, zero, suc, ◌+◌, ◌-◌, ◌*◌, ◌^◌, ◌≤◌, ◌<◌, ◌≡◌, ◌⊎◌, inl, inr, refl, sym, ap, ◌∙◌, Bool, true,
  false, ◌&&◌, Option, none, some, List, [], ◌∷◌, ◌++◌, leb, arith, Bool-cases,
}
use mathlib.Core.List.{append_assoc, append-nil}
use vaidcord.Http.Retry.{
  RetryPolicy, should_retry, delay_for, Exchange, response, failure, Outcome, returned, raised,
  Trace, note_attempt, note_delay, decide, loop, request_with_retry,
}

-- The delays after `n` attempts from the one numbered `a`.
unfoldable pub delays : ℕ → ℕ → RetryPolicy → List ℕ
delays zero a p = []
delays (suc n) a p = p.base_delay * 2 ^ a ∷ delays n (a + 1) p

module _ {E : Type 0} where
  -- The exchange as an outcome, and whether another attempt may follow it.
  abbrev pub outcome_of : Exchange E → Outcome E
  outcome_of (response status body) = returned status body
  outcome_of (failure e) = raised e

  abbrev pub is_retryable : Exchange E → Bool
  is_retryable (response status body) = leb 500 status
  is_retryable (failure e) = true

  -- Every exchange from `a` on, `n` of them, asks for another attempt.
  unfoldable pub all_retryable : ℕ → ℕ → (ℕ → Exchange E) → Bool
  all_retryable zero a server = true
  all_retryable (suc n) a server = is_retryable (server a) && all_retryable n (a + 1) server

  decide-retry :
      (p : RetryPolicy) (a : ℕ) (last : Option E) (x : Exchange E)
      → is_retryable x ≡ true
      → a < p.max_retries
      → (l : Option E) × (decide p a last x ≡ inl l)
  unfolding should_retry
  decide-retry p a last (response status body) h small = (last, ground arith)
  decide-retry p a last (failure e) h small = (some e, ground arith)

  decide-final :
      (p : RetryPolicy) (a : ℕ) (last : Option E) (x : Exchange E)
      → (is_retryable x ≡ false) ⊎ (p.max_retries ≤ a)
      → decide p a last x ≡ inr (outcome_of x)
  unfolding should_retry
  decide-final p a last (response status body) (inl h) = ground arith
  decide-final p a last (response status body) (inr h) = ground arith
  decide-final p a last (failure e) (inl h) = absurd (cc h)
  decide-final p a last (failure e) (inr h) = ground arith

  -- How a run of the loop from the attempt `a` ends, `n` attempts on.
  pub record Ends (p : RetryPolicy) (server : ℕ → Exchange E) (rounds a : ℕ) (t : Trace)
      (x : Outcome E × Trace) : Type 0 where
    pub n : ℕ
    pub enough : n < rounds
    pub outcome : x.0 ≡ outcome_of (server (a + n))
    pub attempts : x.1.attempts ≡ t.attempts + n + 1
    pub slept : x.1.slept ≡ t.slept ++ delays n a p
    pub before : all_retryable n a server ≡ true
    pub last : (is_retryable (server (a + n)) ≡ false) ⊎ (n + 1 ≡ rounds)

  loop-stop :
      (rounds a : ℕ) (p : RetryPolicy) (server : ℕ → Exchange E) (last : Option E) (t : Trace)
      (o : Outcome E)
      → decide p (a + 1) last (server a) ≡ inr o
      → loop (suc rounds) a p server last t ≡ (o, note_attempt t)
  unfolding loop
  loop-stop rounds a p server last t o h = ground arith

  loop-go :
      (rounds a : ℕ) (p : RetryPolicy) (server : ℕ → Exchange E) (last l : Option E) (t : Trace)
      → decide p (a + 1) last (server a) ≡ inl l
      → loop (suc rounds) a p server last t
        ≡ loop rounds (a + 1) p server l (note_delay (delay_for p (a + 1)) (note_attempt t))
  unfolding loop
  loop-go rounds a p server last l t h = ground arith

  Ends-stop :
      (rounds a : ℕ) (p : RetryPolicy) (server : ℕ → Exchange E) (t : Trace)
      → (is_retryable (server a) ≡ false) ⊎ (1 ≡ suc rounds)
      → Ends p server (suc rounds) a t (outcome_of (server a), note_attempt t)
  unfolding delays all_retryable
  Ends-stop rounds a p server t h =
      let e : a + 0 ≡ a = omega arith in
      record {
        n = 0;
        enough = omega arith;
        outcome = rw e refl;
        attempts = omega arith;
        slept = sym (append-nil t.slept);
        before = refl;
        last = rw e h;
      }

  Ends-go :
      (rounds a : ℕ) (p : RetryPolicy) (server : ℕ → Exchange E) (t : Trace) (x : Outcome E × Trace)
      → is_retryable (server a) ≡ true
      → Ends p server rounds (a + 1) (note_delay (delay_for p (a + 1)) (note_attempt t)) x
      → Ends p server (suc rounds) a t x
  unfolding delays all_retryable delay_for
  Ends-go rounds a p server t x h k =
      let e : a + suc k.n ≡ a + 1 + k.n = omega arith in
      let d : a + 1 - 1 ≡ a = omega arith in
      let dd : delay_for p (a + 1) ≡ p.base_delay * 2 ^ a = ap (λ z. p.base_delay * 2 ^ z) d in
      record {
        n = suc k.n;
        enough = omega (arith, k.enough);
        outcome = rw e k.outcome;
        attempts = omega (arith, k.attempts);
        slept =
            k.slept
            ∙ (append_assoc t.slept (delay_for p (a + 1) ∷ []) (delays k.n (a + 1) p)
                ∙ ap (λ z. t.slept ++ z ∷ delays k.n (a + 1) p) dd);
        before = rw (h, k.before) refl;
        last = rw e (elim k.last [ inl q ↦ inl q | inr q ↦ inr (omega (arith, q)) ]);
      }

  loop-Ends :
      (p : RetryPolicy) (server : ℕ → Exchange E) (rounds a : ℕ) (last : Option E) (t : Trace)
      → a + suc rounds ≡ p.max_retries
      → Ends p server (suc rounds) a t (loop (suc rounds) a p server last t)
  loop-Ends p server zero a last t h =
      rw
        (loop-stop zero a p server last t (outcome_of (server a))
          (decide-final p (a + 1) last (server a) (inr (omega (arith, h)))))
        (Ends-stop zero a p server t (inr refl))
  loop-Ends p server (suc rounds) a last t h = elim (Bool-cases (is_retryable (server a))) [
    | inr e ↦
        rw
          (loop-stop (suc rounds) a p server last t (outcome_of (server a))
            (decide-final p (a + 1) last (server a) (inl e)))
          (Ends-stop (suc rounds) a p server t (inl e))
    | inl e ↦
        let (l, q) = decide-retry p (a + 1) last (server a) e (omega (arith, h)) in
        rw (loop-go (suc rounds) a p server last l t q) (
          Ends-go (suc rounds) a p server t _ e (
            loop-Ends p server rounds (a + 1) l (note_delay (delay_for p (a + 1)) (note_attempt t))
              (omega (arith, h))))
  ]

  loop_from-Ends :
      (p : RetryPolicy) (server : ℕ → Exchange E) (rounds : ℕ) (t : Trace)
      → rounds ≡ p.max_retries
      → 0 < rounds
      → Ends p server rounds 0 t (loop rounds 0 p server none t)
  loop_from-Ends p server zero t e h = absurd (omega (arith, h))
  loop_from-Ends p server (suc rounds) t e h = loop-Ends p server rounds 0 none t (omega (arith, e))

  -- With at least one attempt allowed, the request ends within `max_retries` attempts with what its
  -- last attempt met, returned or raised, and never otherwise: each attempt before met an exception or
  -- a status of 500 or more, the last met neither or was the last allowed, and between the attempts the
  -- delays were the base delay doubled each time.
  pub request_with_retry_lem :
      (p : RetryPolicy) (server : ℕ → Exchange E)
      → 0 < p.max_retries
      → Ends p server p.max_retries 0
          (record { attempts = 0; slept = [] })
          (request_with_retry p server)
  unfolding request_with_retry
  request_with_retry_lem p server h =
      loop_from-Ends p server p.max_retries (record { attempts = 0; slept = [] }) refl h
