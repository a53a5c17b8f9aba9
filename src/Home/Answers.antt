-- ===== src/Home/Answers.antt =====
-- The runs of the polls of apps/web/app/routes/home.tsx: the subject changes while the interval
-- fires and answers come in late.
use ovlive_platform.Prelude.{ℕ, ◌≤◌, ◌≡◌, refl, Option, some, arith, Text, ◌∷◌, true, false}
use ovlive_platform.Home.Polls.{
  IntervalPoll, Ask, new_poll, start_poll, on_tick, on_answer, on_failure,
}

-- The requests of an effect that has started and whose interval has fired.
first_ask : Text → Ask
first_ask id = record { effect = 1; subject = id; initial = true }

second_ask : Text → Ask
second_ask id = record { effect = 1; subject = id; initial = false }

module _ {V : Type 0} where
  pub data Step : IntervalPoll V → IntervalPoll V → Type 0 where
    starts : (s : IntervalPoll V) (subject : Option Text) → Step s (start_poll subject s)
    ticks : (s : IntervalPoll V) (id : Text) → s.interval ≡ some id → Step s (on_tick id s)
    answers :
        (s : IntervalPoll V) (n : ℕ) (a : Ask) (v : V)
        → s.asked n ≡ some a
        → Step s (on_answer n a v s)
    fails : (s : IntervalPoll V) (n : ℕ) (a : Ask) → s.asked n ≡ some a → Step s (on_failure n a s)

  pub data Reach : IntervalPoll V → Type 0 where
    start : Reach new_poll
    next : {s t : IntervalPoll V} → Reach s → Step s t → Reach t

  pub record IsCurrent (s : IntervalPoll V) : Type 0 where
    pub ask_current :
        (n : ℕ) (a : Ask) → s.asked n ≡ some a → a.effect ≡ s.effect → s.subject ≡ some a.subject
    pub ask_old : (n : ℕ) (a : Ask) → s.asked n ≡ some a → a.effect ≤ s.effect
    pub interval_current : (id : Text) → s.interval ≡ some id → s.subject ≡ some id
    pub shown_current :
        (n : ℕ) (id : Text) (v : V) → s.shown ≡ some (n, id, v) → s.subject ≡ some id

  new_poll-IsCurrent : IsCurrent new_poll
  unfolding new_poll
  new_poll-IsCurrent = record {
    ask_current = λ n a e k. ground arith;
    ask_old = λ n a e. ground arith;
    interval_current = λ id e. ground arith;
    shown_current = λ n id v e. ground arith;
  }

  module _ (s : IntervalPoll V) (h : IsCurrent s) where
    start_poll-IsCurrent : (subject : Option Text) → IsCurrent (start_poll subject s)
    unfolding start_poll
    start_poll-IsCurrent subject = record {
      ask_current = λ n a e k. ground (arith, h.ask_old n a);
      ask_old = λ n a e. ground (arith, h.ask_old n a);
      interval_current = λ id e. ground arith;
      shown_current = λ n id v e. ground arith;
    }

    on_tick-IsCurrent : (id : Text) → s.interval ≡ some id → IsCurrent (on_tick id s)
    unfolding on_tick
    on_tick-IsCurrent id e = record {
      ask_current = λ n a f k. ground (arith, h.ask_current n a, h.interval_current id);
      ask_old = λ n a f. ground (arith, h.ask_old n a);
      interval_current = λ x f. h.interval_current x f;
      shown_current = λ n x v f. h.shown_current n x v f;
    }

    on_answer-IsCurrent :
        (n : ℕ) (a : Ask) (v : V) → s.asked n ≡ some a → IsCurrent (on_answer n a v s)
    unfolding on_answer
    on_answer-IsCurrent n a v e = record {
      ask_current = λ m b f k. ground (arith, h.ask_current m b);
      ask_old = λ m b f. ground (arith, h.ask_old m b);
      interval_current = λ x f. ground (arith, h.interval_current x);
      shown_current = λ m x w f. ground (arith, h.shown_current m x w, h.ask_current n a);
    }

    on_failure-IsCurrent : (n : ℕ) (a : Ask) → s.asked n ≡ some a → IsCurrent (on_failure n a s)
    unfolding on_failure
    on_failure-IsCurrent n a e = record {
      ask_current = λ m b f k. ground (arith, h.ask_current m b);
      ask_old = λ m b f. ground (arith, h.ask_old m b);
      interval_current = λ x f. ground (arith, h.interval_current x);
      shown_current = λ m x w f. ground (arith, h.shown_current m x w);
    }

  Step-IsCurrent : {s t : IntervalPoll V} → Step s t → IsCurrent s → IsCurrent t
  Step-IsCurrent (starts s subject) h = start_poll-IsCurrent s h subject
  Step-IsCurrent (ticks s id e) h = on_tick-IsCurrent s h id e
  Step-IsCurrent (answers s n a v e) h = on_answer-IsCurrent s h n a v e
  Step-IsCurrent (fails s n a e) h = on_failure-IsCurrent s h n a e

  Reach-IsCurrent : {s : IntervalPoll V} → Reach s → IsCurrent s
  Reach-IsCurrent start = new_poll-IsCurrent
  Reach-IsCurrent (next r st) = Step-IsCurrent st (Reach-IsCurrent r)

  -- In every run, however late the answers come, what is shown was asked for the vehicle that is
  -- active now, or the stop that is open now.
  pub shown_is_current :
      {s : IntervalPoll V} (n : ℕ) (id : Text) (v : V)
      → Reach s
      → s.shown ≡ some (n, id, v)
      → s.subject ≡ some id
  shown_is_current n id v r e = (Reach-IsCurrent r).shown_current n id v e

  -- Two requests are in flight.
  both_asked : Text → IntervalPoll V
  both_asked id = on_tick id (start_poll (some id) new_poll)

  -- For every vehicle and any two answers there is a run in which the answer to an earlier request
  -- replaces that to a later one, which was on show.
  pub late_answer_replaces :
      (c : ℕ) (id : Text) (v w : V)
      → (s t : IntervalPoll V) × Reach s
        × Step s t
        × (s.shown ≡ some (1, c ∷ id, w))
        × (t.shown ≡ some (0, c ∷ id, v))
  unfolding both_asked first_ask second_ask start_poll on_tick new_poll on_answer
  late_answer_replaces c id v w =
      let x = c ∷ id in
      let s = on_answer 1 (second_ask x) w (both_asked x) in
      (
        s,
        on_answer 0 (first_ask x) v s,
        next
            (next (next start (starts new_poll (some x)))
              (ticks (start_poll (some x) new_poll) x refl))
            (answers (both_asked x) 1 (second_ask x) w refl),
        answers s 0 (first_ask x) v refl,
        refl,
        refl,
      )
