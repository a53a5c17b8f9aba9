-- ===== src/Board/Polling.antt =====
-- The runs of the board: stops are opened and closed while answers and failures come in late.
use ovlive_platform.Prelude.{
  ℕ, ◌≤◌, ◌≡◌, refl, Option, none, some, arith, Text, inl, inr, Option-cases,
}
use ovlive_platform.Board.Defs.{
  new_board, on_wait, Ask, on_board_failed, on_board, Wait, open_board, BoardPoll,
}

module _ {B : Type 0} where
  pub data Step : BoardPoll B → BoardPoll B → Type 0 where
    opens : (s : BoardPoll B) (stop : Option Text) → Step s (open_board stop s)
    answers :
        (s : BoardPoll B) (n : ℕ) (a : Ask) (b : B) → s.asked n ≡ some a → Step s (on_board n a b s)
    fails :
        (s : BoardPoll B) (n : ℕ) (a : Ask) (status : Option ℕ)
        → s.asked n ≡ some a
        → Step s (on_board_failed n a status s)
    fires : (s : BoardPoll B) (t : ℕ) (w : Wait) → s.timers t ≡ some w → Step s (on_wait t w s)

  pub data Reach : BoardPoll B → Type 0 where
    start : Reach new_board
    next : {s t : BoardPoll B} → Reach s → Step s t → Reach t

  pub record IsPolled (s : BoardPoll B) : Type 0 where
    pub ask_current :
        (n : ℕ) (a : Ask) → s.asked n ≡ some a → a.effect ≡ s.effect → s.stop_id ≡ some a.stop
    pub ask_old : (n : ℕ) (a : Ask) → s.asked n ≡ some a → a.effect ≤ s.effect
    pub ask_fresh : (n : ℕ) → s.next_ask ≤ n → s.asked n ≡ none
    pub wait_current :
        (t : ℕ) (w : Wait)
        → s.timers t ≡ some w
        → (w.effect ≡ s.effect) × (s.stop_id ≡ some w.stop) × (s.timer ≡ some t)
    pub shown : (x : Text) (b : B) → s.board ≡ some (x, b) → s.stop_id ≡ some x
    pub one_ask :
        (n m : ℕ) (a b : Ask)
        → s.asked n ≡ some a
        → s.asked m ≡ some b
        → a.effect ≡ s.effect
        → b.effect ≡ s.effect
        → n ≡ m
    pub ask_or_wait :
        (n t : ℕ) (a : Ask) → s.asked n ≡ some a → a.effect ≡ s.effect → s.timers t ≡ none

  new_board-IsPolled : IsPolled new_board
  unfolding new_board
  new_board-IsPolled = record {
    ask_current = λ n a e k. ground arith;
    ask_old = λ n a e. ground arith;
    ask_fresh = λ n k. refl;
    wait_current = λ t w e. absurd (ground arith);
    shown = λ x b e. ground arith;
    one_ask = λ n m a b e f k l. ground arith;
    ask_or_wait = λ n t a e k. refl;
  }

  module _ (s : BoardPoll B) (h : IsPolled s) where
    open_board-IsPolled : (stop : Option Text) → IsPolled (open_board stop s)
    unfolding open_board
    open_board-IsPolled stop = record {
      ask_current = λ n a e k. ground (arith, h.ask_old n a);
      ask_old = λ n a e. ground (arith, h.ask_old n a);
      ask_fresh = λ n k. ground (arith, h.ask_fresh n);
      wait_current = λ t w e. ground (arith, h.wait_current t w);
      shown = λ x b e. ground arith;
      one_ask = λ n m a b e f k l. ground (arith, h.ask_old n a, h.ask_old m b);
      ask_or_wait = λ n t a e k. elim (Option-cases (s.timers t)) [
        | inl out ↦ ground (arith, out)
        | inr (v, q) ↦ ground (arith, h.wait_current t v q)
      ];
    }

    on_board-IsPolled : (n : ℕ) (a : Ask) (b : B) → s.asked n ≡ some a → IsPolled (on_board n a b s)
    unfolding on_board
    on_board-IsPolled n a b e = record {
      ask_current = λ m c f k. ground (arith, h.ask_current m c);
      ask_old = λ m c f. ground (arith, h.ask_old m c);
      ask_fresh = λ m k. ground (arith, h.ask_fresh m);
      wait_current =
          λ t w f. ground (arith, h.wait_current t w, h.ask_current n a, h.ask_or_wait n t a);
      shown = λ x c f. ground (arith, h.shown x c, h.ask_current n a);
      one_ask = λ m l c d f g k o. ground (arith, h.one_ask m l c d);
      ask_or_wait = λ m t c f k. ground (arith, h.ask_or_wait m t c, h.one_ask n m a c);
    }

    on_board_failed-IsPolled :
        (n : ℕ) (a : Ask) (status : Option ℕ)
        → s.asked n ≡ some a
        → IsPolled (on_board_failed n a status s)
    unfolding on_board_failed
    on_board_failed-IsPolled n a status e = record {
      ask_current = λ m c f k. ground (arith, h.ask_current m c);
      ask_old = λ m c f. ground (arith, h.ask_old m c);
      ask_fresh = λ m k. ground (arith, h.ask_fresh m);
      wait_current =
          λ t w f. ground (arith, h.wait_current t w, h.ask_current n a, h.ask_or_wait n t a);
      shown = λ x c f. ground (arith, h.shown x c, h.ask_current n a);
      one_ask = λ m l c d f g k o. ground (arith, h.one_ask m l c d);
      ask_or_wait = λ m t c f k. ground (arith, h.ask_or_wait m t c, h.one_ask n m a c);
    }

    on_wait-IsPolled : (t : ℕ) (w : Wait) → s.timers t ≡ some w → IsPolled (on_wait t w s)
    unfolding on_wait
    on_wait-IsPolled t w e = record {
      ask_current = λ m c f k. ground (arith, h.ask_current m c, h.wait_current t w);
      ask_old = λ m c f. ground (arith, h.ask_old m c, h.wait_current t w);
      ask_fresh = λ m k. ground (arith, h.ask_fresh m);
      wait_current = λ u v f. ground (arith, h.wait_current u v);
      shown = λ x c f. ground (arith, h.shown x c);
      one_ask = λ m l c d f g k o.
          ground (arith, h.one_ask m l c d, h.ask_or_wait m t c, h.ask_or_wait l t d);
      ask_or_wait = λ m u c f k. elim (Option-cases (s.timers u)) [
        | inl out ↦ ground (arith, out)
        | inr (v, q) ↦ ground (arith, h.wait_current t w e, h.wait_current u v q)
      ];
    }

  Step-IsPolled : {s t : BoardPoll B} → Step s t → IsPolled s → IsPolled t
  Step-IsPolled (opens s stop) h = open_board-IsPolled s h stop
  Step-IsPolled (answers s n a b e) h = on_board-IsPolled s h n a b e
  Step-IsPolled (fails s n a status e) h = on_board_failed-IsPolled s h n a status e
  Step-IsPolled (fires s t w e) h = on_wait-IsPolled s h t w e

  Reach-IsPolled : {s : BoardPoll B} → Reach s → IsPolled s
  Reach-IsPolled start = new_board-IsPolled
  Reach-IsPolled (next r st) = Step-IsPolled st (Reach-IsPolled r)

  -- In every run, however late the answers come, a board that is shown was asked for the stop that
  -- is open now.
  pub board_of_open_stop :
      {s : BoardPoll B} (x : Text) (b : B) → Reach s → s.board ≡ some (x, b) → s.stop_id ≡ some x
  board_of_open_stop x b r e = (Reach-IsPolled r).shown x b e

  -- In every run, the open stop is polled once at a time: two requests of the effect that is alive
  -- are the same one, and while it is in flight no timer is pending.
  pub polled_once :
      {s : BoardPoll B} (n m t : ℕ) (a b : Ask)
      → Reach s
      → s.asked n ≡ some a
      → a.effect ≡ s.effect
      → s.asked m ≡ some b
      → b.effect ≡ s.effect
      → (n ≡ m) × (s.timers t ≡ none)
  polled_once n m t a b r e k f l =
      let h = Reach-IsPolled r in (h.one_ask n m a b e f k l, h.ask_or_wait n t a e k)
