-- ===== src/Board/Examples.antt =====
-- The theorems on the board at one run: two stops are opened, and the first answers last.
use ovlive_platform.Prelude.{ℕ, ◌≡◌, refl, true, none, some, codes}
use ovlive_platform.Board.Defs.{BoardPoll, Ask, open_board, on_board, new_board}
use ovlive_platform.Board.Polling.{
  next, start, opens, answers, Reach, polled_once, board_of_open_stop,
}

abbrev first_open : BoardPoll ℕ
first_open = open_board (some (codes "s1")) new_board

abbrev second_open : BoardPoll ℕ
second_open = open_board (some (codes "s2")) first_open

abbrev ask_1 : Ask
ask_1 = record { effect = 1; stop = codes "s1"; initial = true }

abbrev ask_2 : Ask
ask_2 = record { effect = 2; stop = codes "s2"; initial = true }

second_open-Reach : Reach second_open
second_open-Reach =
    next (next start (opens new_board (some (codes "s1")))) (opens first_open (some (codes "s2")))

abbrev answered : BoardPoll ℕ
answered = on_board 0 ask_1 71 (on_board 1 ask_2 72 second_open)

answered-Reach : Reach answered
unfolding open_board new_board on_board
answered-Reach =
    next (next second_open-Reach (answers second_open 1 ask_2 72 refl))
      (answers (on_board 1 ask_2 72 second_open) 0 ask_1 71 refl)

polled_once_example : (◌≡◌ {A = ℕ} 1 1) × (second_open.timers 0 ≡ none)
unfolding open_board new_board
polled_once_example = polled_once 1 1 0 ask_2 ask_2 second_open-Reach refl refl refl refl

-- The late answer for the first stop is dropped.
board_of_open_stop_example : answered.stop_id ≡ some (codes "s2")
unfolding open_board new_board on_board
board_of_open_stop_example = board_of_open_stop (codes "s2") 72 answered-Reach refl
