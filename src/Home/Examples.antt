-- ===== src/Home/Examples.antt =====
-- The theorems on the web screen at short runs: a tab is added and several are given up, and a poll
-- is answered out of order.
use ovlive_platform.Prelude.{ℕ, ◌≡◌, refl, true, false, some, List, [], ◌∷◌, codes}
use ovlive_platform.Samples.{bus_1, tram_2}
use ovlive_platform.Selection.Actions.{new_app}
use ovlive_platform.Home.Unfollowed.{unfollowed}
use ovlive_platform.Home.Actions.{
  Action, Event, both, pan, unfollow, isolate, types, web_events, mobile_events, web_run,
  mobile_run, select, multi_select, back, gone,
}
use ovlive_platform.Home.Agreement.{runs_agree}
use ovlive_platform.Home.Polls.{IntervalPoll, Ask, new_poll, start_poll, on_answer}
use ovlive_platform.Home.Answers.{
  Step, Reach, start, next, starts, answers, shown_is_current, late_answer_replaces,
}

abbrev two_then_one : List (Action ℕ)
two_then_one =
    select bus_1.id (some bus_1)
    ∷ select tram_2.id (some tram_2)
    ∷ gone bus_1.id
    ∷ back bus_1
    ∷ multi_select false
    ∷ []

-- The user opens a vehicle's tab, moves the map, isolates the vehicle and stops following it.
abbrev moves_the_map : List (Event ℕ)
moves_the_map =
    both (select bus_1.id (some bus_1))
    ∷ pan
    ∷ both isolate
    ∷ unfollow
    ∷ both (types (codes "2"))
    ∷ []

runs_agree_example :
    (web_run two_then_one (new_app true) ≡ mobile_run two_then_one (new_app true))
    × (unfollowed (web_events moves_the_map (new_app true))
        ≡ unfollowed (mobile_events moves_the_map (new_app true)))
runs_agree_example = runs_agree true two_then_one moves_the_map

abbrev asks_bus : Ask
asks_bus = record { effect = 1; subject = codes "b1"; initial = true }

abbrev polled : IntervalPoll ℕ
polled = start_poll (some (codes "b1")) new_poll

shown_is_current_example : (on_answer 0 asks_bus 7 polled).subject ≡ some (codes "b1")
unfolding start_poll new_poll on_answer
shown_is_current_example =
    shown_is_current 0 (codes "b1") 7
      (next (next start (starts new_poll (some (codes "b1")))) (answers polled 0 asks_bus 7 refl))
      refl

late_answer_replaces_example :
    (s t : IntervalPoll ℕ) × Reach s
    × Step s t
    × (s.shown ≡ some (1, codes "b1", 8))
    × (t.shown ≡ some (0, codes "b1", 7))
late_answer_replaces_example = late_answer_replaces b'b' (codes "1") 7 8
