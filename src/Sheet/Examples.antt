-- ===== src/Sheet/Examples.antt =====
-- The theorems on the sheet at one drag: from its middle height down to its smallest, in a window
-- of 1000 px.
use ovlive_platform.Prelude.{ℕ, ◌+◌, ◌≡◌, refl, true, false, none, arith, if◌then◌else◌, ltb}
use ovlive_platform.Numbers.{hundredths, hundredths_laws, hundredths_order}
use ovlive_platform.Sheet.Defs.{
  Sheet, Drag, Target, new_sheet, pointer_down, pointer_move, pointer_up, cycle, dismiss_px,
  touch_is_prevented,
}
use ovlive_platform.Sheet.Runs.{
  Reach-IsSound, IsSound, IsWindow, start, next, presses, moves, lifts,
}
use ovlive_platform.Sheet.Release.{pointer_up_lem, IsChosen}

abbrev window : ℕ
window = 100000

abbrev header : Target
header = record { in_body = false; on_grip = false; on_control = false }

abbrev pressed : Sheet ℕ
pressed = pointer_down header 5000 40000 56000 (new_sheet true)

abbrev dragged : Sheet ℕ
dragged = pointer_move hundredths window 5000 70000 pressed

abbrev drag : Drag ℕ
drag = record { x = 5000; y = 40000; h = 56000; active = true; scroller = false }

window-IsWindow : IsWindow hundredths window
window-IsWindow = record { ordered = refl; dismiss_finite = refl; top_finite = refl }

Reach-IsSound_example : IsSound hundredths window (pointer_up hundredths window 70000 dragged)
unfolding pointer_down new_sheet
Reach-IsSound_example =
    Reach-IsSound hundredths window hundredths_laws hundredths_order window-IsWindow (
      next
        (next (next start (presses (new_sheet true) header 5000 40000 56000))
          (moves pressed 5000 70000 (λ d e. ground arith)))
        (lifts dragged 70000))

pointer_up_lem_example :
    let t = pointer_up hundredths window 70000 dragged in
    (if ltb 26000 (dismiss_px hundredths window + 100)
      then (t.closes ≡ dragged.closes + 1) × (t.snap ≡ dragged.snap)
      else (t.closes ≡ dragged.closes)
        × IsChosen hundredths hundredths_laws window 26000 30000 dragged.snap t.snap)
    × ((cycle t).snap ≡ t.snap)
    × (t.drag_h ≡ none)
unfolding pointer_down new_sheet pointer_move
pointer_up_lem_example =
    pointer_up_lem hundredths hundredths_laws window dragged drag 26000 70000 (omega arith) refl
      refl refl

-- The drag goes to the smallest snap.
drag_down : (pointer_up hundredths window 70000 dragged).snap ≡ 0
unfolding pointer_down new_sheet pointer_move pointer_up
drag_down = refl

-- A pull at the top of the list is kept from the browser; one inside it is not.
pull_at_edge :
    touch_is_prevented hundredths 1 50000 0
      (pointer_down (record header { in_body = true }) 5000 40000 56000 (new_sheet true))
    ≡ true
unfolding touch_is_prevented pointer_down new_sheet
pull_at_edge = refl
