-- ===== src/Selection/Examples.antt =====
-- The theorems on the map screen at one run: two vehicles are selected, and one leaves the stream.
use ovlive_platform.Prelude.{
  ◌&&◌, not, ℕ, ◌≡◌, refl, true, false, none, some, [], codes, text_eq, Text,
}
use ovlive_platform.Samples.{bus_1, tram_2, bus_summary}
use ovlive_platform.Types.{VehicleTripPlan}
use ovlive_platform.Selection.Defs.{
  is_selected, refetch, refetch_plan, select_vehicle, close_tab, on_plan, MapApp, Selected,
}
use ovlive_platform.Selection.Tabs.{IsWellFormed}
use ovlive_platform.Selection.Actions.{
  new_app, Reach-IsWellFormed, closes, next, selects, Reach, start,
}
use ovlive_platform.Selection.Close.{close_tab_lem}
use ovlive_platform.Selection.Trips.{refetch_settles}

abbrev two_tabs : MapApp ℕ
two_tabs =
    select_vehicle tram_2.id (some tram_2) (select_vehicle bus_1.id (some bus_1) (new_app true))

two_tabs-Reach : Reach true two_tabs
two_tabs-Reach =
    next (next start (selects (new_app true) bus_1.id (some bus_1)))
      (selects (select_vehicle bus_1.id (some bus_1) (new_app true)) tram_2.id (some tram_2))

Reach-IsWellFormed_example : IsWellFormed (close_tab tram_2.id two_tabs)
Reach-IsWellFormed_example = Reach-IsWellFormed (next two_tabs-Reach (closes two_tabs tram_2.id))

abbrev bus_tab : Selected ℕ
bus_tab = record { id = bus_1.id; basic = some bus_1; ended = false; replacement = none }

abbrev plan_of : Text → VehicleTripPlan ℕ
plan_of id = record { trip_id = some id; route_shape = []; stops = [] }

-- The detail reports trip t2 while the plan of t1 is loaded.
abbrev reported : MapApp ℕ
reported = record (new_app true) {
  detail = some (record { vehicle = bus_summary; trip_id = some (codes "t2") });
  trip = some (plan_of (codes "t1"));
}

refetch_settles_example : refetch (on_plan (plan_of (codes "t3")) (refetch_plan reported)) ≡ none
unfolding refetch new_app text_eq
refetch_settles_example = refetch_settles reported (plan_of (codes "t3")) (codes "t2") refl

close_tab_lem_example :
    (is_selected bus_1.id (close_tab tram_2.id two_tabs).selected
      ≡ (is_selected bus_1.id two_tabs.selected && not (text_eq tram_2.id bus_1.id)))
    × IsWellFormed (close_tab tram_2.id two_tabs)
close_tab_lem_example =
    close_tab_lem tram_2.id bus_1.id two_tabs (Reach-IsWellFormed two_tabs-Reach)
