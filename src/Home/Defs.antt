-- ===== src/Home/Defs.antt =====
-- apps/web/app/routes/home.tsx: the state of the map screen and its actions. The selection, the
-- trip plan and the moves of the camera are those of a `MapApp`, as on mobile; what is written to
-- the storage is recorded, newest first.
use ovlive_platform.Types.{
  Vehicle, StopDeparture, VehicleSummary, VehicleDetail, VehicleTripPlan, FilterState,
}
use ovlive_platform.Prelude.{
  ◌+◌, Bool, true, false, ◌&&◌, not, Option, none, some, List, [], ◌∷◌, map, if◌then◌else◌,
  is_empty, Text,
}
use ovlive_platform.Selection.Defs.{MapApp, is_id, fly_to, pan_to, reported_trip}
use ovlive_platform.Home.Tabs.{
  add_selected, refresh, end_tab, bring_back, resume, backfill, index_of, others, next_active,
  only_active,
}

pub data Saved : Type 0 where
  theme : Text → Saved
  filters : FilterState → Saved
  multi_select : Bool → Saved
  show_stops : Bool → Saved
  stop_numbers : Bool → Saved

pub record Home (R : Type 0) : Type 0 where
  pub app : MapApp R
  pub theme_id : Text
  pub filters : FilterState
  pub operators : List Text
  pub show_stops : Bool
  pub stop_numbers : Bool
  pub saved : List Saved

module _ {R : Type 0} where
  unfoldable pub set_theme : Text → Home R → Home R
  set_theme id h = record h { theme_id = id; saved = theme id ∷ h.saved }

  unfoldable pub set_show_stops : Bool → Home R → Home R
  set_show_stops on h = record h { show_stops = on; saved = Saved.show_stops on ∷ h.saved }

  unfoldable pub set_stop_numbers : Bool → Home R → Home R
  set_stop_numbers on h = record h { stop_numbers = on; saved = Saved.stop_numbers on ∷ h.saved }

  -- `setFilters`, with the effect that saves them.
  unfoldable pub set_filters : FilterState → Home R → Home R
  set_filters f h = record h { filters = f; saved = Saved.filters f ∷ h.saved }

  -- The answer to `rest.operators()`: the codes of the data owners.
  unfoldable pub on_operators : List Text → Home R → Home R
  on_operators dataowners h = record h { operators = dataowners }

  unfoldable pub select_vehicle : Text → Option (Vehicle R) → MapApp R → MapApp R
  unfolding add_selected
  select_vehicle id v s = record s {
    stop_id = none;
    following = true;
    active_id = some id;
    selected = add_selected s.multi_select id v s.selected;
  }

  -- The deep link of the page's query, `?v=…&only=…`; an empty id is falsy.
  unfoldable pub follow_link : Option Text → Bool → MapApp R → MapApp R
  unfolding select_vehicle
  follow_link none only s = s
  follow_link (some []) only s = s
  follow_link (some (c ∷ id)) only s =
      let s' = select_vehicle (c ∷ id) none (record s { focus_id = some (c ∷ id) }) in
      if only then record s' { isolate = true } else s'

  unfoldable pub open_vehicle_from_search : VehicleSummary R → MapApp R → MapApp R
  unfolding select_vehicle
  open_vehicle_from_search v s =
      let flown = record s { camera = fly_to v.lon v.lat ∷ s.camera } in
      record (select_vehicle v.id none flown) { query = [] }

  unfoldable pub open_stop : Text → MapApp R → MapApp R
  open_stop id s = record s { following = false; stop_id = some id }

  unfoldable pub close_stop : MapApp R → MapApp R
  close_stop s = record s { stop_id = none }

  unfoldable pub toggle_isolate : MapApp R → MapApp R
  toggle_isolate s = record s { isolate = not s.isolate }

  -- `onFollow`: the button is there while nothing is followed.
  unfoldable pub follow : MapApp R → MapApp R
  follow s = record s { following = true }

  -- `onDetach`: the user has moved the map.
  unfoldable pub detach : MapApp R → MapApp R
  detach s = record s { following = false }

  unfoldable pub set_query : Text → MapApp R → MapApp R
  set_query q s = record s { query = q }

  abbrev pub pan_or_focus : Option R → Option R → Text → MapApp R → MapApp R
  pan_or_focus (some lat) (some lon) id s = record s { camera = pan_to lon lat ∷ s.camera }
  pan_or_focus _ _ id s = record s { focus_id = some id }

  unfoldable pub open_vehicle_from_departure : StopDeparture R → MapApp R → MapApp R
  unfolding select_vehicle
  open_vehicle_from_departure d s = elim d.vehicle_id [
    | none ↦ s
    | some id ↦
        if is_empty id
        then s
        else select_vehicle id none (pan_or_focus d.vehicle_lat d.vehicle_lon id s)
  ]

  unfoldable pub on_selected_live : Vehicle R → MapApp R → MapApp R
  unfolding refresh
  on_selected_live v s = record s { selected = map (refresh v) s.selected }

  unfoldable pub on_selected_gone : Text → MapApp R → MapApp R
  unfolding end_tab
  on_selected_gone id s =
      let ended = record s { selected = map (end_tab id) s.selected } in
      if is_id s.active_id id then record ended { following = false } else ended

  unfoldable pub on_selected_back : Vehicle R → MapApp R → MapApp R
  unfolding bring_back
  on_selected_back v s = record s { selected = map (bring_back v) s.selected }

  unfoldable pub resume_trip : Text → MapApp R → MapApp R
  unfolding resume
  resume_trip id s = record s {
    selected = map (resume id) s.selected;
    active_id = some id;
    following = true;
    detail_nonce = s.detail_nonce + 1;
  }

  unfoldable pub select_tab : Text → MapApp R → MapApp R
  select_tab id s = record s { active_id = some id; following = true }

  unfoldable pub close_tab : Text → MapApp R → MapApp R
  unfolding index_of next_active
  close_tab id s =
      let remaining = others id s.selected in
      record s {
        selected = remaining;
        active_id =
            if is_id s.active_id id
            then next_active (index_of id s.selected) remaining
            else s.active_id;
      }

  unfoldable pub close_all : MapApp R → MapApp R
  close_all s = record s { selected = []; active_id = none; isolate = false }

  unfoldable pub change_multi_select : Bool → MapApp R → MapApp R
  unfolding only_active
  change_multi_select on s = record s {
    multi_select = on;
    selected = if not on then only_active s.active_id s.selected else s.selected;
  }

  unfoldable pub set_multi_select : Bool → Home R → Home R
  unfolding change_multi_select
  set_multi_select on h = record h {
    app = change_multi_select on h.app;
    saved = Saved.multi_select on ∷ h.saved;
  }

  -- What the answer of the detail poll does, while its effect is alive.
  unfoldable pub on_detail : VehicleDetail R → MapApp R → MapApp R
  unfolding backfill
  on_detail d s =
      let focused = is_id s.focus_id d.vehicle.id in
      let line : Text = elim d.vehicle.line_public_number [ none ↦ [] | some l ↦ l ] in
      record s {
        detail = some d;
        focus_id = if focused then none else s.focus_id;
        camera = if focused then fly_to d.vehicle.lon d.vehicle.lat ∷ s.camera else s.camera;
        selected =
            if is_empty line then s.selected else map (backfill d.vehicle.id line) s.selected;
      }

  -- The starts of the effects on the active vehicle: what they clear.
  unfoldable pub begin_detail : MapApp R → MapApp R
  begin_detail s = record s { detail = none }

  unfoldable pub begin_plan : MapApp R → MapApp R
  begin_plan s = record s { trip = none }

  unfoldable pub on_plan : VehicleTripPlan R → MapApp R → MapApp R
  on_plan p s = record s { trip = some p }

  -- The refetch rule, and the fetch from scratch that a new `planTrip` starts.
  unfoldable pub refetch_plan : MapApp R → MapApp R
  refetch_plan s = elim (reported_trip s.detail) [
    | none ↦ s
    | some reported ↦ elim s.trip [
      | none ↦ s
      | some p ↦
          if not (is_empty reported)
            && not (is_id p.trip_id reported)
            && not (is_id s.plan_trip reported)
          then record s { plan_trip = some reported; trip = none }
          else s
    ]
  ]
