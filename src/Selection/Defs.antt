-- ===== src/Selection/Defs.antt =====
-- apps/mobile/hooks/useMapApp.ts: the state of the map screen and its actions. Each action is one
-- function of the state; moves of the camera are recorded, newest first.
use ovlive_platform.Types.{Vehicle, StopDeparture, VehicleSummary, VehicleDetail, VehicleTripPlan}
use ovlive_platform.Prelude.{
  ℕ, suc, ◌+◌, ◌-◌, ◌*◌, Bool, true, false, ◌&&◌, ◌||◌, not, Option, none, some, List, [], ◌∷◌,
  ◌++◌, min, if◌then◌else◌, ltb, ◌==◌, keep_if, length, take_last, any, get_elem?, is_empty, Text,
  or_text, text_eq,
}

pub record Selected (R : Type 0) : Type 0 where
  pub id : Text
  pub basic : Option (Vehicle R)
  pub ended : Bool
  pub replacement : Option (Vehicle R)

pub data CameraMove (R : Type 0) : Type 0 where
  fly_to : R → R → CameraMove R
  pan_to : R → R → CameraMove R

pub record MapApp (R : Type 0) : Type 0 where
  pub multi_select : Bool
  pub focus_id : Option Text
  pub query : Text
  pub selected : List (Selected R)
  pub active_id : Option Text
  pub detail : Option (VehicleDetail R)
  pub trip : Option (VehicleTripPlan R)
  pub plan_trip : Option Text
  pub following : Bool
  pub detail_nonce : ℕ
  pub isolate : Bool
  pub stop_id : Option Text
  pub camera : List (CameraMove R)

abbrev pub max_selected : ℕ
max_selected = 8

-- `a === b` where either may be null.
abbrev pub is_id : Option Text → Text → Bool
is_id none id = false
is_id (some a) id = text_eq a id

-- Back off a poll after 429 or 503; `none` is an error without a status.
unfoldable pub backoff : Option ℕ → ℕ → ℕ
backoff none base = base
backoff (some status) base = if status == 429 || status == 503 then min (base * 4) 60000 else base

module _ {R : Type 0} where
  abbrev pub fresh_tab : Text → Option (Vehicle R) → Selected R
  fresh_tab id v = record { id = id; basic = v; ended = false; replacement = none }

  abbrev pub is_selected : Text → List (Selected R) → Bool
  is_selected id tabs = any (λ s. text_eq s.id id) tabs

  -- `prev.map((s) => …)`.
  abbrev pub update_tabs : (Selected R → Selected R) → List (Selected R) → List (Selected R)
  update_tabs f [] = []
  update_tabs f (s ∷ ss) = f s ∷ update_tabs f ss

  unfoldable pub add_tab : Bool → Text → Option (Vehicle R) → List (Selected R) → List (Selected R)
  add_tab multi id v tabs =
      if multi
      then (if is_selected id tabs
          then tabs
          else take_last max_selected (tabs ++ fresh_tab id v ∷ []))
      else fresh_tab id v ∷ []

  unfoldable pub select_vehicle : Text → Option (Vehicle R) → MapApp R → MapApp R
  unfolding add_tab
  select_vehicle id v s = record s {
    stop_id = none;
    following = true;
    active_id = some id;
    selected = add_tab s.multi_select id v s.selected;
  }

  unfoldable pub open_deep_link : Text → Bool → MapApp R → MapApp R
  unfolding select_vehicle
  open_deep_link id only s =
      let s' = select_vehicle id none (record s { focus_id = some id }) in
      if only then record s' { isolate = true } else s'

  unfoldable pub open_vehicle_from_search : VehicleSummary R → MapApp R → MapApp R
  unfolding select_vehicle
  open_vehicle_from_search v s =
      record (select_vehicle v.id none (record s { camera = fly_to v.lon v.lat ∷ s.camera })) {
        query = [];
      }

  unfoldable pub open_stop : Text → MapApp R → MapApp R
  open_stop id s = record s { following = false; stop_id = some id }

  -- `if (d.vehicle_lat != null && d.vehicle_lon != null) … else …`.
  abbrev pub find_on_map : Option R → Option R → Text → MapApp R → MapApp R
  find_on_map (some lat) (some lon) id s = record s { camera = pan_to lon lat ∷ s.camera }
  find_on_map _ _ id s = record s { focus_id = some id }

  -- An empty vehicle id is falsy, as a missing one.
  unfoldable pub open_vehicle_from_departure : StopDeparture R → MapApp R → MapApp R
  unfolding select_vehicle
  open_vehicle_from_departure d s = elim d.vehicle_id [
    | none ↦ s
    | some id ↦
        if is_empty id
        then s
        else select_vehicle id none (find_on_map d.vehicle_lat d.vehicle_lon id s)
  ]

  abbrev pub basic_line : Option (Vehicle R) → Text
  basic_line none = []
  basic_line (some b) = b.line

  abbrev pub basic_operator : Option (Vehicle R) → Text
  basic_operator none = []
  basic_operator (some b) = b.operator

  abbrev pub basic_journey : Option (Vehicle R) → Text
  basic_journey none = []
  basic_journey (some b) = b.journey

  -- The live frame, with the line and the operator known before where it has none.
  unfoldable pub keep_enriched : Vehicle R → Option (Vehicle R) → Vehicle R
  keep_enriched v basic = record v {
    line = or_text v.line (basic_line basic);
    operator = or_text v.operator (basic_operator basic);
  }

  unfoldable pub live_tab : Vehicle R → Selected R → Selected R
  unfolding keep_enriched
  live_tab v s =
      if text_eq s.id v.id && not s.ended
      then record s { basic = some (keep_enriched v s.basic) }
      else s

  unfoldable pub on_selected_live : Vehicle R → MapApp R → MapApp R
  unfolding live_tab
  on_selected_live v s = record s { selected = update_tabs (live_tab v) s.selected }

  unfoldable pub gone_tab : Text → Selected R → Selected R
  gone_tab id s = if text_eq s.id id then record s { ended = true } else s

  unfoldable pub on_selected_gone : Text → MapApp R → MapApp R
  unfolding gone_tab
  on_selected_gone id s = record s {
    selected = update_tabs (gone_tab id) s.selected;
    following = if is_id s.active_id id then false else s.following;
  }

  unfoldable pub same_trip : Option (Vehicle R) → Vehicle R → Bool
  same_trip basic v =
      not (is_empty (basic_journey basic))
      && not (is_empty v.journey)
      && text_eq (basic_journey basic) v.journey

  unfoldable pub back_tab : Vehicle R → Selected R → Selected R
  unfolding keep_enriched same_trip
  back_tab v s =
      if text_eq s.id v.id
      then (if s.ended
          then (if same_trip s.basic v
              then record s { ended = false; replacement = none; basic = some v }
              else record s { replacement = some v })
          else record s { basic = some (keep_enriched v s.basic) })
      else s

  unfoldable pub on_selected_back : Vehicle R → MapApp R → MapApp R
  unfolding back_tab
  on_selected_back v s = record s { selected = update_tabs (back_tab v) s.selected }

  abbrev pub take_replacement : Option (Vehicle R) → Selected R → Selected R
  take_replacement none s = s
  take_replacement (some r) s = record s { basic = some r; ended = false; replacement = none }

  unfoldable pub resume_tab : Text → Selected R → Selected R
  resume_tab id s = if text_eq s.id id then take_replacement s.replacement s else s

  unfoldable pub resume_trip : Text → MapApp R → MapApp R
  unfolding resume_tab
  resume_trip id s = record s {
    selected = update_tabs (resume_tab id) s.selected;
    active_id = some id;
    following = true;
    detail_nonce = s.detail_nonce + 1;
  }

  unfoldable pub close_stop : MapApp R → MapApp R
  close_stop s = record s { stop_id = none }

  unfoldable pub toggle_isolate : MapApp R → MapApp R
  toggle_isolate s = record s { isolate = not s.isolate }

  -- The follow button, which also stops.
  unfoldable pub toggle_follow : MapApp R → MapApp R
  toggle_follow s = record s { following = not s.following }

  unfoldable pub set_query : Text → MapApp R → MapApp R
  set_query q s = record s { query = q }

  unfoldable pub select_tab : Text → MapApp R → MapApp R
  select_tab id s = record s { active_id = some id; following = true }

  -- `selected.findIndex((s) => s.id === id)`; `none` is -1.
  unfoldable pub find_index : Text → List (Selected R) → Option ℕ
  find_index id [] = none
  find_index id (s ∷ ss) =
      if text_eq s.id id
      then some 0
      else elim (find_index id ss) [ none ↦ none | some i ↦ some (suc i) ]

  abbrev pub without : Text → List (Selected R) → List (Selected R)
  without id tabs = keep_if (λ s. not (text_eq s.id id)) tabs

  abbrev pub id_at : Option (Selected R) → Option Text
  id_at none = none
  id_at (some s) = some s.id

  -- `remaining[Math.min(idx, remaining.length - 1)]`; an index of -1 gives nothing.
  unfoldable pub neighbour : Option ℕ → List (Selected R) → Option (Selected R)
  neighbour none remaining = none
  neighbour (some i) remaining = get_elem? remaining (min i (length remaining - 1))

  unfoldable pub close_tab : Text → MapApp R → MapApp R
  unfolding find_index neighbour
  close_tab id s =
      let remaining = without id s.selected in
      let s' = record s { selected = remaining } in
      if is_id s.active_id id
      then record s' { active_id = id_at (neighbour (find_index id s.selected) remaining) }
      else s'

  unfoldable pub close_all : MapApp R → MapApp R
  close_all s = record s { selected = []; active_id = none; isolate = false }

  -- The effect on `multiSelect` and `activeId`.
  unfoldable pub collapse_tabs : Bool → Option Text → List (Selected R) → List (Selected R)
  collapse_tabs multi active tabs =
      if multi
      then tabs
      else if ltb 1 (length tabs)
      then keep_if (λ t. is_id active t.id) tabs
      else tabs

  unfoldable pub collapse : MapApp R → MapApp R
  unfolding collapse_tabs
  collapse s = record s { selected = collapse_tabs s.multi_select s.active_id s.selected }

  -- The detail of the active vehicle has arrived.
  abbrev pub backfill_line : Text → Text → Selected R → Selected R
  backfill_line id line s =
      if text_eq s.id id
      then elim s.basic [ none ↦ s | some b ↦ record s { basic = some (record b { line = line }) } ]
      else s

  unfoldable pub on_detail : VehicleDetail R → MapApp R → MapApp R
  on_detail d s =
      let focused = is_id s.focus_id d.vehicle.id in
      let line : Text = elim d.vehicle.line_public_number [ none ↦ [] | some l ↦ l ] in
      record s {
        detail = some d;
        focus_id = if focused then none else s.focus_id;
        camera = if focused then fly_to d.vehicle.lon d.vehicle.lat ∷ s.camera else s.camera;
        selected =
            if is_empty line
            then s.selected
            else update_tabs (backfill_line d.vehicle.id line) s.selected;
      }

  -- The start of the detail's poll, on a change of `activeId` or `detailNonce`.
  unfoldable pub begin_detail : MapApp R → MapApp R
  begin_detail s = record s { detail = none }

  -- The start of the plan's fetch, on a change of `activeId`, `detailNonce` or `planTrip`.
  unfoldable pub begin_plan : MapApp R → MapApp R
  begin_plan s = record s { trip = none }

  unfoldable pub on_plan : VehicleTripPlan R → MapApp R → MapApp R
  on_plan p s = record s { trip = some p }

  abbrev pub reported_trip : Option (VehicleDetail R) → Option Text
  reported_trip none = none
  reported_trip (some d) = d.trip_id

  -- The refetch rule: the new `planTrip`, if it is set.
  unfoldable pub refetch : MapApp R → Option Text
  refetch s = elim (reported_trip s.detail) [
    | none ↦ none
    | some reported ↦ elim s.trip [
      | none ↦ none
      | some p ↦
          if not (is_empty reported)
            && not (is_id p.trip_id reported)
            && not (is_id s.plan_trip reported)
          then some reported
          else none
    ]
  ]

  -- The effect: a plan asked for anew is fetched from scratch.
  unfoldable pub refetch_plan : MapApp R → MapApp R
  unfolding refetch
  refetch_plan s = elim (refetch s) [
    | none ↦ s
    | some reported ↦ record s { plan_trip = some reported; trip = none }
  ]
