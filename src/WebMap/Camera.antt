-- ===== src/WebMap/Camera.antt =====
-- apps/web/app/components/MapView.tsx and apps/web/app/routes/home.tsx: the camera of the web map,
-- the clicks, and the screen that decides what is followed. What the camera is asked for is recorded,
-- newest first, beside the moves that the screen asks for itself; the rectangles are measured.
use ovlive_platform.Numbers.{Numbers}
use ovlive_platform.Types.{Vehicle}
use ovlive_platform.Selection.Defs.{MapApp}
use ovlive_platform.Home.Defs.{select_vehicle, open_stop, on_selected_live}
use ovlive_platform.WebMap.Layers.{vehicle_ref, same_id}
use ovlive_platform.Prelude.{
  ℕ, Bool, true, false, ◌&&◌, ◌||◌, not, Option, none, some, List, ◌∷◌, if◌then◌else◌, is_empty,
  Text,
}

pub record Rect (R : Type 0) : Type 0 where
  pub left : R
  pub top : R
  pub width : R
  pub height : R

-- The open panel, if there is one, and the map.
pub record Layout (R : Type 0) : Type 0 where
  pub panel : Option (Rect R)
  pub container : Rect R

pub record EaseTo (R : Type 0) : Type 0 where
  pub lon : R
  pub lat : R
  pub offset : R × R
  pub duration : ℕ

pub record WebScreen (R : Type 0) : Type 0 where
  pub app : MapApp R
  pub vehicles : List (Text × Vehicle R)
  pub eased : List (EaseTo R)

-- A stop under the pointer, with its coordinates if its geometry is a point.
pub record StopPick (R : Type 0) : Type 0 where
  pub stop_id : Option Text
  pub point : Option (R × R)

abbrev pub same_bool : Bool → Bool → Bool
same_bool a b = if a then b else not b

module _ {R : Type 0} where
  unfoldable pub active_vehicle : WebScreen R → Option (Vehicle R)
  active_vehicle s = vehicle_ref s.app.active_id s.vehicles

  -- A gesture of the user has an original event; a move of the camera has none.
  unfoldable pub move_start : Bool → WebScreen R → WebScreen R
  move_start original s =
      if original && s.app.following
      then record s { app = record s.app { following = false } }
      else s

module _ (num : Numbers) where
  open num use {R, literal, add, sub, mul, div, at_most}

  -- How far the middle of what the panel leaves free is from the middle of the map.
  unfoldable pub panel_aware_offset : Layout R → R × R
  panel_aware_offset l = elim l.panel [
    | none ↦ (literal 0, literal 0)
    | some p ↦
        let c = l.container in
        let half = λ (x : R). div x (literal 2) in
        if at_most (mul c.width (div (literal 9) (literal 10))) p.width
        then (literal 0, sub (half (add c.top p.top)) (add c.top (half c.height)))
        else (sub (half (add c.left p.left)) (add c.left (half c.width)), literal 0)
  ]

  unfoldable pub ease_to_point : Layout R → R → R → ℕ → WebScreen R → WebScreen R
  ease_to_point layout lon lat duration s =
      let move : EaseTo R = record {
        lon = lon;
        lat = lat;
        offset = panel_aware_offset layout;
        duration = duration;
      } in
      record s { eased = move ∷ s.eased }

  abbrev pub center_known : Layout R → Option (Vehicle R) → ℕ → WebScreen R → WebScreen R
  center_known layout none duration s = s
  center_known layout (some v) duration s = ease_to_point layout v.lon v.lat duration s

  -- The effect on `following` and `activeId`.
  unfoldable pub reattach_web : Layout R → WebScreen R → WebScreen R
  unfolding active_vehicle
  reattach_web layout s =
      if s.app.following then center_known layout (active_vehicle s) 500 s else s

  -- An action of the screen, and the effect if `following` or `activeId` has changed.
  unfoldable pub act : Layout R → (MapApp R → MapApp R) → WebScreen R → WebScreen R
  unfolding reattach_web
  act layout f s =
      let app = f s.app in
      let s' = record s { app = app } in
      if same_bool app.following s.app.following && same_id app.active_id s.app.active_id
      then s'
      else reattach_web layout s'

  -- The animation frame, with the vehicles known by then: the active one goes to the screen, and
  -- the camera goes to it if it is followed.
  unfoldable pub tick : Layout R → List (Text × Vehicle R) → WebScreen R → WebScreen R
  unfolding active_vehicle ease_to_point
  tick layout vehicles s =
      let m = record s { vehicles = vehicles } in
      elim (active_vehicle m) [
        | none ↦ m
        | some v ↦
            let told = record m { app = on_selected_live v m.app } in
            if m.app.following then ease_to_point layout v.lon v.lat 700 told else told
      ]

  -- A click on a marker.
  unfoldable pub pick : Layout R → Option Text → WebScreen R → WebScreen R
  unfolding act
  pick layout none s = s
  pick layout (some id) s =
      if is_empty id
      then s
      else let veh = vehicle_ref (some id) s.vehicles in
        act layout (select_vehicle id veh) (center_known layout veh 500 s)

  abbrev pub center_pick : Layout R → Option (R × R) → WebScreen R → WebScreen R
  center_pick layout none s = s
  center_pick layout (some (lon, lat)) s = ease_to_point layout lon lat 400 s

  -- A click on a stop; a marker on top of it wins.
  unfoldable pub pick_stop : Layout R → StopPick R → Bool → WebScreen R → WebScreen R
  unfolding act
  pick_stop layout hit marker s = elim hit.stop_id [
    | none ↦ s
    | some id ↦
        if is_empty id || marker
        then s
        else act layout (open_stop id) (center_pick layout hit.point s)
  ]

  -- The button of the panel.
  unfoldable pub press_follow : Layout R → WebScreen R → WebScreen R
  unfolding act
  press_follow layout s = act layout (λ a. record a { following = true }) s
