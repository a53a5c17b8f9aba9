-- ===== src/MobileMap/Defs.antt =====
-- apps/mobile/components/map/LiveMap.tsx: the state of the map, its camera, the flush of the store,
-- and the stops. What the map asks of the camera and of its parent is recorded, newest first; the
-- clock is an argument. `I` is the type of an image.
use ovlive_platform.Prelude.Dict
use ovlive_platform.Prelude.Int.{pos}
use ovlive_platform.Numbers.{Numbers}
use ovlive_platform.Types.{BBox, FilterState, Vehicle, TripStop}
use ovlive_platform.Geo.{bounds_to_bbox, pad_bbox, covers}
use ovlive_platform.Live.Defs.{LiveClient}
use ovlive_platform.Fleet.Defs.{VehicleStore, Feature, flush, includes}
use ovlive_platform.Trip.Defs.{
  VehicleProgress, StopFeature, trip_stop_features, upcoming_from_index,
}
use ovlive_platform.WebMap.Stops.{StopPoint, StopsResponse, stop_feature}
use ovlive_platform.Settings.Defs.{SavedView}
use ovlive_platform.Rest.Defs.{MarkerKey, marker_key}
use ovlive_platform.MobileMap.Images.{Drawn, Images, ensure}
use ovlive_platform.Prelude.{
  ℕ, suc, Bool, true, false, ◌&&◌, ◌||◌, not, Option, none, some, List, [], ◌∷◌, map, ◌==◌,
  if◌then◌else◌, length, is_empty, Text,
}

pub record ViewState (R : Type 0) : Type 0 where
  pub center_lon : R
  pub center_lat : R
  pub zoom : R
  -- West, south, east, north.
  pub bounds : R × R × R × R

pub record MapProps (R : Type 0) : Type 0 where
  pub dark : Bool
  pub filters : FilterState
  pub active_id : Option Text
  pub selected_ids : List Text
  pub isolate : Bool
  pub following : Bool
  pub show_stops : Bool
  pub route_shape : Option (List (R × R))
  pub trip_stops : List (TripStop R)
  pub bottom_inset : ℕ
  pub sheet_default_inset : ℕ

-- A request to the camera: the zoom is kept where there is none, and `bottom` is the padding.
pub data CameraCall (R : Type 0) : Type 0 where
  ease_to : (lon lat : R) (duration : ℕ) (zoom : Option R) (bottom : ℕ) → CameraCall R
  jump_to : (lon lat zoom : R) → CameraCall R
  fly_to : (lon lat zoom : R) (bottom : ℕ) → CameraCall R

pub data ParentCall (R : Type 0) : Type 0 where
  on_select_stop : Text → ParentCall R
  on_select_vehicle : Text → Option (Vehicle R) → ParentCall R
  on_selected_live : Vehicle R → ParentCall R
  on_count : ℕ → ParentCall R

pub record MobileMap (R I : Type 0) : Type 0 where
  pub props : MapProps R
  pub client : LiveClient R
  pub store : VehicleStore R
  pub images : Images I
  pub view : Option (ViewState R)
  pub vehicles_fc : List (Feature R)
  pub stops_fc : List (StopPoint R)
  pub trip_stops_fc : List (StopFeature R)
  -- `upcomingFromRef`; `none` is -1.
  pub upcoming_from : Option ℕ
  pub stops_box : Option (BBox R)
  -- The request for stops that is not aborted, with its box; how many were sent.
  pub stops_request : Option (ℕ × BBox R)
  pub stops_sent : ℕ
  pub gesture : Bool
  pub placed : Bool
  pub me : Bool
  pub saved_views : List (SavedView R)
  pub camera : List (CameraCall R)
  pub calls : List (ParentCall R)

-- `store.vehicles.get(id)` for an id that may be null or empty.
unfoldable pub vehicle_of : {R : Type 0} → Option Text → VehicleStore R → Option (Vehicle R)
vehicle_of none s = none
vehicle_of (some id) s = if is_empty id then none else Dict.lookup id s.vehicles

unfoldable pub progress_of : {R : Type 0} → Option (Vehicle R) → VehicleProgress R
progress_of none = record { lat = none; lon = none; at_stop = false; delay = pos 0 }
progress_of (some v) = record {
  lat = some v.lat;
  lon = some v.lon;
  at_stop = v.at_stop;
  delay = v.delay;
}

-- The keys of the images that the features need.
unfoldable pub keys_of : {R : Type 0} → Bool → List Text → List (Feature R) → List Text
keys_of dark selected [] = []
keys_of dark selected (f ∷ fs) =
    let rest = keys_of dark selected fs in
    let ring =
      if includes selected f.id then marker_key f.owner f.line dark true ∷ rest else rest in
    marker_key f.owner f.line dark false ∷ ring

abbrev pub heartbeat_ms : ℕ
heartbeat_ms = 20000

-- `i !== upcomingFromRef.current`.
abbrev pub differs : Option ℕ → ℕ → Bool
differs none i = true
differs (some j) i = not (j == i)

abbrev pub newest : {A : Type 0} → List (List A) → List A
newest [] = []
newest (fc ∷ _) = fc

module _ {R I : Type 0} where
  unfoldable pub center_on : R → R → ℕ → Option R → Option ℕ → MobileMap R I → MobileMap R I
  center_on lon lat duration zoom inset m =
      let bottom : ℕ = elim inset [ none ↦ m.props.bottom_inset | some px ↦ px ] in
      record m { camera = ease_to lon lat duration zoom bottom ∷ m.camera }

  -- `if (veh) centerOn(veh.lon, veh.lat, duration)`.
  unfoldable pub center_vehicle : Option (Vehicle R) → ℕ → Option ℕ → MobileMap R I → MobileMap R I
  unfolding center_on
  center_vehicle none duration inset m = m
  center_vehicle (some v) duration inset m = center_on v.lon v.lat duration none inset m

  -- The end of `onFlush`: the active vehicle, in the panel and under the camera.
  unfoldable pub show_live : Option (Vehicle R) → MobileMap R I → MobileMap R I
  unfolding center_on
  show_live none m = m
  show_live (some v) m =
      let told = record m { calls = on_selected_live v ∷ m.calls } in
      if m.props.following && not m.gesture then center_on v.lon v.lat 700 none none told else told

module _ {I : Type 0} (num : Numbers) (draw : MarkerKey → Drawn I)
    (format_to_parts : ℕ → List (Text × Text)) where
  open num use {R}

  unfoldable pub current_upcoming_from : ℕ → MobileMap R I → ℕ
  unfolding vehicle_of progress_of
  current_upcoming_from now m =
      upcoming_from_index num format_to_parts m.props.trip_stops
        (progress_of (vehicle_of m.props.active_id m.store)) now

  unfoldable pub push_trip_stops : ℕ → MobileMap R I → MobileMap R I
  push_trip_stops now m =
      let i = current_upcoming_from now m in
      record m { upcoming_from = some i; trip_stops_fc = trip_stop_features m.props.trip_stops i }

  -- The images before the features that need them.
  unfoldable pub draw_vehicles : List (Feature R) → MobileMap R I → MobileMap R I
  draw_vehicles fc m = record m {
    images = ensure draw (keys_of m.props.dark m.props.selected_ids fc) m.images;
    vehicles_fc = fc;
  }

  unfoldable pub redraw_trip : ℕ → MobileMap R I → MobileMap R I
  redraw_trip now m =
      if differs m.upcoming_from (current_upcoming_from now m) then push_trip_stops now m else m

  unfoldable pub on_flush : ℕ → List (Feature R) → MobileMap R I → MobileMap R I
  unfolding draw_vehicles redraw_trip
  on_flush now fc m =
      let redrawn = redraw_trip now (draw_vehicles fc m) in
      show_live (vehicle_of m.props.active_id m.store)
        (record redrawn { calls = on_count (length m.store.vehicles) ∷ redrawn.calls })

  -- The flush timer of the store fires.
  unfoldable pub on_flush_timer : ℕ → MobileMap R I → MobileMap R I
  on_flush_timer now m =
      let store = flush now m.store in
      let m' = record m { store = store } in
      if store.can_flush then on_flush now (newest store.flushed) m' else m'

module _ (num : Numbers) where
  open num use {R, literal, div}

  abbrev pub stops_pad : R
  stops_pad = div (literal 35) (literal 100)

  abbrev pub stops_zoom : R
  stops_zoom = literal 14

module _ {I : Type 0} (num : Numbers) where
  open num use {R, less}

  -- Up to the request: the one before is aborted.
  unfoldable pub load_stops : ViewState R → MobileMap R I → MobileMap R I
  load_stops view m =
      let box = bounds_to_bbox num view.bounds in
      if not m.props.show_stops || less view.zoom (stops_zoom num)
      then m
      else if covers num m.stops_box box
      then m
      else record m {
        stops_request = some (m.stops_sent, pad_bbox num box (stops_pad num));
        stops_sent = suc m.stops_sent;
      }

module _ {R I : Type 0} where
  -- The answer to request `n`; a request that was aborted has none.
  unfoldable pub on_stops : ℕ → StopsResponse R → MobileMap R I → MobileMap R I
  on_stops n res m = elim m.stops_request [
    | none ↦ m
    | some (k, padded) ↦
        if k == n
        then record m {
          stops_fc = map stop_feature res.stops;
          stops_box = if res.truncated then none else some padded;
          stops_request = none;
        }
        else m
  ]

  -- Its failure: what is drawn is kept.
  unfoldable pub on_stops_failed : ℕ → MobileMap R I → MobileMap R I
  on_stops_failed n m = elim m.stops_request [
    | none ↦ m
    | some (k, padded) ↦ if k == n then record m { stops_request = none } else m
  ]
