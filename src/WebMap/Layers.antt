-- ===== src/WebMap/Layers.antt =====
-- apps/web/app/components/MapView.tsx: the layers that the map library holds, which go away with a
-- style and are made anew when the next one has loaded, and the effects on them. A layer or a source
-- is there, or not, with all others: they are made together, and go together. Colours are left out.
use ovlive_platform.Numbers.{Numbers}
use ovlive_platform.Types.{Vehicle, TripStop}
use ovlive_platform.Trip.Defs.{StopFeature, trip_stop_features, upcoming_from_index}
use ovlive_platform.MobileMap.Defs.{progress_of, differs}
use ovlive_platform.MobileMap.Events.{when, route_fc}
use ovlive_platform.WebMap.Stops.{StopPoint}
use ovlive_platform.Prelude.{
  ℕ, Bool, true, false, is_empty, text_eq, Option, none, some, List, [], ◌∷◌, if◌then◌else◌, Text,
}
use ovlive_platform.Prelude.Dict

-- The properties of `MapView` that the layers show.
pub record LayerProps (R : Type 0) : Type 0 where
  pub active_id : Option Text
  pub selected_ids : List Text
  pub isolate : Bool
  pub show_stops : Bool
  pub selected_stop_id : Option Text
  pub route_shape : Option (List (R × R))
  pub trip_stops : List (TripStop R)
  pub stop_numbers : Bool

pub record Layers (R : Type 0) : Type 0 where
  -- The vehicles of the two selected layers.
  pub selected : List Text
  -- The filter of the base marker layers.
  pub isolated : Option (List Text)
  pub hovered : Option Text
  pub selected_stop : Option Text
  pub stops_visible : Bool
  pub numbers_visible : Bool
  pub stops : List (StopPoint R)
  pub route : Option (List (R × R))
  pub trip_stops : List (StopFeature R)

-- The refs of the component, which its handlers read.
pub record Refs (R : Type 0) : Type 0 where
  pub props : LayerProps R
  pub vehicles : List (Text × Vehicle R)
  pub hovered : Option Text
  pub stops : List (StopPoint R)
  -- `none` is -1.
  pub upcoming_from : Option ℕ

pub record Scene (R : Type 0) : Type 0 where
  pub refs : Refs R
  -- `props.selectedIds` of the first render, which the handlers of the mount hold.
  pub first_selected_ids : List Text
  pub layers : Option (Layers R)

-- `===` of two ids that may be null.
unfoldable pub same_id : Option Text → Option Text → Bool
same_id none none = true
same_id none (some b) = false
same_id (some a) none = false
same_id (some a) (some b) = text_eq a b

unfoldable pub isolation : {R : Type 0} → LayerProps R → Option (List Text)
isolation p =
    if p.isolate then elim p.selected_ids [ [] ↦ none | id ∷ ids ↦ some (id ∷ ids) ] else none

module _ {R : Type 0} where
  abbrev pub on_layers : (Layers R → Layers R) → Scene R → Scene R
  on_layers f s = elim s.layers [ none ↦ s | some l ↦ record s { layers = some (f l) } ]

  unfoldable pub apply_stops_visibility : Scene R → Scene R
  apply_stops_visibility s = on_layers (λ l. record l { stops_visible = s.refs.props.show_stops }) s

  unfoldable pub apply_stop_selection : Scene R → Scene R
  apply_stop_selection s =
      on_layers (λ l. record l { selected_stop = s.refs.props.selected_stop_id }) s

  unfoldable pub apply_stop_numbers : Scene R → Scene R
  apply_stop_numbers s = on_layers (λ l. record l { numbers_visible = s.refs.props.stop_numbers }) s

  unfoldable pub apply_isolation : Scene R → Scene R
  apply_isolation s = on_layers (λ l. record l { isolated = isolation s.refs.props }) s

  unfoldable pub push_stops : Scene R → Scene R
  push_stops s = on_layers (λ l. record l { stops = s.refs.stops }) s

  unfoldable pub push_route : Scene R → Scene R
  push_route s = on_layers (λ l. record l { route = route_fc s.refs.props.route_shape }) s

  unfoldable pub set_hover : Option Text → Scene R → Scene R
  set_hover id s =
      if same_id s.refs.hovered id
      then s
      else on_layers (λ l. record l { hovered = id })
          (record s { refs = record s.refs { hovered = id } })

  -- The effect on the selection: both selected layers, and the isolation.
  unfoldable pub select : Scene R → Scene R
  unfolding apply_isolation
  select s = apply_isolation (on_layers (λ l. record l { selected = s.refs.props.selected_ids }) s)

  -- `setStyle`, if the style before has loaded.
  unfoldable pub change_style : Bool → Scene R → Scene R
  change_style loaded s = if loaded then record s { layers = none } else s

  -- An answer about stops, drawn if it is not overtaken.
  unfoldable pub on_stop_points : List (StopPoint R) → Scene R → Scene R
  unfolding push_stops
  on_stop_points points s = push_stops (record s { refs = record s.refs { stops = points } })

  -- The layers as they are first made, and where they are not there.
  abbrev pub new_layers : Scene R → Layers R
  new_layers s = record {
    selected = s.first_selected_ids;
    isolated = none;
    hovered = s.refs.hovered;
    selected_stop = none;
    stops_visible = true;
    numbers_visible = true;
    stops = s.refs.stops;
    route = none;
    trip_stops = [];
  }

  abbrev pub add_layers : Scene R → Scene R
  add_layers s = elim s.layers [ none ↦ record s { layers = some (new_layers s) } | some l ↦ s ]

-- `vehiclesRef.current.get(id)` for an id that may be null or empty.
unfoldable pub vehicle_ref :
    {R : Type 0} → Option Text → List (Text × Vehicle R) → Option (Vehicle R)
vehicle_ref none vs = none
vehicle_ref (some id) vs = if is_empty id then none else Dict.lookup id vs

-- What React found changed since the render before: an effect runs if a dependency of it has.
pub record LayerChanges : Type 0 where
  pub theme : Bool
  pub show_stops : Bool
  pub selected_stop : Bool
  -- `selectedIds` or `isolate`.
  pub selection : Bool
  pub route_shape : Bool
  -- `tripStops` or `activeId`.
  pub trip : Bool
  pub stop_numbers : Bool

module _ (num : Numbers) (format_to_parts : ℕ → List (Text × Text)) where
  open num use {R}

  unfoldable pub current_upcoming : ℕ → Refs R → ℕ
  unfolding vehicle_ref
  current_upcoming now r =
      upcoming_from_index num format_to_parts r.props.trip_stops
        (progress_of (vehicle_ref r.props.active_id r.vehicles)) now

  unfoldable pub push_trip : ℕ → Scene R → Scene R
  push_trip now s = elim s.layers [
    | none ↦ s
    | some l ↦
        let i = current_upcoming now s.refs in
        record s {
          refs = record s.refs { upcoming_from = some i };
          layers = some (record l { trip_stops = trip_stop_features s.refs.props.trip_stops i });
        }
  ]

  -- `ensureLayers`, when a style has loaded.
  unfoldable pub ensure_layers : ℕ → Scene R → Scene R
  unfolding apply_stops_visibility apply_stop_selection apply_stop_numbers push_route push_trip
      apply_isolation
  ensure_layers now s = apply_isolation (
      push_trip now (
        push_route
          (apply_stop_numbers (apply_stop_selection (apply_stops_visibility (add_layers s))))))

  -- The animation frame, with the vehicles that are known by then.
  unfoldable pub redraw : ℕ → List (Text × Vehicle R) → Scene R → Scene R
  unfolding push_trip
  redraw now vehicles s =
      let m = record s { refs = record s.refs { vehicles = vehicles } } in
      if differs m.refs.upcoming_from (current_upcoming now m.refs) then push_trip now m else m

  -- A render, and the effects whose dependencies have changed, in their order.
  unfoldable pub render_layers : LayerChanges → Bool → ℕ → LayerProps R → Scene R → Scene R
  unfolding change_style apply_stops_visibility apply_stop_selection select push_route push_trip
      apply_stop_numbers
  render_layers ch loaded now p s =
      let taken = record s { refs = record s.refs { props = p } } in
      let styled = when ch.theme (change_style loaded) taken in
      let shown = when ch.show_stops apply_stops_visibility styled in
      let picked = when ch.selected_stop apply_stop_selection shown in
      let selected = when ch.selection select picked in
      let routed = when ch.route_shape push_route selected in
      let pushed = when ch.trip (push_trip now) routed in
      when ch.stop_numbers apply_stop_numbers pushed

  -- The first render: there are no layers yet.
  unfoldable pub mount_layers : LayerProps R → Scene R
  mount_layers p = record {
    refs = record { props = p; vehicles = []; hovered = none; stops = []; upcoming_from = none };
    first_selected_ids = p.selected_ids;
    layers = none;
  }
