-- ===== src/WebMap/Scene.antt =====
-- apps/web/app/components/MapView.tsx: the runs of the layers, and what they should show.
use ovlive_platform.Numbers.{Numbers}
use ovlive_platform.Types.{Vehicle, TripStop}
use ovlive_platform.Trip.Defs.{StopFeature, trip_stop_features}
use ovlive_platform.MobileMap.Events.{route_fc}
use ovlive_platform.WebMap.Stops.{StopPoint}
use ovlive_platform.WebMap.Layers.{
  LayerProps, Layers, Refs, Scene, isolation, set_hover, on_stop_points, LayerChanges,
  ensure_layers, redraw, render_layers, mount_layers,
}
use ovlive_platform.Prelude.{ℕ, ◌≡◌, ◌⊎◌, Bool, true, Option, none, some, List, [], Text}

module _ {R : Type 0} where
  abbrev pub stops_from : List (TripStop R) → Option ℕ → List (StopFeature R)
  stops_from ts none = []
  stops_from ts (some i) = trip_stop_features ts i

  -- What the layers should show, the selected ones included.
  abbrev pub expected : Refs R → Layers R
  expected r = record {
    selected = r.props.selected_ids;
    isolated = isolation r.props;
    hovered = r.hovered;
    selected_stop = r.props.selected_stop_id;
    stops_visible = r.props.show_stops;
    numbers_visible = r.props.stop_numbers;
    stops = r.stops;
    route = route_fc r.props.route_shape;
    trip_stops = stops_from r.props.trip_stops r.upcoming_from;
  }

module _ (num : Numbers) (format_to_parts : ℕ → List (Text × Text)) where
  open num use {R}

  -- A step of the map: a render with what React found changed, a style that has loaded, a hover, an
  -- answer about stops, or an animation frame.
  pub data SceneStep (s : Scene R) : Scene R → Type 0 where
    renders :
        (ch : LayerChanges) (loaded : Bool) (now : ℕ) (p : LayerProps R)
        → (ch.show_stops ≡ true) ⊎ (p.show_stops ≡ s.refs.props.show_stops)
        → (ch.selected_stop ≡ true) ⊎ (p.selected_stop_id ≡ s.refs.props.selected_stop_id)
        → (ch.selection ≡ true)
          ⊎ ((p.selected_ids ≡ s.refs.props.selected_ids) × (p.isolate ≡ s.refs.props.isolate))
        → (ch.route_shape ≡ true) ⊎ (p.route_shape ≡ s.refs.props.route_shape)
        → (ch.trip ≡ true) ⊎ (p.trip_stops ≡ s.refs.props.trip_stops)
        → (ch.stop_numbers ≡ true) ⊎ (p.stop_numbers ≡ s.refs.props.stop_numbers)
        → SceneStep s (render_layers num format_to_parts ch loaded now p s)
    loads : (now : ℕ) → SceneStep s (ensure_layers num format_to_parts now s)
    hovers : (id : Option Text) → SceneStep s (set_hover id s)
    fills : (points : List (StopPoint R)) → SceneStep s (on_stop_points points s)
    draws :
        (now : ℕ) (vehicles : List (Text × Vehicle R))
        → SceneStep s (redraw num format_to_parts now vehicles s)

  pub data SceneReach : Scene R → Type 0 where
    start : (p : LayerProps R) → SceneReach (mount_layers num format_to_parts p)
    next : {s t : Scene R} → SceneReach s → SceneStep s t → SceneReach t
