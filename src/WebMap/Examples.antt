-- ===== src/WebMap/Examples.antt =====
-- The theorems on the web map at concrete frames and answers.
use ovlive_platform.Prelude.Dict
use ovlive_platform.Prelude.{
  ℕ, text_eq, ◌+◌, ◌≡◌, refl, true, false, none, some, [], ◌∷◌, List, codes, map, arith,
  if◌then◌else◌, length, Text,
}
use ovlive_platform.Prelude.Dict.{lookup}
use ovlive_platform.Samples.{bus_1, bus_1_back, first_stop, second_stop, snapshot, utrecht, delta}
use ovlive_platform.Numbers.{whole_degrees_laws, whole_degrees}
use ovlive_platform.Geo.{covers}
use ovlive_platform.MobileMap.Events.{route_fc, lon_lat}
use ovlive_platform.WebMap.Layers.{
  vehicle_ref, LayerProps, Layers, Scene, same_id, set_hover, ensure_layers, mount_layers,
  apply_stops_visibility, apply_stop_selection, apply_stop_numbers, push_route, push_trip,
  apply_isolation, isolation, render_layers,
}
use ovlive_platform.Selection.Actions.{new_app}
use ovlive_platform.Home.Defs.{on_selected_live, on_selected_gone}
use ovlive_platform.WebMap.Camera.{
  Layout, WebScreen, panel_aware_offset, move_start, tick, act, press_follow, active_vehicle,
}
use ovlive_platform.WebMap.Follow.{Passive, passive, Background, camera_left_to_user}
use ovlive_platform.WebMap.Scene.{stops_from, expected, SceneStep, SceneReach}
use ovlive_platform.WebMap.Shown.{layers_show_state}
use ovlive_platform.WebMap.Restyled.{theme_drops_highlight, restyle, nothing_changed}
use ovlive_platform.Fleet.Defs.{new_store}
use ovlive_platform.WebMap.Defs.{change_theme, on_update, new_map}
use ovlive_platform.WebMap.Agreement.{frames_agree, Agrees, mobile_run, web_run}
use ovlive_platform.WebMap.Tint.{IsTinted, icons_follow_theme}
use ovlive_platform.WebMap.Stops.{
  load_stops, StopsResponse, on_stops_failed, StopLayer, view_asked_once, stop_feature, on_stops,
}

abbrev no_change : Text → Text
no_change s = s

frames_agree_example :
    Agrees
      (web_run 0 no_change ((1000, snapshot) ∷ (1300, delta) ∷ []) (new_map true))
      (mobile_run 0 no_change ((1000, snapshot) ∷ (1300, delta) ∷ []) new_store)
unfolding new_map new_store
frames_agree_example =
    frames_agree 0 no_change ((1000, snapshot) ∷ (1300, delta) ∷ []) (new_map true) new_store
      (record { vehicles = refl; features = refl; selected = refl; events = refl })

icons_follow_theme_example :
    IsTinted (on_update no_change 0 snapshot (new_map true))
    × IsTinted (change_theme true false (on_update no_change 0 snapshot (new_map true)))
unfolding new_map Dict.lookup
icons_follow_theme_example =
    icons_follow_theme 0 no_change snapshot (new_map true)
      (on_update no_change 0 snapshot (new_map true)) false
      (record { tint = λ id f e. absurd (ground arith) })

abbrev stop_layer : StopLayer ℕ
stop_layer = record {
  show_stops = true;
  points = [];
  box = none;
  request = none;
  sent = (0, utrecht) ∷ [];
}

abbrev answer : StopsResponse ℕ
answer = record { truncated = false; stops = [] }

view_asked_once_example :
    let asked = load_stops whole_degrees 15 utrecht stop_layer in
    let answered = on_stops 1 answer asked in
    (length (load_stops whole_degrees 15 utrecht answered).sent
      ≡ (if answer.truncated then length stop_layer.sent + 2 else length stop_layer.sent + 1))
    × (answered.points ≡ map stop_feature answer.stops)
    × (length (load_stops whole_degrees 15 utrecht (on_stops_failed 1 asked)).sent
        ≡ length stop_layer.sent + 2)
    × (on_stops 0 answer asked ≡ asked)
unfolding covers
view_asked_once_example =
    view_asked_once whole_degrees whole_degrees_laws 15 utrecht stop_layer answer 0
      (record {
        corners = (refl, refl, refl, refl);
        factor = (refl, refl);
        sizes = (refl, refl);
        margins = (refl, refl);
        upright = (refl, refl);
      })
      refl refl refl (omega arith)

abbrev noon : ℕ → List (Text × Text)
noon now_ms =
    (codes "hour", codes "10") ∷ (codes "minute", codes "05") ∷ (codes "second", codes "00") ∷ []

abbrev isolated_props : LayerProps ℕ
isolated_props = record {
  active_id = some bus_1.id;
  selected_ids = bus_1.id ∷ [];
  isolate = true;
  show_stops = true;
  selected_stop_id = some (codes "s1");
  route_shape = some ((52, 5) ∷ (53, 6) ∷ []);
  trip_stops = first_stop ∷ second_stop ∷ [];
  stop_numbers = false;
}

abbrev hovering : Scene ℕ
hovering =
    set_hover (some bus_1.id)
      (ensure_layers whole_degrees noon 0 (mount_layers whole_degrees noon isolated_props))

abbrev hovering_layers : Layers ℕ
hovering_layers = record {
  selected = bus_1.id ∷ [];
  isolated = some (bus_1.id ∷ []);
  hovered = some bus_1.id;
  selected_stop = some (codes "s1");
  stops_visible = true;
  numbers_visible = false;
  stops = [];
  route = some ((5, 52) ∷ (6, 53) ∷ []);
  trip_stops = stops_from isolated_props.trip_stops hovering.refs.upcoming_from;
}

layers_show_state_example :
    hovering_layers ≡ record (expected hovering.refs) { selected = bus_1.id ∷ [] }
unfolding ensure_layers mount_layers apply_stops_visibility apply_stop_selection apply_stop_numbers
    push_route push_trip apply_isolation isolation set_hover same_id route_fc lon_lat
layers_show_state_example =
    layers_show_state whole_degrees noon hovering_layers
      (SceneReach.next (SceneReach.next (SceneReach.start isolated_props) (SceneStep.loads 0))
        (SceneStep.hovers (some bus_1.id)))
      refl

-- A vehicle is selected.
abbrev picked : Scene ℕ
picked =
    render_layers whole_degrees noon (record nothing_changed { selection = true }) true 5
      (record hovering.refs.props { selected_ids = bus_1.id ∷ [] }) hovering

theme_drops_highlight_example :
    ((l : Layers ℕ) × ((restyle whole_degrees noon 7 picked).layers ≡ some l)
      × (l.selected ≡ picked.first_selected_ids)
      × ((restyle whole_degrees noon 7 picked).refs.props.selected_ids
          ≡ picked.refs.props.selected_ids))
    × ((s : Scene ℕ) × SceneReach whole_degrees noon s
        × (k : Layers ℕ) × (s.layers ≡ some k)
        × (k.selected ≡ bus_1.id ∷ [])
        × (s.refs.props.selected_ids ≡ bus_1.id ∷ [])
        × SceneReach whole_degrees noon (restyle whole_degrees noon 7 s)
        × (l : Layers ℕ) × ((restyle whole_degrees noon 7 s).layers ≡ some l)
        × (l.selected ≡ [])
        × ((restyle whole_degrees noon 7 s).refs.props.selected_ids ≡ bus_1.id ∷ []))
theme_drops_highlight_example = theme_drops_highlight whole_degrees noon (bus_1.id ∷ []) 7 picked

abbrev sheet_open : Layout ℕ
sheet_open = record {
  panel = some (record { left = 0; top = 600; width = 400; height = 200 });
  container = record { left = 0; top = 0; width = 400; height = 800 };
}

-- A vehicle is followed.
abbrev following : WebScreen ℕ
following = record {
  app = record (new_app false) { following = true; active_id = some bus_1.id };
  vehicles = (bus_1.id, bus_1) ∷ [];
  eased = [];
}

-- The user moves the map; then the vehicle moves, and another one goes.
abbrev left_alone : WebScreen ℕ
left_alone =
    act whole_degrees sheet_open (passive (Passive.gone (codes "GVB:2")))
      (tick whole_degrees sheet_open ((bus_1.id, bus_1_back) ∷ []) (move_start true following))

camera_left_to_user_example :
    (left_alone.eased ≡ [])
    × (left_alone.app.camera ≡ [])
    × (left_alone.app.following ≡ false)
    × ((press_follow whole_degrees sheet_open left_alone).app.following ≡ true)
    × ((press_follow whole_degrees sheet_open left_alone).eased
        ≡ record {
          lon = 6;
          lat = 52;
          offset = panel_aware_offset whole_degrees sheet_open;
          duration = 500;
        }
          ∷ [])
unfolding move_start tick act passive active_vehicle vehicle_ref Dict.lookup text_eq
    on_selected_live on_selected_gone same_id new_app
camera_left_to_user_example =
    camera_left_to_user whole_degrees following sheet_open bus_1_back refl
      (Background.happens sheet_open (Passive.gone (codes "GVB:2"))
        (Background.ticks sheet_open ((bus_1.id, bus_1_back) ∷ []) Background.still))
      refl
