-- ===== src/MobileMap/Examples.antt =====
-- The theorems on the mobile map at one run: the map starts, its socket opens, the map library tells
-- the view, and a snapshot comes in and is flushed. Coordinates are whole degrees.
use ovlive_platform.Numbers.{whole_degrees}
use ovlive_platform.Samples.{all_types, bus_1, snapshot, delta, first_stop, second_stop}
use ovlive_platform.Prelude.{
  ℕ, ◌≡◌, refl, true, false, none, some, [], ◌∷◌, map, Text, List, codes, text_eq,
}
use ovlive_platform.Geo.{bounds_to_bbox}
use ovlive_platform.Live.Defs.{
  ReadyState, on_open, set_state, viewport_msg, connect, new_client, set_pinned, update, send,
}
use ovlive_platform.Live.Subscription.{last_viewport}
use ovlive_platform.Rest.Defs.{MarkerKey}
use ovlive_platform.Prelude.Int.{pos}
use ovlive_platform.Types.{Vehicle}
use ovlive_platform.Fleet.Defs.{
  schedule_flush, apply_frame, reconcile, leave_all, move_all, enter_all, includes, clear, apply,
  new_store,
}
use ovlive_platform.Trip.Defs.{trip_stop_features, upcoming_from_index}
use ovlive_platform.MobileMap.Images.{Drawn, drawn}
use ovlive_platform.MobileMap.Defs.{
  center_vehicle, center_on, current_upcoming_from, MapProps, MobileMap, ViewState, ease_to,
  push_trip_stops, on_flush_timer, vehicle_of, progress_of, load_stops,
}
use ovlive_platform.MobileMap.Events.{
  on_region_will_change, on_region_did_change, resync, tell_view,
}
use ovlive_platform.MobileMap.Renders.{mount, on_frame, start_view, guess_box}
use ovlive_platform.MobileMap.Server.{server_sees_map}
use ovlive_platform.MobileMap.Flush.{AllBaked, flush_draws}
use ovlive_platform.MobileMap.Gesture.{Background, gesture_left_alone}
use ovlive_platform.Live.Step as LiveRun
use ovlive_platform.Prelude.Dict
use ovlive_platform.MobileMap.Run as Run

abbrev noon : ℕ → List (Text × Text)
noon now_ms =
    (codes "hour", codes "10") ∷ (codes "minute", codes "05") ∷ (codes "second", codes "00") ∷ []

abbrev same_text : Text → Text
same_text t = t

abbrev same_number : ℕ → ℕ
same_number n = n

abbrev draws : MarkerKey → Drawn Text
draws k = drawn k.line

abbrev followed : MapProps ℕ
followed = record {
  dark = false;
  filters = all_types;
  active_id = some bus_1.id;
  selected_ids = bus_1.id ∷ [];
  isolate = false;
  following = true;
  show_stops = false;
  route_shape = none;
  trip_stops = first_stop ∷ second_stop ∷ [];
  bottom_inset = 40;
  sheet_default_inset = 300;
}

abbrev seen : ViewState ℕ
seen = record { center_lon = 5; center_lat = 52; zoom = 12; bounds = (4, 51, 6, 53) }

abbrev started : MobileMap ℕ Text
started = mount whole_degrees draws noon same_number same_number 0 followed none

abbrev online : MobileMap ℕ Text
online = record started { client = on_open 0 (set_state 0 ReadyState.opened started.client) }

abbrev settled : MobileMap ℕ Text
settled = on_region_did_change whole_degrees same_number seen online

abbrev filled : MobileMap ℕ Text
filled = on_frame whole_degrees draws noon same_number same_text 1000 (some snapshot) settled

abbrev shown : MobileMap ℕ Text
shown = on_flush_timer whole_degrees draws noon 2000 filled

settled-Reach : Run.Reach whole_degrees draws noon same_number same_number same_text settled
unfolding mount start_view guess_box push_trip_stops new_client connect set_pinned send on_open
settled-Reach =
    Run.Reach.next
      (Run.Reach.next (Run.Reach.start 0 followed none)
        (Run.Step.browses _ (LiveRun.Step.opens started.client 0 refl) refl refl))
      (Run.Step.did_change seen)

server_sees_map_example :
    last_viewport (settled.client.socket 0).sent
    ≡ some (
        viewport_msg
          (record {
            bbox = bounds_to_bbox whole_degrees seen.bounds;
            zoom = 12;
            filters = all_types;
          })
          (bus_1.id ∷ []))
unfolding mount start_view guess_box push_trip_stops new_client connect set_pinned send on_open
    on_region_did_change resync tell_view update load_stops
server_sees_map_example =
    server_sees_map whole_degrees draws noon same_number same_number same_text seen 0 settled-Reach
      refl refl

flush_draws_example :
    (shown.vehicles_fc ≡ map (λ e. e.1) shown.store.features)
    × AllBaked whole_degrees draws noon shown.props shown.vehicles_fc shown.images
    × (shown.trip_stops_fc
        ≡ trip_stop_features shown.props.trip_stops (
            upcoming_from_index whole_degrees noon shown.props.trip_stops
              (progress_of (vehicle_of shown.props.active_id shown.store))
              2000))
unfolding mount push_trip_stops current_upcoming_from vehicle_of on_frame on_region_did_change
    resync tell_view load_stops center_vehicle center_on new_store apply schedule_flush apply_frame
    reconcile leave_all move_all enter_all includes clear text_eq Dict.lookup Dict.insert Dict.erase
flush_draws_example =
    flush_draws whole_degrees draws noon 2000
      (current_upcoming_from whole_degrees draws noon 0 started) filled (λ p. (p.line, refl)) refl
      refl refl

abbrev held : MobileMap ℕ Text
held = on_region_will_change true filled

-- A message moves the vehicle in the gesture.
abbrev moved : MobileMap ℕ Text
moved = on_frame whole_degrees draws noon same_number same_text 3000 (some delta) held

abbrev bus_there : Vehicle ℕ
bus_there = record bus_1 { lat = 53; lon = 6; speed_kmh = none; delay = pos 0; at_stop = true }

abbrev released : MobileMap ℕ Text
released = on_region_did_change whole_degrees same_number seen moved

gesture_left_alone_example :
    (moved.camera ≡ filled.camera)
    × (released.camera ≡ ease_to 6 53 500 none 40 ∷ filled.camera)
    × (released.gesture ≡ false)
unfolding mount push_trip_stops current_upcoming_from vehicle_of on_frame on_region_will_change
    on_region_did_change resync tell_view load_stops center_vehicle center_on new_store apply
    schedule_flush apply_frame reconcile leave_all move_all enter_all includes clear text_eq
    Dict.lookup Dict.insert Dict.erase
gesture_left_alone_example =
    gesture_left_alone whole_degrees draws noon same_number same_text filled seen bus_there
      (Background.receives 3000 (some delta) Background.still) refl refl
