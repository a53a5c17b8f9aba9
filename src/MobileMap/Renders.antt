-- ===== src/MobileMap/Renders.antt =====
-- apps/mobile/components/map/LiveMap.tsx: the start of the map, and a render with new properties.
-- `Math.round` and the powers of two are parameters.
use ovlive_platform.Numbers.{Numbers}
use ovlive_platform.Types.{BBox, NormalizedUpdate}
use ovlive_platform.Live.Defs.{connect, new_client, set_pinned, on_message}
use ovlive_platform.Fleet.Defs.{new_store, apply}
use ovlive_platform.Settings.Defs.{SavedView}
use ovlive_platform.Rest.Defs.{MarkerKey}
use ovlive_platform.MobileMap.Images.{Drawn, no_images}
use ovlive_platform.MobileMap.Defs.{MapProps, MobileMap, heartbeat_ms, push_trip_stops, load_stops}
use ovlive_platform.MobileMap.Events.{when, ensure_drawn, tell_filters, reattach}
use ovlive_platform.Prelude.{
  ℕ, Bool, false, ◌||◌, Option, none, some, List, [], if◌then◌else◌, Text,
}

-- What React found changed since the render before: an effect runs if a dependency of it has.
pub record Changed : Type 0 where
  pub dark : Bool
  pub filters : Bool
  pub selected_ids : Bool
  pub show_stops : Bool
  pub trip_stops : Bool
  pub active_id : Bool
  pub following : Bool
  pub vehicles_fc : Bool

-- `getSavedView()`, or the centre of the country at the default zoom.
unfoldable pub start_view : (num : Numbers) → Option (SavedView num.R) → SavedView num.R
start_view num none = record {
  lng = num.div (num.literal 49041) (num.literal 10000);
  lat = num.div (num.literal 523676) (num.literal 10000);
  zoom = num.literal 12;
}
start_view num (some v) = v

-- The guess of the box around the centre, before the map has told it.
unfoldable pub guess_box : (num : Numbers) → (num.R → num.R) → SavedView num.R → BBox num.R
guess_box num pow2 v =
    let guess =
      num.div (num.div (num.literal 15) (num.literal 100))
        (pow2 (num.sub v.zoom (num.literal 12))) in
    let wide = num.mul guess (num.div (num.literal 16) (num.literal 10)) in
    record {
      min_lat = num.sub v.lat guess;
      min_lon = num.sub v.lng wide;
      max_lat = num.add v.lat guess;
      max_lon = num.add v.lng wide;
    }

module _ {I : Type 0} (num : Numbers) (draw : MarkerKey → Drawn I)
    (format_to_parts : ℕ → List (Text × Text)) (round : num.R → ℕ) where
  open num use {R}

  -- The effects of the first render, in their order.
  unfoldable pub mount : (R → R) → ℕ → MapProps R → Option (SavedView R) → MobileMap R I
  unfolding start_view guess_box
  mount pow2 now p saved =
      let v = start_view num saved in
      let client =
        connect (guess_box num pow2 v) (round v.zoom) p.filters (new_client heartbeat_ms) in
      push_trip_stops num draw format_to_parts now (record {
        props = p;
        client = set_pinned p.selected_ids client;
        store = record new_store { selected_ids = p.selected_ids };
        images = no_images;
        view = none;
        vehicles_fc = [];
        stops_fc = [];
        trip_stops_fc = [];
        upcoming_from = none;
        stops_box = none;
        stops_request = none;
        stops_sent = 0;
        gesture = false;
        placed = false;
        me = false;
        saved_views = [];
        camera = [];
        calls = [];
      })

  -- The properties of a render; the store reads its selection from them.
  abbrev pub take_props : MapProps R → MobileMap R I → MobileMap R I
  take_props p m = record m { props = p; store = record m.store { selected_ids = p.selected_ids } }

  abbrev pub pin : MobileMap R I → MobileMap R I
  pin m = record m { client = set_pinned m.props.selected_ids m.client }

  -- The effect on `showStops`.
  abbrev pub fill_stops : MobileMap R I → MobileMap R I
  fill_stops m =
      if m.props.show_stops then elim m.view [ none ↦ m | some v ↦ load_stops num v m ] else m

  -- A render, and the effects whose dependencies have changed, in their order.
  unfoldable pub render : Changed → ℕ → MapProps R → MobileMap R I → MobileMap R I
  render ch now p m =
      let imaged =
        when (ch.dark || ch.selected_ids || ch.vehicles_fc) (ensure_drawn draw) (take_props p m) in
      let told = when ch.filters (tell_filters num round) imaged in
      let pinned = when ch.selected_ids pin told in
      let filled = when ch.show_stops fill_stops pinned in
      let pushed =
        when (ch.trip_stops || ch.active_id) (push_trip_stops num draw format_to_parts now)
          filled in
      when (ch.following || ch.active_id) reattach pushed

  -- A message of the socket: the client hands its update to the store.
  unfoldable pub on_frame :
      (Text → Text) → ℕ → Option (NormalizedUpdate R) → MobileMap R I → MobileMap R I
  on_frame to_upper now none m = record m { client = on_message none m.client }
  on_frame to_upper now (some u) m = record m {
    client = on_message (some u) m.client;
    store = apply to_upper now u m.store;
  }
