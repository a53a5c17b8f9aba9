-- ===== src/MobileMap/Same.antt =====
-- apps/mobile/components/map/LiveMap.tsx: the handlers that tell the live client
-- nothing.
use ovlive_platform.Numbers.{Numbers}
use ovlive_platform.Types.{BBox, Vehicle}
use ovlive_platform.Geo.{bounds_to_bbox, covers}
use ovlive_platform.Settings.Defs.{SavedView}
use ovlive_platform.Rest.Defs.{MarkerKey}
use ovlive_platform.Fleet.Defs.{Feature, flush}
use ovlive_platform.WebMap.Stops.{StopsResponse, stop_feature}
use ovlive_platform.MobileMap.Images.{Drawn}
use ovlive_platform.MobileMap.Defs.{
  draw_vehicles, redraw_trip, on_count, newest, stops_zoom, differs, current_upcoming_from,
  on_select_stop, ViewState, MobileMap, push_trip_stops, load_stops, on_flush_timer, on_flush,
  on_stops, on_stops_failed, center_vehicle, center_on, show_live, vehicle_of,
}
use ovlive_platform.MobileMap.Events.{
  StopHit, when, names, ensure_drawn, reattach, on_region_will_change, on_press, press_vehicle,
  press_stop, center_point, place_start, locate, is_near,
}
use ovlive_platform.Prelude.{
  ℕ, ◌≡◌, refl, ◌∙◌, Bool, true, false, ◌&&◌, ◌||◌, not, Option, none, some, List, [], ◌∷◌,
  if◌then◌else◌, Text, ◌==◌, is_empty, length, map,
}

module _ {R I : Type 0} where
  -- The two maps have told the same things to the client, and have the same properties and view.
  pub record Same (m n : MobileMap R I) : Type 0 where
    pub client : n.client ≡ m.client
    pub props : n.props ≡ m.props
    pub view : n.view ≡ m.view

  pub Same-self : (m : MobileMap R I) → Same m m
  Same-self m = record { client = refl; props = refl; view = refl }

  pub Same-trans : (l m n : MobileMap R I) → Same l m → Same m n → Same l n
  Same-trans l m n h k = record {
    client = k.client ∙ h.client;
    props = k.props ∙ h.props;
    view = k.view ∙ h.view;
  }

  -- Neither branch tells the client anything.
  pub if-Same :
      (b : Bool) (m x y : MobileMap R I) → Same m x → Same m y → Same m (if b then x else y)
  if-Same true m x y h k = h
  if-Same false m x y h k = k

  pub when-Same :
      (b : Bool) (f : MobileMap R I → MobileMap R I) (m : MobileMap R I)
      → Same m (f m)
      → Same m (when b f m)
  when-Same true f m h = h
  when-Same false f m h = Same-self m

  pub center_vehicle-Same :
      (veh : Option (Vehicle R)) (duration : ℕ) (inset : Option ℕ) (m : MobileMap R I)
      → Same m (center_vehicle veh duration inset m)
  unfolding center_vehicle center_on
  center_vehicle-Same none duration inset m = Same-self m
  center_vehicle-Same (some v) duration inset m = record {
    client = refl;
    props = refl;
    view = refl;
  }

  show_live-Same : (veh : Option (Vehicle R)) (m : MobileMap R I) → Same m (show_live veh m)
  unfolding show_live center_on
  show_live-Same none m = Same-self m
  show_live-Same (some v) m =
      if-Same (m.props.following && not m.gesture) m _ _
        (record { client = refl; props = refl; view = refl })
        (record { client = refl; props = refl; view = refl })

  press_vehicle-Same :
      (hit : Option Text) (inset : ℕ) (m : MobileMap R I) → Same m (press_vehicle hit inset m)
  unfolding press_vehicle
  press_vehicle-Same none inset m = Same-self m
  press_vehicle-Same (some id) inset m =
      let h = center_vehicle-Same (vehicle_of (some id) m.store) 500 (some inset) m in
      record { client = h.client; props = h.props; view = h.view }

  press_stop-Same :
      (stop : Option (StopHit R)) (inset : ℕ) (m : MobileMap R I) → Same m (press_stop stop inset m)
  unfolding press_stop center_on
  press_stop-Same none inset m = Same-self m
  press_stop-Same (some hit) inset m = go hit.stop_id hit.point
    where
      go :
          (o : Option Text) (p : Option (R × R))
          → Same m (elim o [
            | none ↦ m
            | some id ↦
                if is_empty id
                then m
                else let centred = center_point p inset m in
                  record centred { calls = on_select_stop id ∷ centred.calls }
          ])
      go none p = Same-self m
      go (some []) p = Same-self m
      go (some (c ∷ id)) none = record { client = refl; props = refl; view = refl }
      go (some (c ∷ id)) (some (lon, lat)) = record { client = refl; props = refl; view = refl }

  pub on_press-Same :
      (hit : Option Text) (stop : Option (StopHit R)) (m : MobileMap R I)
      → Same m (on_press hit stop m)
  unfolding on_press
  on_press-Same hit stop m =
      let inset : ℕ =
        if m.props.bottom_inset == 0 then m.props.sheet_default_inset else m.props.bottom_inset in
      if-Same (names hit) m _ _ (press_vehicle-Same hit inset m)
        (if-Same (not m.props.show_stops) m _ _ (Same-self m) (press_stop-Same stop inset m))

  answer-Same :
      (o : Option (ℕ × BBox R)) (n : ℕ) (f : BBox R → MobileMap R I) (m : MobileMap R I)
      → ((b : BBox R) → Same m (f b))
      → Same m (elim o [ none ↦ m | some (k, padded) ↦ if k == n then f padded else m ])
  answer-Same none n f m h = Same-self m
  answer-Same (some (k, padded)) n f m h = if-Same (k == n) m (f padded) m (h padded) (Same-self m)

  pub on_stops-Same :
      (n : ℕ) (res : StopsResponse R) (m : MobileMap R I) → Same m (on_stops n res m)
  unfolding on_stops
  on_stops-Same n res m =
      answer-Same m.stops_request n
        (λ padded. record m {
          stops_fc = map stop_feature res.stops;
          stops_box = if res.truncated then none else some padded;
          stops_request = none;
        })
        m (λ padded. record { client = refl; props = refl; view = refl })

  pub on_stops_failed-Same : (n : ℕ) (m : MobileMap R I) → Same m (on_stops_failed n m)
  unfolding on_stops_failed
  on_stops_failed-Same n m =
      answer-Same m.stops_request n (λ padded. record m { stops_request = none }) m
        (λ padded. record { client = refl; props = refl; view = refl })

  pub on_region_will_change-Same :
      (user : Bool) (m : MobileMap R I) → Same m (on_region_will_change user m)
  unfolding on_region_will_change
  on_region_will_change-Same true m = record { client = refl; props = refl; view = refl }
  on_region_will_change-Same false m = Same-self m

  pub ensure_drawn-Same :
      (draw : MarkerKey → Drawn I) (m : MobileMap R I) → Same m (ensure_drawn draw m)
  unfolding ensure_drawn
  ensure_drawn-Same draw m = record { client = refl; props = refl; view = refl }

  pub reattach-Same : (m : MobileMap R I) → Same m (reattach m)
  unfolding reattach
  reattach-Same m =
      when-Same m.props.following (center_vehicle (vehicle_of m.props.active_id m.store) 500 none) m
        (center_vehicle-Same (vehicle_of m.props.active_id m.store) 500 none m)

module _ {I : Type 0} (num : Numbers) where
  open num use {R, less}

  pub load_stops-Same : (v : ViewState R) (m : MobileMap R I) → Same m (load_stops num v m)
  unfolding load_stops
  load_stops-Same v m =
      if-Same (not m.props.show_stops || less v.zoom (stops_zoom num)) m _ _ (Same-self m) (
        if-Same (covers num m.stops_box (bounds_to_bbox num v.bounds)) m _ _ (Same-self m)
          (record { client = refl; props = refl; view = refl }))

  pub locate-Same : (fix : Option (R × R)) (m : MobileMap R I) → Same m (locate num fix m)
  unfolding locate center_on
  locate-Same none m = Same-self m
  locate-Same (some (lon, lat)) m = record { client = refl; props = refl; view = refl }

  pub place_start-Same :
      (start : SavedView R) (m : MobileMap R I) → Same m (place_start num start m)
  unfolding place_start
  place_start-Same start m =
      let there : Bool = elim m.view [
        | none ↦ false
        | some v ↦ is_near num v.center_lon start.lng && is_near num v.center_lat start.lat
      ] in
      if-Same (m.placed || there) m _ _ (record { client = refl; props = refl; view = refl })
        (record { client = refl; props = refl; view = refl })

  module _ (draw : MarkerKey → Drawn I) (format_to_parts : ℕ → List (Text × Text)) where
    redraw_trip-Same :
        (now : ℕ) (m : MobileMap R I) → Same m (redraw_trip num draw format_to_parts now m)
    unfolding redraw_trip push_trip_stops
    redraw_trip-Same now m =
        if-Same (differs m.upcoming_from (current_upcoming_from num draw format_to_parts now m)) m _
          _ (record { client = refl; props = refl; view = refl }) (Same-self m)

    on_flush-Same :
        (now : ℕ) (fc : List (Feature R)) (m : MobileMap R I)
        → Same m (on_flush num draw format_to_parts now fc m)
    unfolding on_flush draw_vehicles
    on_flush-Same now fc m =
        let drawn = draw_vehicles num draw format_to_parts fc m in
        let h = redraw_trip-Same now drawn in
        let k =
          show_live-Same (vehicle_of m.props.active_id m.store)
            (record (redraw_trip num draw format_to_parts now drawn) {
              calls =
                  on_count (length m.store.vehicles)
                  ∷ (redraw_trip num draw format_to_parts now drawn).calls;
            }) in
        record { client = k.client ∙ h.client; props = k.props ∙ h.props; view = k.view ∙ h.view }

    pub on_flush_timer-Same :
        (now : ℕ) (m : MobileMap R I) → Same m (on_flush_timer num draw format_to_parts now m)
    unfolding on_flush_timer
    on_flush_timer-Same now m =
        let store = flush now m.store in
        let m' = record m { store = store } in
        let h = on_flush-Same now (newest store.flushed) m' in
        if-Same store.can_flush m (on_flush num draw format_to_parts now (newest store.flushed) m')
          m' (record { client = h.client; props = h.props; view = h.view })
          (record { client = refl; props = refl; view = refl })

    pub push_trip_stops-Same :
        (now : ℕ) (m : MobileMap R I) → Same m (push_trip_stops num draw format_to_parts now m)
    unfolding push_trip_stops
    push_trip_stops-Same now m = record { client = refl; props = refl; view = refl }
