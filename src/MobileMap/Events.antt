-- ===== src/MobileMap/Events.antt =====
-- apps/mobile/components/map/LiveMap.tsx: the start of the map, the events of the map library and
-- of the app, and the effects on the properties. `Math.round` and the powers of two are parameters.
use ovlive_platform.Numbers.{Numbers}
use ovlive_platform.Geo.{bounds_to_bbox}
use ovlive_platform.Live.Defs.{update, suspend, resume, close}
use ovlive_platform.Fleet.Defs.{dispose}
use ovlive_platform.Settings.Defs.{SavedView}
use ovlive_platform.Rest.Defs.{MarkerKey}
use ovlive_platform.MobileMap.Images.{Drawn, ensure}
use ovlive_platform.MobileMap.Defs.{
  ViewState, MapProps, MobileMap, jump_to, fly_to, on_select_stop, on_select_vehicle, vehicle_of,
  keys_of, center_on, center_vehicle, load_stops,
}
use ovlive_platform.Prelude.{
  ℕ, Bool, true, false, ◌&&◌, ◌||◌, not, Option, none, some, List, [], ◌∷◌, ◌==◌, if◌then◌else◌,
  is_empty, Text,
}

-- The first stop that the map library finds near a tap.
pub record StopHit (R : Type 0) : Type 0 where
  pub stop_id : Option Text
  -- The coordinates, if the geometry is a point.
  pub point : Option (R × R)

-- The route, with the longitudes first.
unfoldable pub lon_lat : {R : Type 0} → List (R × R) → List (R × R)
lon_lat [] = []
lon_lat ((lat, lon) ∷ rest) = (lon, lat) ∷ lon_lat rest

-- `none` is an empty collection.
unfoldable pub route_fc : {R : Type 0} → Option (List (R × R)) → Option (List (R × R))
route_fc none = none
route_fc (some []) = none
route_fc (some (p ∷ [])) = none
route_fc (some (p ∷ q ∷ shape)) = some (lon_lat (p ∷ q ∷ shape))

-- The vehicles that the base layers show: the selected ones, or all (`none`).
unfoldable pub iso_filter : {R : Type 0} → MapProps R → Option (List Text)
iso_filter p =
    if p.isolate then elim p.selected_ids [ [] ↦ none | id ∷ ids ↦ some (id ∷ ids) ] else none

abbrev pub when {ℓ} : {A : Type ℓ} → Bool → (A → A) → A → A
when b f a = if b then f a else a

-- An empty id is falsy.
abbrev pub names : Option Text → Bool
names none = false
names (some id) = not (is_empty id)

module _ {R I : Type 0} where
  -- The cleanup of the effect.
  unfoldable pub unmount : MobileMap R I → MobileMap R I
  unmount m = record m { client = close m.client; store = dispose m.store; stops_request = none }

  -- The client holds its socket only while the app is active.
  unfoldable pub on_app_state : Bool → MobileMap R I → MobileMap R I
  on_app_state active m = record m { client = if active then resume m.client else suspend m.client }

  unfoldable pub on_region_will_change : Bool → MobileMap R I → MobileMap R I
  on_region_will_change user m = when user (λ (n : MobileMap R I). record n { gesture = true }) m

  unfoldable pub press_vehicle : Option Text → ℕ → MobileMap R I → MobileMap R I
  press_vehicle none inset m = m
  press_vehicle (some id) inset m =
      let veh = vehicle_of (some id) m.store in
      let centred = center_vehicle veh 500 (some inset) m in
      record centred { calls = on_select_vehicle id veh ∷ centred.calls }

  abbrev pub center_point : Option (R × R) → ℕ → MobileMap R I → MobileMap R I
  center_point none inset m = m
  center_point (some (lon, lat)) inset m = center_on lon lat 400 none (some inset) m

  unfoldable pub press_stop : Option (StopHit R) → ℕ → MobileMap R I → MobileMap R I
  press_stop none inset m = m
  press_stop (some hit) inset m = elim hit.stop_id [
    | none ↦ m
    | some id ↦
        if is_empty id
        then m
        else let centred = center_point hit.point inset m in
          record centred { calls = on_select_stop id ∷ centred.calls }
  ]

  -- A tap, with the vehicle and the stop that the map library finds there.
  unfoldable pub on_press : Option Text → Option (StopHit R) → MobileMap R I → MobileMap R I
  unfolding press_vehicle press_stop
  on_press hit stop m =
      let inset : ℕ =
        if m.props.bottom_inset == 0 then m.props.sheet_default_inset else m.props.bottom_inset in
      if names hit
      then press_vehicle hit inset m
      else if not m.props.show_stops
      then m
      else press_stop stop inset m

  -- `panTo` of the handle.
  unfoldable pub pan_to : R → R → MobileMap R I → MobileMap R I
  unfolding center_on
  pan_to lon lat m = center_on lon lat 600 none none m

  -- The effect on `following` and `activeId`.
  unfoldable pub reattach : MobileMap R I → MobileMap R I
  reattach m =
      when m.props.following (center_vehicle (vehicle_of m.props.active_id m.store) 500 none) m

  -- The effect on the selection and the tone.
  unfoldable pub ensure_drawn : (MarkerKey → Drawn I) → MobileMap R I → MobileMap R I
  ensure_drawn draw m = record m {
    images = ensure draw (keys_of m.props.dark m.props.selected_ids m.vehicles_fc) m.images;
  }

module _ (num : Numbers) where
  open num use {R, literal, sub, div, less}

  -- Within a hundredth of a degree.
  abbrev pub is_near : R → R → Bool
  is_near a b =
      let d = sub a b in
      less (if less d (literal 0) then sub (literal 0) d else d) (div (literal 1) (literal 100))

module _ {I : Type 0} (num : Numbers) where
  open num use {R, literal}

  -- `flyTo` of the handle.
  unfoldable pub fly_to_point : R → R → Option R → MobileMap R I → MobileMap R I
  fly_to_point lon lat zoom m =
      let z : R = elim zoom [ none ↦ literal 15 | some z ↦ z ] in
      record m { camera = fly_to lon lat z m.props.bottom_inset ∷ m.camera }

  -- `locate` of the handle, once there is a fix; without the permission or a fix it does nothing.
  unfoldable pub locate : Option (R × R) → MobileMap R I → MobileMap R I
  unfolding center_on
  locate none m = m
  locate (some (lon, lat)) m =
      center_on lon lat 800 (some (literal 14)) none (record m { me = true })

  -- `onDidFinishLoadingMap`.
  unfoldable pub place_start : SavedView R → MobileMap R I → MobileMap R I
  place_start start m =
      let there : Bool = elim m.view [
        | none ↦ false
        | some v ↦ is_near num v.center_lon start.lng && is_near num v.center_lat start.lat
      ] in
      if m.placed || there
      then record m { placed = true }
      else record m { placed = true; camera = jump_to start.lng start.lat start.zoom ∷ m.camera }

  module _ (round : R → ℕ) where
    unfoldable pub tell_view : ViewState R → MobileMap R I → MobileMap R I
    tell_view v m = record m {
      client = update (bounds_to_bbox num v.bounds) (round v.zoom) m.props.filters m.client;
    }

    -- The effect on the filters.
    unfoldable pub tell_filters : MobileMap R I → MobileMap R I
    unfolding tell_view
    tell_filters m = elim m.view [ none ↦ m | some v ↦ tell_view v m ]

    unfoldable pub resync : ViewState R → MobileMap R I → MobileMap R I
    unfolding tell_view
    resync view m =
        let told = tell_view view (record m { view = some view }) in
        let saved : SavedView R = record {
          lng = view.center_lon;
          lat = view.center_lat;
          zoom = view.zoom;
        } in
        load_stops num view (record told { saved_views = saved ∷ told.saved_views })

    unfoldable pub on_region_did_change : ViewState R → MobileMap R I → MobileMap R I
    unfolding resync
    on_region_did_change view m =
        let synced = resync view (record m { gesture = false }) in
        when (m.gesture && m.props.following)
          (center_vehicle (vehicle_of m.props.active_id m.store) 500 none) synced
