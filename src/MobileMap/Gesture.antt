-- ===== src/MobileMap/Gesture.antt =====
-- apps/mobile/components/map/LiveMap.tsx: the camera in a gesture of the user, and after it.
use ovlive_platform.Numbers.{Numbers}
use ovlive_platform.Fleet.Defs.{Feature, flush}
use ovlive_platform.Types.{BBox, Vehicle, NormalizedUpdate}
use ovlive_platform.Rest.Defs.{MarkerKey}
use ovlive_platform.WebMap.Stops.{StopsResponse, stop_feature}
use ovlive_platform.MobileMap.Images.{Drawn}
use ovlive_platform.MobileMap.Defs.{
  MobileMap, ViewState, ease_to, load_stops, draw_vehicles, redraw_trip, push_trip_stops, show_live,
  on_flush, on_flush_timer, on_stops, on_stops_failed, on_count, vehicle_of, center_on,
  center_vehicle, newest,
}
use ovlive_platform.MobileMap.Events.{
  on_region_will_change, on_region_did_change, resync, tell_view, on_app_state, when,
}
use ovlive_platform.MobileMap.Renders.{on_frame}
use ovlive_platform.Prelude.{
  ℕ, ◌≡◌, refl, ◌∙◌, ap, Bool, true, false, ◌&&◌, Option, none, some, List, ◌∷◌, arith, length,
  if◌then◌else◌, Text, ◌==◌, map,
}

module _ {R I : Type 0} where
  -- A gesture goes on, and the camera has been asked for nothing since.
  record IsCalm (m n : MobileMap R I) : Type 0 where
    gesture : n.gesture ≡ m.gesture
    camera : n.camera ≡ m.camera

  IsCalm-trans : (l m n : MobileMap R I) → IsCalm l m → IsCalm m n → IsCalm l n
  IsCalm-trans l m n h k = record { gesture = k.gesture ∙ h.gesture; camera = k.camera ∙ h.camera }

  if-IsCalm :
      (b : Bool) (m x y : MobileMap R I) → IsCalm m x → IsCalm m y → IsCalm m (if b then x else y)
  if-IsCalm true m x y h k = h
  if-IsCalm false m x y h k = k

  show_live-IsCalm :
      (o : Option (Vehicle R)) (m : MobileMap R I) → m.gesture ≡ true → IsCalm m (show_live o m)
  unfolding show_live center_on
  show_live-IsCalm none m e = record { gesture = refl; camera = refl }
  show_live-IsCalm (some v) m e = record { gesture = ground arith; camera = ground arith }

  answer-IsCalm :
      (o : Option (ℕ × BBox R)) (n : ℕ) (f : BBox R → MobileMap R I) (m : MobileMap R I)
      → ((b : BBox R) → IsCalm m (f b))
      → IsCalm m (elim o [ none ↦ m | some (k, padded) ↦ if k == n then f padded else m ])
  answer-IsCalm none n f m h = record { gesture = refl; camera = refl }
  answer-IsCalm (some (k, padded)) n f m h =
      if-IsCalm (k == n) m (f padded) m (h padded) (record { gesture = refl; camera = refl })

  recentred :
      (b : Bool) (o : Option (Vehicle R)) (v : Vehicle R) (m : MobileMap R I)
      → b ≡ true
      → o ≡ some v
      → ((when b (center_vehicle o 500 none) m).camera
          ≡ ease_to v.lon v.lat 500 none m.props.bottom_inset ∷ m.camera)
        × ((when b (center_vehicle o 500 none) m).gesture ≡ m.gesture)
  unfolding center_vehicle center_on
  recentred b o v m eb eo = ground (arith, eb, eo)

module _ {I : Type 0} (num : Numbers) (draw : MarkerKey → Drawn I)
    (format_to_parts : ℕ → List (Text × Text)) (round : num.R → ℕ) (to_upper : Text → Text) where
  open num use {R}

  -- What happens without the user: flushes, messages of the socket, answers about stops, and the
  -- app going to the background and back.
  pub data Background (m : MobileMap R I) : MobileMap R I → Type 0 where
    still : Background m m
    flushes :
        {n : MobileMap R I} (now : ℕ)
        → Background m n
        → Background m (on_flush_timer num draw format_to_parts now n)
    receives :
        {n : MobileMap R I} (now : ℕ) (u : Option (NormalizedUpdate R))
        → Background m n
        → Background m (on_frame num draw format_to_parts round to_upper now u n)
    stops :
        {n : MobileMap R I} (k : ℕ) (res : StopsResponse R)
        → Background m n
        → Background m (on_stops k res n)
    no_stops : {n : MobileMap R I} (k : ℕ) → Background m n → Background m (on_stops_failed k n)
    app_state :
        {n : MobileMap R I} (active : Bool) → Background m n → Background m (on_app_state active n)

  redraw_trip-IsCalm :
      (now : ℕ) (m : MobileMap R I) → IsCalm m (redraw_trip num draw format_to_parts now m)
  unfolding redraw_trip push_trip_stops
  redraw_trip-IsCalm now m = record { gesture = ground arith; camera = ground arith }

  on_flush-IsCalm :
      (now : ℕ) (fc : List (Feature R)) (m : MobileMap R I)
      → m.gesture ≡ true
      → IsCalm m (on_flush num draw format_to_parts now fc m)
  unfolding on_flush draw_vehicles
  on_flush-IsCalm now fc m e =
      let drawn = draw_vehicles num draw format_to_parts fc m in
      let redrawn = redraw_trip num draw format_to_parts now drawn in
      let told = record redrawn { calls = on_count (length m.store.vehicles) ∷ redrawn.calls } in
      let h = redraw_trip-IsCalm now drawn in
      let k = show_live-IsCalm (vehicle_of m.props.active_id m.store) told (h.gesture ∙ e) in
      record { gesture = k.gesture ∙ h.gesture; camera = k.camera ∙ h.camera }

  timer-IsCalm :
      (now : ℕ) (m : MobileMap R I)
      → m.gesture ≡ true
      → IsCalm m (on_flush_timer num draw format_to_parts now m)
  unfolding on_flush_timer
  timer-IsCalm now m e =
      let store = flush now m.store in
      let m' = record m { store = store } in
      let h = on_flush-IsCalm now (newest store.flushed) m' e in
      if-IsCalm store.can_flush m (on_flush num draw format_to_parts now (newest store.flushed) m')
        m' (record { gesture = h.gesture; camera = h.camera })
        (record { gesture = refl; camera = refl })

  frame-IsCalm :
      (now : ℕ) (u : Option (NormalizedUpdate R)) (m : MobileMap R I)
      → IsCalm m (on_frame num draw format_to_parts round to_upper now u m)
  unfolding on_frame
  frame-IsCalm now none m = record { gesture = refl; camera = refl }
  frame-IsCalm now (some u) m = record { gesture = refl; camera = refl }

  stops-IsCalm : (k : ℕ) (res : StopsResponse R) (m : MobileMap R I) → IsCalm m (on_stops k res m)
  unfolding on_stops
  stops-IsCalm k res m =
      answer-IsCalm m.stops_request k
        (λ padded. record m {
          stops_fc = map stop_feature res.stops;
          stops_box = if res.truncated then none else some padded;
          stops_request = none;
        })
        m (λ padded. record { gesture = refl; camera = refl })

  no_stops-IsCalm : (k : ℕ) (m : MobileMap R I) → IsCalm m (on_stops_failed k m)
  unfolding on_stops_failed
  no_stops-IsCalm k m =
      answer-IsCalm m.stops_request k (λ padded. record m { stops_request = none }) m
        (λ padded. record { gesture = refl; camera = refl })

  app_state-IsCalm : (active : Bool) (m : MobileMap R I) → IsCalm m (on_app_state active m)
  unfolding on_app_state
  app_state-IsCalm active m = record { gesture = refl; camera = refl }

  Background-IsCalm : {m n : MobileMap R I} → Background m n → m.gesture ≡ true → IsCalm m n
  Background-IsCalm still e = record { gesture = refl; camera = refl }
  Background-IsCalm {m} (flushes {n} now b) e =
      let h = Background-IsCalm b e in IsCalm-trans m n _ h (timer-IsCalm now n (h.gesture ∙ e))
  Background-IsCalm {m} (receives {n} now u b) e =
      IsCalm-trans m n _ (Background-IsCalm b e) (frame-IsCalm now u n)
  Background-IsCalm {m} (stops {n} k res b) e =
      IsCalm-trans m n _ (Background-IsCalm b e) (stops-IsCalm k res n)
  Background-IsCalm {m} (no_stops {n} k b) e =
      IsCalm-trans m n _ (Background-IsCalm b e) (no_stops-IsCalm k n)
  Background-IsCalm {m} (app_state {n} active b) e =
      IsCalm-trans m n _ (Background-IsCalm b e) (app_state-IsCalm active n)

  -- What a new view leaves alone.
  load_stops-props :
      (v : ViewState R) (m : MobileMap R I)
      → ((load_stops num v m).camera ≡ m.camera)
        × ((load_stops num v m).gesture ≡ m.gesture)
        × ((load_stops num v m).props ≡ m.props)
  unfolding load_stops
  load_stops-props v m = ground arith

  resync-props :
      (v : ViewState R) (m : MobileMap R I)
      → ((resync num round v m).camera ≡ m.camera)
        × ((resync num round v m).gesture ≡ m.gesture)
        × ((resync num round v m).props ≡ m.props)
  unfolding resync tell_view
  resync-props v m =
      let told = tell_view num round v (record m { view = some v }) in
      load_stops-props v (record told {
        saved_views =
            record { lng = v.center_lon; lat = v.center_lat; zoom = v.zoom } ∷ told.saved_views;
      })

  -- Between the start of a gesture of the user and its end, whatever flushes, messages of the
  -- socket, answers about stops and changes of the app's state come in, the camera is asked for
  -- nothing; and when the gesture ends with the active vehicle known and followed, the camera is
  -- asked once, to go back to where that vehicle is by then.
  pub gesture_left_alone :
      (m : MobileMap R I) {n : MobileMap R I} (view : ViewState R) (v : Vehicle R)
      → Background (on_region_will_change true m) n
      → n.props.following ≡ true
      → vehicle_of n.props.active_id n.store ≡ some v
      → (n.camera ≡ m.camera)
        × ((on_region_did_change num round view n).camera
            ≡ ease_to v.lon v.lat 500 none n.props.bottom_inset ∷ m.camera)
        × ((on_region_did_change num round view n).gesture ≡ false)
  unfolding on_region_will_change on_region_did_change
  gesture_left_alone m {n} view v b follows known =
      let h = Background-IsCalm b refl in
      let synced = resync num round view (record n { gesture = false }) in
      let (c, g) =
        recentred (n.gesture && n.props.following) (vehicle_of n.props.active_id n.store) v synced
          (ground (arith, h.gesture, follows)) known in
      let (sc, sg, sp) = resync-props view (record n { gesture = false }) in
      (
        h.camera,
        c
            ∙ ap (λ q. ease_to v.lon v.lat 500 none q.bottom_inset ∷ synced.camera) sp
            ∙ ap (λ cs. ease_to v.lon v.lat 500 none n.props.bottom_inset ∷ cs) (sc ∙ h.camera),
        g ∙ sg,
      )
