-- ===== src/MobileMap/Flush.antt =====
-- apps/mobile/components/map/LiveMap.tsx: what a flush of the store draws.
use ovlive_platform.Numbers.{Numbers}
use ovlive_platform.Fleet.Defs.{VehicleStore, Feature, flush, includes}
use ovlive_platform.Trip.Defs.{StopFeature, upcoming_from_index, trip_stop_features}
use ovlive_platform.Types.{Vehicle}
use ovlive_platform.Rest.Defs.{MarkerKey, marker_key}
use ovlive_platform.MobileMap.Images.{Images, Drawn, drawn, ensure}
use ovlive_platform.MobileMap.Baked.{has, IsKey, marker_key-IsKey, ensure-All}
use ovlive_platform.MobileMap.Defs.{
  MapProps, progress_of, MobileMap, keys_of, draw_vehicles, redraw_trip, push_trip_stops, show_live,
  on_flush, on_flush_timer, current_upcoming_from, newest, differs, on_count, vehicle_of, center_on,
}
use ovlive_platform.Prelude.{
  ℕ, inl, inr, map, ◌≡◌, refl, sym, subst, ◌∙◌, ap, Bool, true, false, Option, none, some, List, [],
  ◌∷◌, arith, All, length, Bool-cases, if◌then◌else◌, Text, not, ◌||◌,
}

if-All :
    {A : Type 0} (P : A → Type 0) (b : Bool) (x : A) (xs : List A)
    → P x
    → All P xs
    → All P (if b then x ∷ xs else xs)
if-All P true x xs h hs = (h, hs)
if-All P false x xs h hs = hs

if-true : {A : Type 0} (b : Bool) (x y : A) → b ≡ true → (if b then x else y) ≡ x
if-true true x y e = refl
if-true false x y e = absurd (ground arith)

if-false : {A : Type 0} (b : Bool) (x y : A) → b ≡ false → (if b then x else y) ≡ y
if-false true x y e = absurd (ground arith)
if-false false x y e = refl

-- The index that was drawn is the current one.
differs_not : (o : Option ℕ) (i j : ℕ) → o ≡ some i → differs o j ≡ false → i ≡ j
differs_not o i j e d = ground (arith, e, d)

keys_of-IsKey :
    {R : Type 0} (dark : Bool) (ids : List Text) (fc : List (Feature R))
    → All IsKey (keys_of dark ids fc)
unfolding keys_of
keys_of-IsKey dark ids [] = tt
keys_of-IsKey dark ids (f ∷ fs) = (
  marker_key-IsKey f.owner f.line dark false,
  if-All IsKey (includes ids f.id) (marker_key f.owner f.line dark true) (keys_of dark ids fs)
      (marker_key-IsKey f.owner f.line dark true) (keys_of-IsKey dark ids fs),
)

ring_of :
    {I : Type 0} (keys : List (Text × I)) (b : Bool) (k : Text) (rest : List Text)
    → All (λ x. has x keys ≡ true) (if b then k ∷ rest else rest)
    → ((not b || has k keys) ≡ true) × All (λ x. has x keys ≡ true) rest
ring_of keys true k rest (h, hs) = (h, hs)
ring_of keys false k rest hs = (refl, hs)

module _ {R I : Type 0} where
  show_live-images :
      (o : Option (Vehicle R)) (m : MobileMap R I)
      → ((show_live o m).images ≡ m.images)
        × ((show_live o m).vehicles_fc ≡ m.vehicles_fc)
        × ((show_live o m).trip_stops_fc ≡ m.trip_stops_fc)
        × ((show_live o m).props ≡ m.props)
        × ((show_live o m).store ≡ m.store)
  unfolding show_live center_on
  show_live-images none m = (refl, refl, refl, refl, refl)
  show_live-images (some v) m = ground arith

module _ {I : Type 0} (num : Numbers) (draw : MarkerKey → Drawn I)
    (format_to_parts : ℕ → List (Text × Text)) where
  open num use {R}

  -- The flush, where the store has one.
  flushed :
      (now : ℕ) (m : MobileMap R I)
      → m.store.can_flush ≡ true
      → on_flush_timer num draw format_to_parts now m
        ≡ on_flush num draw format_to_parts now
            (newest (flush now m.store).flushed)
            (record m { store = flush now m.store })
  unfolding on_flush_timer on_flush flush
  flushed now m e = if-true m.store.can_flush _ _ e

  redraw_trip-images :
      (now : ℕ) (m : MobileMap R I)
      → let r = redraw_trip num draw format_to_parts now m in
        (r.images ≡ m.images)
        × (r.vehicles_fc ≡ m.vehicles_fc)
        × (r.props ≡ m.props)
        × (r.store ≡ m.store)
        × (r.gesture ≡ m.gesture)
        × (r.camera ≡ m.camera)
  unfolding redraw_trip push_trip_stops
  redraw_trip-images now m = ground arith

  -- What a flush draws.
  on_flush-draws :
      (now : ℕ) (fc : List (Feature R)) (m : MobileMap R I)
      → let r = on_flush num draw format_to_parts now fc m in
        (r.props ≡ m.props)
        × (r.vehicles_fc ≡ fc)
        × (r.store ≡ m.store)
        × (r.images ≡ ensure draw (keys_of m.props.dark m.props.selected_ids fc) m.images)
        × (r.trip_stops_fc
            ≡ (redraw_trip num draw format_to_parts now
                (draw_vehicles num draw format_to_parts fc m)).trip_stops_fc)
  unfolding on_flush draw_vehicles
  on_flush-draws now fc m =
      let drawn = draw_vehicles num draw format_to_parts fc m in
      let redrawn = redraw_trip num draw format_to_parts now drawn in
      let told = record redrawn { calls = on_count (length m.store.vehicles) ∷ redrawn.calls } in
      let (i, v, t, p, s) = show_live-images (vehicle_of m.props.active_id m.store) told in
      let (i', v', p', s', _, _) = redraw_trip-images now drawn in
      (p ∙ p', v ∙ v', s ∙ s', i ∙ i', t)

  -- The stops of the trip are drawn as the last push left them.
  redraw_trip-stops :
      (now i : ℕ) (m : MobileMap R I)
      → m.upcoming_from ≡ some i
      → m.trip_stops_fc ≡ trip_stop_features m.props.trip_stops i
      → (redraw_trip num draw format_to_parts now m).trip_stops_fc
        ≡ trip_stop_features m.props.trip_stops
            (current_upcoming_from num draw format_to_parts now m)
  unfolding redraw_trip push_trip_stops
  redraw_trip-stops now i m e t =
      let j = current_upcoming_from num draw format_to_parts now m in
      let fc = λ (n : MobileMap R I). n.trip_stops_fc in
      elim (Bool-cases (differs m.upcoming_from j)) [
        | inl d ↦ ap fc (if-true (differs m.upcoming_from j) _ m d)
        | inr d ↦
            ap fc (if-false (differs m.upcoming_from j) _ m d)
            ∙ t
            ∙ ap (trip_stop_features m.props.trip_stops) (differs_not m.upcoming_from i j e d)
      ]

  drawn-stops :
      (now i : ℕ) (fc : List (Feature R)) (m : MobileMap R I)
      → m.upcoming_from ≡ some i
      → m.trip_stops_fc ≡ trip_stop_features m.props.trip_stops i
      → let d = draw_vehicles num draw format_to_parts fc m in
        (redraw_trip num draw format_to_parts now d).trip_stops_fc
        ≡ trip_stop_features m.props.trip_stops (
            upcoming_from_index num format_to_parts m.props.trip_stops
              (progress_of (vehicle_of m.props.active_id m.store))
              now)
  unfolding draw_vehicles current_upcoming_from
  drawn-stops now i fc m e t =
      redraw_trip-stops now i (draw_vehicles num draw format_to_parts fc m) e t

  -- The stops of the trip, as the position of the active vehicle has them.
  abbrev stops_of : ℕ → MapProps R → VehicleStore R → List (StopFeature R)
  stops_of now p s = trip_stop_features p.trip_stops (
      upcoming_from_index num format_to_parts p.trip_stops (progress_of (vehicle_of p.active_id s))
        now)

  -- A vehicle's pill is among the images, and where the vehicle is selected, its ring too.
  abbrev pub IsBaked : MapProps R → Images I → Feature R → Type 0
  IsBaked p im f =
      (has (marker_key f.owner f.line p.dark false) im.have ≡ true)
      × ((not (includes p.selected_ids f.id) || has (marker_key f.owner f.line p.dark true) im.have)
          ≡ true)

  abbrev pub AllBaked : MapProps R → List (Feature R) → Images I → Type 0
  AllBaked p fc im = All (IsBaked p im) fc

  -- The keys are enough.
  keys_of-AllBaked :
      (p : MapProps R) (im : Images I) (fc : List (Feature R))
      → All (λ k. has k im.have ≡ true) (keys_of p.dark p.selected_ids fc)
      → AllBaked p fc im
  unfolding keys_of
  keys_of-AllBaked p im [] h = tt
  keys_of-AllBaked p im (f ∷ fs) (h, hs) =
      let (ring, rest) =
        ring_of im.have (includes p.selected_ids f.id) (marker_key f.owner f.line p.dark true)
          (keys_of p.dark p.selected_ids fs) hs in
      ((h, ring), keys_of-AllBaked p im fs rest)

  drawn_as :
      (now : ℕ) (r : MobileMap R I) {p : MapProps R} {s : VehicleStore R} {fc : List (Feature R)}
      {im : Images I} {ts : List (StopFeature R)}
      → (r.props ≡ p)
        × (r.vehicles_fc ≡ fc)
        × (r.store ≡ s)
        × (r.images ≡ im)
        × (r.trip_stops_fc ≡ ts)
      → fc ≡ map (λ e. e.1) s.features
      → AllBaked p fc im
      → ts ≡ stops_of now p s
      → (r.vehicles_fc ≡ map (λ e. e.1) r.store.features)
        × AllBaked r.props r.vehicles_fc r.images
        × (r.trip_stops_fc ≡ stops_of now r.props r.store)
  drawn_as now r {p} {s} {fc} (ep, ev, es, ei, et) hv hi ht = (
    ev ∙ hv ∙ ap (λ (t : VehicleStore R). map (λ e. e.1) t.features) (sym es),
    subst (λ q. AllBaked q r.vehicles_fc r.images) (sym ep)
        (subst (λ g. AllBaked p g r.images) (sym ev) (subst (AllBaked p fc) (sym ei) hi)),
    et ∙ ht ∙ ap (stops_of now p) (sym es) ∙ ap (λ q. stops_of now q r.store) (sym ep),
  )

  -- When the flush timer of the mobile map fires while the map is mounted, and every marker can be
  -- drawn, the vehicles shown are those of the store, each has its pill among the images, and each
  -- selected one its ring; and where the stops of the trip were drawn from some index, they are now
  -- drawn from the index that the active vehicle's position gives.
  pub flush_draws :
      (now i : ℕ) (m : MobileMap R I)
      → ((p : MarkerKey) → (x : I) × (draw p ≡ drawn x))
      → m.store.can_flush ≡ true
      → m.upcoming_from ≡ some i
      → m.trip_stops_fc ≡ trip_stop_features m.props.trip_stops i
      → let r = on_flush_timer num draw format_to_parts now m in
        (r.vehicles_fc ≡ map (λ e. e.1) r.store.features)
        × AllBaked r.props r.vehicles_fc r.images
        × (r.trip_stops_fc
            ≡ trip_stop_features r.props.trip_stops (
                upcoming_from_index num format_to_parts r.props.trip_stops
                  (progress_of (vehicle_of r.props.active_id r.store))
                  now))
  unfolding flush
  flush_draws now i m works can e t =
      let s = flush now m.store in
      let fc = newest s.flushed in
      let n = record m { store = s } in
      drawn_as now (on_flush_timer num draw format_to_parts now m)
        (subst
          (λ r.
            (r.props ≡ m.props)
            × (r.vehicles_fc ≡ fc)
            × (r.store ≡ s)
            × (r.images ≡ ensure draw (keys_of m.props.dark m.props.selected_ids fc) m.images)
            × (r.trip_stops_fc
                ≡ (redraw_trip num draw format_to_parts now
                    (draw_vehicles num draw format_to_parts fc n)).trip_stops_fc))
          (sym (flushed now m can)) (on_flush-draws now fc n))
        (ap newest (if-true m.store.can_flush _ _ can))
        (keys_of-AllBaked m.props
          (ensure draw (keys_of m.props.dark m.props.selected_ids fc) m.images) fc
          (ensure-All draw works (keys_of m.props.dark m.props.selected_ids fc) m.images
            (keys_of-IsKey m.props.dark m.props.selected_ids fc)))
        (drawn-stops now i fc n e t)
