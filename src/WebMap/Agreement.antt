-- ===== src/WebMap/Agreement.antt =====
-- The web map beside the mobile app on the same frames.
use ovlive_platform.Prelude.Dict
use ovlive_platform.Prelude.{
  ◌≡◌, refl, ap, ◌∙◌, inl, inr, Bool, true, false, List, [], ◌∷◌, arith, Option-cases, Text, ℕ,
  if◌then◌else◌,
}
use ovlive_platform.Prelude.Dict.{erase, insert, lookup}
use ovlive_platform.Types.{MoveDelta, Vehicle, NormalizedUpdate}
use ovlive_platform.Fleet.Defs.{
  reconcile, change, leave, clear, vehicle_feature, assign_move, enter, move, Feature, leave_all,
  move_all, move_feature, VehicleStore, enter_all, schedule_flush, apply, apply_frame,
}
use ovlive_platform.WebMap.Defs.{
  move_marker, clear_refs, marker_of, Marker, leave_refs, leave_ref, move_ref, enter_ref,
  map_values, reconcile_refs, WebMap, move_refs, enter_refs, schedule_frame, on_update,
}
use ovlive_platform.Fleet.Contents.{map_option}

-- What a marker of the web shares with a feature of the mobile app.
abbrev pub plain : {R : Type 0} → Marker R → Feature R
plain f = record {
  lon = f.lon;
  lat = f.lat;
  id = f.id;
  line = f.line;
  owner = f.owner;
  type = f.type;
}

pub lookup-map_values :
    {V W : Type 0} (f : V → W) (k : Text) (m : List (Text × V))
    → Dict.lookup k (map_values f m) ≡ map_option f (Dict.lookup k m)
unfolding Dict.lookup
lookup-map_values f k [] = refl
lookup-map_values f k ((j, v) ∷ m) = ground (arith, lookup-map_values f k m)

insert-map_values :
    {V W : Type 0} (f : V → W) (k : Text) (v : V) (m : List (Text × V))
    → map_values f (Dict.insert k v m) ≡ Dict.insert k (f v) (map_values f m)
unfolding Dict.insert
insert-map_values f k v [] = refl
insert-map_values f k v ((j, w) ∷ m) = ground (arith, insert-map_values f k v m)

erase-map_values :
    {V W : Type 0} (f : V → W) (k : Text) (m : List (Text × V))
    → map_values f (Dict.erase k m) ≡ Dict.erase k (map_values f m)
unfolding Dict.erase
erase-map_values f k [] = refl
erase-map_values f k ((j, w) ∷ m) = ground (arith, erase-map_values f k m)

change-map_values :
    {V W : Type 0} (f : V → W) (g : V → V) (h : W → W) (k : Text) (m : List (Text × V))
    → ((v : V) → f (g v) ≡ h (f v))
    → map_values f (change k g m) ≡ change k h (map_values f m)
unfolding change
change-map_values f g h k m e = elim (Option-cases (Dict.lookup k m)) [
  | inl out ↦ rw (lookup-map_values f k m, out, change) refl
  | inr (v, found) ↦
      rw (lookup-map_values f k m, found, change, insert-map_values f k (g v) m, e v) refl
]

module _ {R : Type 0} where
  -- The two clients hold the same vehicles, draw the same points and have reported the same.
  pub record Agrees (w : WebMap R) (s : VehicleStore R) : Type 0 where
    pub vehicles : w.vehicles ≡ s.vehicles
    pub features : map_values plain w.features ≡ s.features
    pub selected : w.selected_ids ≡ s.selected_ids
    pub events : w.events ≡ s.events

  clear-Agrees :
      (b : Bool) (w : WebMap R) (s : VehicleStore R)
      → Agrees w s
      → Agrees (clear_refs b w) (clear b s)
  unfolding clear_refs clear
  clear-Agrees true w s h = record {
    vehicles = refl;
    features = refl;
    selected = h.selected;
    events = h.events;
  }
  clear-Agrees false w s h = h

  leave-Agrees :
      (id : Text) (w : WebMap R) (s : VehicleStore R)
      → Agrees w s
      → Agrees (leave_ref id w) (leave id s)
  unfolding leave_ref leave
  leave-Agrees id w s h = record {
    vehicles = ground (arith, h.vehicles, h.selected);
    features =
        ground (arith, h.features, h.selected, erase-map_values (plain {R = R}) id w.features);
    selected = ground (arith, h.selected);
    events = ground (arith, h.events, h.selected);
  }

  leaves-Agree :
      (ids : List Text) (w : WebMap R) (s : VehicleStore R)
      → Agrees w s
      → Agrees (leave_refs ids w) (leave_all ids s)
  unfolding leave_refs leave_all
  leaves-Agree [] w s h = h
  leaves-Agree (id ∷ ids) w s h =
      leaves-Agree ids (leave_ref id w) (leave id s) (leave-Agrees id w s h)

  reconcile-Agrees :
      (ids : List Text) (w : WebMap R) (s : VehicleStore R)
      → Agrees w s
      → Agrees (reconcile_refs ids w) (reconcile ids s)
  unfolding reconcile_refs reconcile
  reconcile-Agrees [] w s h = h
  reconcile-Agrees (id ∷ ids) w s h = reconcile-Agrees ids _ _ (record {
    vehicles = ground (arith, h.vehicles);
    features = ground (arith, h.features, h.vehicles);
    selected = ground (arith, h.selected, h.vehicles);
    events = ground (arith, h.events, h.vehicles);
  })

  module _ (zero_bearing : R) where
    move-Agrees :
        (m : MoveDelta R) (w : WebMap R) (s : VehicleStore R)
        → Agrees w s
        → Agrees (move_ref zero_bearing m w) (move m s)
    unfolding move_ref move
    move-Agrees m w s h = record {
      vehicles = ap (change m.id (assign_move m)) h.vehicles;
      features =
          change-map_values plain (move_marker zero_bearing m) (move_feature m) m.id w.features
            (λ f. refl)
          ∙ ap (change m.id (move_feature m)) h.features;
      selected = h.selected;
      events = h.events;
    }

    moves-Agree :
        (ms : List (MoveDelta R)) (w : WebMap R) (s : VehicleStore R)
        → Agrees w s
        → Agrees (move_refs zero_bearing ms w) (move_all ms s)
    unfolding move_refs move_all
    moves-Agree [] w s h = h
    moves-Agree (m ∷ ms) w s h =
        moves-Agree ms (move_ref zero_bearing m w) (move m s) (move-Agrees m w s h)

    module _ (to_upper : Text → Text) where
      enter-Agrees :
          (v : Vehicle R) (w : WebMap R) (s : VehicleStore R)
          → Agrees w s
          → Agrees (enter_ref to_upper zero_bearing v w) (enter to_upper v s)
      unfolding enter_ref enter marker_of vehicle_feature
      enter-Agrees v w s h = record {
        vehicles = ground (arith, h.vehicles, h.selected);
        features = ground (
          arith,
          h.features,
          h.selected,
          insert-map_values (plain {R = R}) v.id (marker_of to_upper zero_bearing w.dark v)
              w.features,
        );
        selected = ground (arith, h.selected);
        events = ground (arith, h.events, h.selected);
      }

      enters-Agree :
          (vs : List (Vehicle R)) (w : WebMap R) (s : VehicleStore R)
          → Agrees w s
          → Agrees (enter_refs to_upper zero_bearing vs w) (enter_all to_upper vs s)
      unfolding enter_refs enter_all
      enters-Agree [] w s h = h
      enters-Agree (v ∷ vs) w s h =
          enters-Agree vs (enter_ref to_upper zero_bearing v w) (enter to_upper v s)
            (enter-Agrees v w s h)

      settle-Agrees :
          (b : Bool) (now : ℕ) (w : WebMap R) (s : VehicleStore R)
          → Agrees w s
          → Agrees
              (schedule_frame (if b then reconcile_refs w.selected_ids w else w))
              (schedule_flush now (if b then reconcile s.selected_ids s else s))
      unfolding schedule_frame schedule_flush
      settle-Agrees true now w s h =
          let r = reconcile-Agrees s.selected_ids w s h in
          record {
            vehicles = ground (arith, r.vehicles, h.selected);
            features = ground (arith, r.features, h.selected);
            selected = ground (arith, r.selected, h.selected);
            events = ground (arith, r.events, h.selected);
          }
      settle-Agrees false now w s h = record {
        vehicles = ground (arith, h.vehicles);
        features = ground (arith, h.features);
        selected = ground (arith, h.selected);
        events = ground (arith, h.events);
      }

      on_update-Agrees :
          (now : ℕ) (u : NormalizedUpdate R) (w : WebMap R) (s : VehicleStore R)
          → Agrees w s
          → Agrees (on_update to_upper zero_bearing u w) (apply to_upper now u s)
      unfolding on_update apply apply_frame
      on_update-Agrees now u w s h = settle-Agrees u.is_snapshot now _ _ (
          leaves-Agree u.left _ _ (
            moves-Agree u.moved _ _
              (enters-Agree u.entered _ _ (clear-Agrees u.is_snapshot w s h))))

      -- The two clients after the same frames; the mobile one gets each at a time of its clock.
      abbrev pub web_run : List (ℕ × NormalizedUpdate R) → WebMap R → WebMap R
      web_run [] w = w
      web_run ((now, u) ∷ us) w = web_run us (on_update to_upper zero_bearing u w)

      abbrev pub mobile_run : List (ℕ × NormalizedUpdate R) → VehicleStore R → VehicleStore R
      mobile_run [] s = s
      mobile_run ((now, u) ∷ us) s = mobile_run us (apply to_upper now u s)

      -- If the web map and the mobile app agree, they agree after any sequence of frames: they
      -- hold the same vehicles in the same order, draw the same points with the same properties,
      -- and have reported the same vehicles gone and back, in the same order.
      pub frames_agree :
          (us : List (ℕ × NormalizedUpdate R)) (w : WebMap R) (s : VehicleStore R)
          → Agrees w s
          → Agrees (web_run us w) (mobile_run us s)
      frames_agree [] w s h = h
      frames_agree ((now, u) ∷ us) w s h =
          frames_agree us (on_update to_upper zero_bearing u w) (apply to_upper now u s)
            (on_update-Agrees now u w s h)
