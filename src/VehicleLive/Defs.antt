-- ===== src/VehicleLive/Defs.antt =====
-- apps/mobile/lib/live.ts (and apps/web/app/lib/live.ts, whose handler is the same): the state of
-- `useVehicleLive` for one vehicle, and its handler of frames.
use ovlive_platform.Prelude.{
  Bool, true, false, ◌&&◌, ◌||◌, Option, none, some, if◌then◌else◌, find, text_eq, Text,
}
use ovlive_platform.Types.{Vehicle, NormalizedUpdate, MoveDelta}
use ovlive_platform.Fleet.Defs.{includes}

pub record VehicleLive (R : Type 0) : Type 0 where
  pub live : Option (Vehicle R)
  pub ended : Bool

unfoldable pub new_live : {R : Type 0} → VehicleLive R
new_live = record { live = none; ended = false }

module _ {R : Type 0} where
  -- `{ ...prev, ...moved }`: every field of the delta.
  unfoldable pub merge_move : MoveDelta R → Vehicle R → Vehicle R
  merge_move m v = record v {
    id = m.id;
    lat = m.lat;
    lon = m.lon;
    bearing = m.bearing;
    speed_kmh = m.speed_kmh;
    delay = m.delay;
    delay_known = m.delay_known;
    at_stop = m.at_stop;
    current_stop_id = m.current_stop_id;
    schedule_positioned = m.schedule_positioned;
  }

  abbrev pub entered_of : Text → NormalizedUpdate R → Option (Vehicle R)
  entered_of id u = find (λ v. text_eq v.id id) u.entered

  abbrev pub moved_of : Text → NormalizedUpdate R → Option (MoveDelta R)
  moved_of id u = find (λ m. text_eq m.id id) u.moved

  unfoldable pub set_entered : Option (Vehicle R) → VehicleLive R → VehicleLive R
  set_entered none s = s
  set_entered (some v) s = record { live = some v; ended = false }

  unfoldable pub set_moved : Option (MoveDelta R) → VehicleLive R → VehicleLive R
  unfolding merge_move
  set_moved none s = s
  set_moved (some m) s = record s {
    live = elim s.live [ none ↦ none | some v ↦ some (merge_move m v) ];
  }

  abbrev pub is_none : Option (Vehicle R) → Bool
  is_none none = true
  is_none (some v) = false

  unfoldable pub on_live_update : Text → NormalizedUpdate R → VehicleLive R → VehicleLive R
  unfolding set_entered set_moved
  on_live_update id u s =
      let s' = set_moved (moved_of id u) (set_entered (entered_of id u) s) in
      if includes u.left id || (u.is_snapshot && is_none (entered_of id u))
      then record s' { ended = true }
      else s'
