-- ===== src/Wire/Defs.antt =====
-- packages/api-types/src/ws.ts: `toVehicle`, `toMove` and the update of `onmessage`. A field of a
-- decoded message that may be missing is an `Option`; decoding itself is the codec's.
use ovlive_platform.Prelude.{ℕ, Bool, false, Option, none, some, List, [], map, if◌then◌else◌, Text}
use ovlive_platform.Prelude.Int.{ℤ, pos}
use ovlive_platform.Types.{NormalizedUpdate, MoveDelta, Vehicle}
use ovlive_platform.Numbers.{Numbers}

-- The fields that a full state and a delta share.
pub record WireProgress (R : Type 0) : Type 0 where
  pub id : Text
  pub lat : R
  pub lon : R
  pub bearing : Option R
  pub speed_known : Option Bool
  pub speed_kmh : Option R
  pub delay_seconds : Option ℤ
  pub delay_known : Option Bool
  pub at_stop : Option Bool
  pub current_stop_id : Option Text
  pub schedule_positioned : Option Bool

pub record WireVehicle (R : Type 0) : Type 0 where
  pub progress : WireProgress R
  pub dataowner : Text
  pub vehicle_number : Text
  pub line_public_number : Option Text
  pub vehicle_type : Option ℕ
  pub operator_name : Option Text
  pub destination : Option Text
  pub block_code : Option Text
  pub journey_number : Option Text
  pub line_color : Option Text
  pub line_text_color : Option Text

pub record WireUpdate (R : Type 0) : Type 0 where
  pub entered : Option (List (WireVehicle R))
  pub moved : Option (List (WireProgress R))
  pub left : Option (List Text)
  pub is_snapshot : Option Bool

-- `o ?? a`; for texts, flags and integers `o || a` with the falsy value as `a` is the same.
abbrev pub or_default : {A : Type 0} → A → Option A → A
or_default a none = a
or_default a (some b) = b

module _ (num : Numbers) where
  open num use {R, literal, at_most, is_finite}

  -- `Number.isFinite(x) ? x : null`.
  unfoldable pub finite_or_null : Option R → Option R
  finite_or_null none = none
  finite_or_null (some x) = if is_finite x then some x else none

  -- `x || 0`: a missing value and one that is not a number are 0.
  unfoldable pub or_zero : Option R → R
  or_zero none = literal 0
  or_zero (some x) = if at_most x x then x else literal 0

  -- `m.speed_known ? m.speed_kmh || 0 : null`.
  unfoldable pub speed_of : Option Bool → Option R → Option R
  unfolding or_zero
  speed_of known speed = if or_default false known then some (or_zero speed) else none

  unfoldable pub to_vehicle : WireVehicle R → Vehicle R
  unfolding finite_or_null speed_of
  to_vehicle s = record {
    id = s.progress.id;
    dataowner = s.dataowner;
    vehicle_number = s.vehicle_number;
    line = or_default [] s.line_public_number;
    type = or_default 0 s.vehicle_type;
    operator = or_default [] s.operator_name;
    lat = s.progress.lat;
    lon = s.progress.lon;
    bearing = finite_or_null s.progress.bearing;
    speed_kmh = speed_of s.progress.speed_known s.progress.speed_kmh;
    delay = or_default (pos 0) s.progress.delay_seconds;
    delay_known = or_default false s.progress.delay_known;
    destination = or_default [] s.destination;
    block = or_default [] s.block_code;
    journey = or_default [] s.journey_number;
    at_stop = or_default false s.progress.at_stop;
    current_stop_id = or_default [] s.progress.current_stop_id;
    schedule_positioned = or_default false s.progress.schedule_positioned;
    line_color = or_default [] s.line_color;
    line_text_color = or_default [] s.line_text_color;
  }

  unfoldable pub to_move : WireProgress R → MoveDelta R
  unfolding finite_or_null speed_of
  to_move m = record {
    id = m.id;
    lat = m.lat;
    lon = m.lon;
    bearing = finite_or_null m.bearing;
    speed_kmh = speed_of m.speed_known m.speed_kmh;
    delay = or_default (pos 0) m.delay_seconds;
    delay_known = or_default false m.delay_known;
    at_stop = or_default false m.at_stop;
    current_stop_id = or_default [] m.current_stop_id;
    schedule_positioned = or_default false m.schedule_positioned;
  }

  -- The argument of `onUpdate`.
  unfoldable pub to_update : WireUpdate R → NormalizedUpdate R
  to_update u = record {
    entered = map to_vehicle (or_default [] u.entered);
    moved = map to_move (or_default [] u.moved);
    left = or_default [] u.left;
    is_snapshot = or_default false u.is_snapshot;
  }
