-- ===== src/Types.antt =====
-- packages/api-types/src/types.ts: the types of the clients. `R` is the type of the floating-point
-- numbers (coordinates, bearings, speeds); `number | null` is an `Option`.
use ovlive_platform.Prelude.{ℕ, Bool, Option, List, Text}
use ovlive_platform.Prelude.Int.{ℤ}

pub record BBox (R : Type 0) : Type 0 where
  pub min_lat : R
  pub min_lon : R
  pub max_lat : R
  pub max_lon : R

-- A vehicle type is the number that the wire carries.
pub record FilterState : Type 0 where
  pub types : List ℕ
  pub owners : List Text
  pub search : Text

pub record Vehicle (R : Type 0) : Type 0 where
  pub id : Text
  pub dataowner : Text
  pub vehicle_number : Text
  pub line : Text
  pub type : ℕ
  pub operator : Text
  pub lat : R
  pub lon : R
  pub bearing : Option R
  pub speed_kmh : Option R
  pub delay : ℤ
  pub delay_known : Bool
  pub destination : Text
  pub block : Text
  pub journey : Text
  pub at_stop : Bool
  pub current_stop_id : Text
  pub schedule_positioned : Bool
  pub line_color : Text
  pub line_text_color : Text

pub record MoveDelta (R : Type 0) : Type 0 where
  pub id : Text
  pub lat : R
  pub lon : R
  pub bearing : Option R
  pub speed_kmh : Option R
  pub delay : ℤ
  pub delay_known : Bool
  pub at_stop : Bool
  pub current_stop_id : Text
  pub schedule_positioned : Bool

pub record NormalizedUpdate (R : Type 0) : Type 0 where
  pub entered : List (Vehicle R)
  pub moved : List (MoveDelta R)
  pub left : List Text
  pub is_snapshot : Bool

pub record TripStop (R : Type 0) : Type 0 where
  pub stop_id : Text
  pub name : Text
  pub lat : R
  pub lon : R
  pub stop_sequence : ℕ
  pub scheduled_arrival : ℤ
  pub scheduled_departure : ℤ

pub record StopSummary (R : Type 0) : Type 0 where
  pub stop_id : Text
  pub name : Text
  pub code : Option Text
  pub platform_code : Option Text
  pub parent_station : Option Text
  pub lat : R
  pub lon : R

pub record StopDeparture (R : Type 0) : Type 0 where
  pub trip_id : Text
  pub realtime_trip_id : Option Text
  pub vehicle_id : Option Text
  pub vehicle_lat : Option R
  pub vehicle_lon : Option R
  pub line : Text
  pub vehicle_type : Text
  pub operator : Option Text
  pub headsign : Text
  pub stop_sequence : ℕ
  pub scheduled_arrival : ℤ
  pub scheduled_departure : ℤ
  pub expected_departure : ℤ
  pub delay_seconds : Option ℤ
  pub at_stop : Bool
  pub line_color : Option Text
  pub line_text_color : Option Text

pub record VehicleSummary (R : Type 0) : Type 0 where
  pub id : Text
  pub dataowner : Text
  pub vehicle_number : Text
  pub line_public_number : Option Text
  pub line_planning_number : Option Text
  pub vehicle_type : Text
  pub operator_name : Option Text
  pub lat : R
  pub lon : R
  pub bearing : Option R
  pub speed_kmh : Option R
  pub delay_seconds : ℤ
  pub delay_known : Bool
  pub destination : Option Text
  pub block_code : Option Text
  pub journey_number : Option Text
  pub at_stop : Bool
  pub current_stop_id : Option Text
  pub schedule_positioned : Bool
  pub line_color : Option Text
  pub line_text_color : Option Text
  pub last_update : Text

pub record VehicleDetail (R : Type 0) : Type 0 where
  pub vehicle : VehicleSummary R
  pub trip_id : Option Text

pub record VehicleTripPlan (R : Type 0) : Type 0 where
  pub trip_id : Option Text
  pub route_shape : List (R × R)
  pub stops : List (TripStop R)
