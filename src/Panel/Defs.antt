-- ===== src/Panel/Defs.antt =====
-- packages/shared/src/vehicle-view.ts: `vehicleView`. The numbers, the Dutch clock, the upper-casing
-- and the translation `t` are parameters; a missing value is `none`.
use ovlive_platform.Prelude.{
  ℕ, Bool, false, ◌&&◌, Option, none, some, List, [], ◌∷◌, ◌==◌, if◌then◌else◌, drop, get_elem?,
  codes, is_empty, Text,
}
use ovlive_platform.Prelude.Int.{pos, ℤ}
use ovlive_platform.Types.{VehicleSummary, VehicleTripPlan, VehicleDetail, TripStop, Vehicle}
use ovlive_platform.Numbers.{Numbers}
use ovlive_platform.Geo.{distance_meters}
use ovlive_platform.Trip.Defs.{upcoming_from_index, VehicleProgress}
use ovlive_platform.Schedule.Defs.{
  early, ontime, unknown, DelayLabel, DelayKind, late, format_delay,
}
use ovlive_platform.Operator.Defs.{Operator, resolve_operator, type_key_of, brand}

pub record VehicleView (R : Type 0) : Type 0 where
  pub id : Text
  pub ended : Bool
  pub op : Operator
  pub badge_bg : Text
  pub badge_fg : Text
  pub line : Text
  pub destination : Text
  pub type_text : Text
  pub delay_kind : DelayKind
  pub delay_text : Text
  pub delay : ℤ
  pub speed_kmh : Option R
  pub operator_name : Text
  pub vehicle_number : Text
  pub block_code : Text
  pub journey_number : Text
  pub last_update : Option Text
  pub lat : Option R
  pub lon : Option R
  pub at_stop : Bool
  pub stops : List (TripStop R)
  pub upcoming_from : ℕ

pub record ViewInput (R : Type 0) : Type 0 where
  pub id : Text
  pub basic : Option (Vehicle R)
  pub detail : Option (VehicleDetail R)
  pub trip : Option (VehicleTripPlan R)
  pub ended : Bool
  pub now : ℕ

-- `o?.f`, for a field that is there and for one that may be null.
abbrev pub field : {A B : Type 0} → (A → B) → Option A → Option B
field f none = none
field f (some a) = some (f a)

abbrev pub field_of : {A B : Type 0} → (A → Option B) → Option A → Option B
field_of f none = none
field_of f (some a) = f a

-- `a ?? b` where `b` may be null too, and where it is a value.
abbrev pub or_else : {A : Type 0} → Option A → Option A → Option A
or_else none b = b
or_else (some a) b = some a

abbrev pub or_value : {A : Type 0} → Option A → A → A
or_value none b = b
or_value (some a) b = a

-- `s.split(":")[0]`.
unfoldable pub before_colon : Text → Text
before_colon [] = []
before_colon (c ∷ s) = if c == b':' then [] else c ∷ before_colon s

-- The colour of a badge: `c ? "#" + c : brand`.
unfoldable pub badge_colour : Option Text → Text → Text
badge_colour none brand = brand
badge_colour (some c) brand = if is_empty c then brand else b'#' ∷ c

abbrev pub type_keys : List Text
type_keys =
    codes "type.vehicle"
    ∷ codes "type.bus"
    ∷ codes "type.tram"
    ∷ codes "type.metro"
    ∷ codes "type.train"
    ∷ codes "type.ferry"
    ∷ []

-- The key of a vehicle's type: the frame's number, unless it is 0 or there is no frame.
unfoldable pub type_key : Option ℕ → Option Text → Text
type_key none vehicle_type = type_key_of (or_value vehicle_type [])
type_key (some n) vehicle_type =
    if n == 0
    then type_key_of (or_value vehicle_type [])
    else or_value (get_elem? type_keys n) (codes "type.vehicle")

unfoldable pub delay_text : (Text → Text) → DelayLabel → Text
delay_text t d = elim d.kind [
  | late ↦ d.text
  | early ↦ d.text
  | ontime ↦ t (codes "delay.onTime")
  | unknown ↦ t (codes "delay.unknown")
]

module _ {R : Type 0} where
  unfoldable pub stops_from : Option (VehicleTripPlan R) → ℕ → List (TripStop R)
  stops_from none from = []
  stops_from (some trip) from = drop from trip.stops

  -- What the frame and the detail say of the vehicle's progress; the frame is preferred.
  unfoldable pub progress_of : Option (Vehicle R) → Option (VehicleSummary R) → VehicleProgress R
  progress_of basic v = record {
    lat = or_else (field (λ b. b.lat) basic) (field (λ s. s.lat) v);
    lon = or_else (field (λ b. b.lon) basic) (field (λ s. s.lon) v);
    at_stop = or_value (field (λ b. b.at_stop) basic) (or_value (field (λ s. s.at_stop) v) false);
    delay =
        or_value (field (λ b. b.delay) basic) (or_value (field (λ s. s.delay_seconds) v) (pos 0));
  }

  -- The detail that counts: none once the watched trip has ended.
  unfoldable pub detail_of : ViewInput R → Option (VehicleSummary R)
  detail_of i = if i.ended then none else field (λ d. d.vehicle) i.detail

module _ (num : Numbers) where
  open num use {R, literal, at_most}

  -- `AT_STOP_RADIUS_M`.
  abbrev pub at_stop_radius_m : R
  at_stop_radius_m = literal 150

  unfoldable pub near_stop : Option R → Option R → List (TripStop R) → Bool
  near_stop (some lat) (some lon) (s ∷ _) =
      at_most (distance_meters num lat lon s.lat s.lon) at_stop_radius_m
  near_stop _ _ _ = false

  module _ (format_to_parts : ℕ → List (Text × Text)) where
    unfoldable pub upcoming_of : Option (VehicleTripPlan R) → VehicleProgress R → ℕ → ℕ
    upcoming_of none veh now = 0
    upcoming_of (some trip) veh now = upcoming_from_index num format_to_parts trip.stops veh now

    module _ (to_upper t : Text → Text) where
      unfoldable pub vehicle_view : ViewInput R → VehicleView R
      unfolding detail_of progress_of upcoming_of stops_from near_stop
      vehicle_view i =
          let v = detail_of i in
          let dataowner =
            or_value (field (λ s. s.dataowner) v)
              (or_value (field (λ b. b.dataowner) i.basic) (before_colon i.id)) in
          let op =
            resolve_operator to_upper dataowner
              (or_else (field_of (λ s. s.operator_name) v) (field (λ b. b.operator) i.basic)) in
          let line_color =
            or_else (field_of (λ s. s.line_color) v) (field (λ b. b.line_color) i.basic) in
          let line_text_color =
            or_else (field_of (λ s. s.line_text_color) v)
              (field (λ b. b.line_text_color) i.basic) in
          let progress = progress_of i.basic v in
          let delay_known =
            or_value (field (λ b. b.delay_known) i.basic)
              (or_value (field (λ s. s.delay_known) v) false) in
          let d = format_delay progress.delay delay_known in
          let upcoming_from = upcoming_of i.trip progress i.now in
          let stops = stops_from i.trip upcoming_from in
          record {
            id = i.id;
            ended = i.ended;
            op = op;
            badge_bg = badge_colour line_color op.style.bg;
            badge_fg = badge_colour line_text_color op.style.fg;
            line =
                or_value
                  (or_else (field_of (λ s. s.line_public_number) v) (field (λ b. b.line) i.basic))
                  (codes "?");
            destination =
                or_value
                  (or_else (field_of (λ s. s.destination) v) (field (λ b. b.destination) i.basic))
                  (0x2014 ∷ []);
            type_text = t (type_key (field (λ b. b.type) i.basic) (field (λ s. s.vehicle_type) v));
            delay_kind = d.kind;
            delay_text = delay_text t d;
            delay = progress.delay;
            speed_kmh =
                or_else (field_of (λ b. b.speed_kmh) i.basic) (field_of (λ s. s.speed_kmh) v);
            operator_name =
                or_value
                  (or_else (field_of (λ s. s.operator_name) v) (field (λ b. b.operator) i.basic))
                  [];
            vehicle_number =
                or_value
                  (or_else (field (λ s. s.vehicle_number) v)
                    (field (λ b. b.vehicle_number) i.basic))
                  [];
            block_code =
                or_value (or_else (field_of (λ s. s.block_code) v) (field (λ b. b.block) i.basic))
                  [];
            journey_number =
                or_value
                  (or_else (field_of (λ s. s.journey_number) v) (field (λ b. b.journey) i.basic))
                  [];
            last_update = field (λ s. s.last_update) v;
            lat = progress.lat;
            lon = progress.lon;
            at_stop = progress.at_stop && near_stop progress.lat progress.lon stops;
            stops = stops;
            upcoming_from = upcoming_from;
          }
