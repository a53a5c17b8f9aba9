-- ===== src/Trip/Defs.antt =====
-- packages/shared/src/trip.ts. The numbers of the coordinates and the parts of the Dutch clock
-- (`Intl.DateTimeFormat`) are parameters.
use ovlive_platform.Numbers.{Numbers}
use ovlive_platform.Types.{TripStop}
use ovlive_platform.Geo.{distance_meters}
use ovlive_platform.Schedule.Defs.{eta_seconds}
use ovlive_platform.Operator.Defs.{skip_space}
use ovlive_platform.Prelude.{
  ℕ, suc, ◌+◌, Bool, true, ◌&&◌, ◌||◌, not, Option, none, some, List, [], ◌∷◌, ◌==◌, if◌then◌else◌,
  leb, get_elem?, Text, to_string,
}
use ovlive_platform.Prelude.Int.{◌+ℤ◌, ℤ, ltb_ℤ, pos}

pub record VehicleProgress (R : Type 0) : Type 0 where
  pub lat : Option R
  pub lon : Option R
  pub at_stop : Bool
  pub delay : ℤ

pub record StopFeature (R : Type 0) : Type 0 where
  pub lon : R
  pub lat : R
  pub stop_id : Text
  pub name : Text
  pub n : Text
  pub upcoming : Bool

-- The text after the first comma and the spaces behind it, if there is a comma.
unfoldable pub after_comma : Text → Option Text
after_comma [] = none
after_comma (c ∷ s) = if c == b',' then some (skip_space s) else after_comma s

-- `name.replace(/^[^,]+,\s*/, "")`: at least one character comes before the comma.
unfoldable pub short_name : Text → Text
unfolding after_comma skip_space
short_name [] = []
short_name (c ∷ s) = if c == b',' then c ∷ s else elim (after_comma s) [ none ↦ c ∷ s | some r ↦ r ]

unfoldable pub expected_time : ℤ → ℤ → ℤ
expected_time scheduled delay = scheduled +ℤ delay

module _ {R : Type 0} where
  unfoldable pub feature_of : ℕ → ℕ → TripStop R → StopFeature R
  feature_of upcoming_from i s = record {
    lon = s.lon;
    lat = s.lat;
    stop_id = s.stop_id;
    name = short_name s.name;
    n = to_string (i + 1);
    upcoming = leb upcoming_from i;
  }

  -- `stops.map((s, i) => …)` from index `i` on.
  unfoldable pub features_from : ℕ → ℕ → List (TripStop R) → List (StopFeature R)
  unfolding feature_of
  features_from upcoming_from i [] = []
  features_from upcoming_from i (s ∷ ss) =
      feature_of upcoming_from i s ∷ features_from upcoming_from (suc i) ss

  unfoldable pub trip_stop_features : List (TripStop R) → ℕ → List (StopFeature R)
  unfolding features_from
  trip_stop_features stops upcoming_from = features_from upcoming_from 0 stops

module _ (num : Numbers) where
  open num use {R, less, infinity, is_finite}

  -- The loop of `nearestStopIndex` from index `i` on.
  unfoldable pub nearest_from : R → R → ℕ → Option ℕ → R → List (TripStop R) → Option ℕ
  nearest_from lat lon i best best_d [] = best
  nearest_from lat lon i best best_d (s ∷ ss) =
      let d = distance_meters num lat lon s.lat s.lon in
      let nearer = less d best_d in
      nearest_from lat lon (suc i) (if nearer then some i else best) (if nearer then d else best_d)
        ss

  unfoldable pub nearest_stop_index : List (TripStop R) → Option R → Option R → Option ℕ
  nearest_stop_index stops none lon = none
  nearest_stop_index stops (some lat) none = none
  nearest_stop_index stops (some lat) (some lon) =
      if is_finite lat && is_finite lon then nearest_from lat lon 0 none infinity stops else none

  module _ (format_to_parts : ℕ → List (Text × Text)) where
    -- `etaSeconds(s.scheduled_departure + veh.delay, nowMs) <= 0`.
    unfoldable pub departed : VehicleProgress R → ℕ → TripStop R → Bool
    departed veh now_ms s =
        not
          (ltb_ℤ (pos 0) (eta_seconds format_to_parts (s.scheduled_departure +ℤ veh.delay) now_ms))

    -- `stops.findIndex((s) => !departed(s))` from index `i` on; `none` is -1.
    unfoldable pub first_ahead : VehicleProgress R → ℕ → ℕ → List (TripStop R) → Option ℕ
    first_ahead veh now_ms i [] = none
    first_ahead veh now_ms i (s ∷ ss) =
        if departed veh now_ms s then first_ahead veh now_ms (suc i) ss else some i

    abbrev pub departed_at : VehicleProgress R → ℕ → Option (TripStop R) → Bool
    departed_at veh now_ms none = true
    departed_at veh now_ms (some s) = departed veh now_ms s

    unfoldable pub upcoming_from_index : List (TripStop R) → VehicleProgress R → ℕ → ℕ
    upcoming_from_index [] veh now_ms = 0
    upcoming_from_index (s ∷ ss) veh now_ms = elim (nearest_stop_index (s ∷ ss) veh.lat veh.lon) [
      | none ↦ elim (first_ahead veh now_ms 0 (s ∷ ss)) [ none ↦ 0 | some i ↦ i ]
      | some near ↦
          if veh.at_stop || not (departed_at veh now_ms (get_elem? (s ∷ ss) near))
          then near
          else near + 1
    ]
