-- ===== src/Trip/Examples.antt =====
-- The theorems on a trip of two stops, and on a view, at whole degrees.
use ovlive_platform.Prelude.{
  ℕ, ◌≡◌, refl, false, none, some, List, [], ◌∷◌, get_elem?, All, Text, codes,
}
use ovlive_platform.Prelude.Int.{pos}
use ovlive_platform.Samples.{second_stop, first_stop}
use ovlive_platform.Types.{TripStop}
use ovlive_platform.Numbers.{whole_degrees, whole_degrees_laws}
use ovlive_platform.Geo.{distance_meters}
use ovlive_platform.Trip.Defs.{VehicleProgress, nearest_from, nearest_stop_index}
use ovlive_platform.Trip.Nearest.{nearest_stop_index-least, dist}

abbrev noon : ℕ → List (Text × Text)
noon now_ms =
    (codes "hour", codes "10") ∷ (codes "minute", codes "05") ∷ (codes "second", codes "00") ∷ []

abbrev trip_stops : List (TripStop ℕ)
trip_stops = first_stop ∷ second_stop ∷ []

abbrev lost_bus : VehicleProgress ℕ
lost_bus = record { lat = none; lon = none; at_stop = false; delay = pos 0 }

nearest_stop_index-least_example :
    (s : TripStop ℕ) × (get_elem? (second_stop ∷ first_stop ∷ []) 1 ≡ some s)
    × All
        (λ t.
          whole_degrees.less
            (dist whole_degrees whole_degrees_laws 52 4 t)
            (dist whole_degrees whole_degrees_laws 52 4 s)
          ≡ false)
        (second_stop ∷ first_stop ∷ [])
unfolding nearest_stop_index nearest_from distance_meters
nearest_stop_index-least_example =
    nearest_stop_index-least whole_degrees whole_degrees_laws 52 4 (second_stop ∷ first_stop ∷ []) 1
      refl
