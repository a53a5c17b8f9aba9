-- ===== src/Panel/Sources.antt =====
-- Which of the three sources of a view decides what it shows.
use ovlive_platform.Prelude.{
  ℕ, zero, suc, ◌≤◌, ◌≡◌, refl, ap, true, Option, some, List, [], ◌∷◌, ◌++◌, length, take, drop,
  Text, arith,
}
use ovlive_platform.Types.{Vehicle, TripStop, VehicleDetail, VehicleTripPlan}
use ovlive_platform.Numbers.{NumberLaws, Numbers}
use ovlive_platform.Schedule.Defs.{format_delay}
use ovlive_platform.Panel.Defs.{
  ViewInput, upcoming_of, vehicle_view, detail_of, stops_from, progress_of,
}
use ovlive_platform.Trip.Defs.{VehicleProgress, upcoming_from_index}
use ovlive_platform.Trip.Upcoming.{upcoming_bound}

take-drop : {A : Type 0} (n : ℕ) (xs : List A) → take n xs ++ drop n xs ≡ xs
take-drop zero xs = refl
take-drop (suc n) [] = refl
take-drop (suc n) (x ∷ xs) = ap (λ ys. x ∷ ys) (take-drop n xs)

module _ (num : Numbers) (format_to_parts : ℕ → List (Text × Text)) (to_upper : Text → Text)
    (t : Text → Text) where
  open num use {R, literal, at_most}

  upcoming-length :
      (laws : NumberLaws num) (stops : List (TripStop R)) (veh : VehicleProgress R) (now : ℕ)
      → upcoming_from_index num format_to_parts stops veh now ≤ length stops
  unfolding upcoming_from_index
  upcoming-length laws [] veh now = omega arith
  upcoming-length laws (s ∷ ss) veh now =
      ground (arith, upcoming_bound num format_to_parts laws s ss veh now)

  -- Once the watched trip has ended, the detail that is polled, which may be of the vehicle's next
  -- trip, changes nothing that is shown.
  pub ended_ignores_detail :
      (i : ViewInput R) (d : Option (VehicleDetail R))
      → i.ended ≡ true
      → vehicle_view num format_to_parts to_upper t (record i { detail = d })
        ≡ vehicle_view num format_to_parts to_upper t i
  unfolding vehicle_view
  ended_ignores_detail i d e = rw e refl

  -- While there is a live frame, it alone decides where the vehicle is in its trip: whatever the
  -- detail says, the position, the delay, the stops ahead and the standing at a stop are the same.
  pub frame_decides_progress :
      (i : ViewInput R) (b : Vehicle R) (d : Option (VehicleDetail R))
      → i.basic ≡ some b
      → ((vehicle_view num format_to_parts to_upper t (record i { detail = d })).lat ≡ some b.lat)
        × ((vehicle_view num format_to_parts to_upper t (record i { detail = d })).lon ≡ some b.lon)
        × ((vehicle_view num format_to_parts to_upper t (record i { detail = d })).delay ≡ b.delay)
        × ((vehicle_view num format_to_parts to_upper t (record i { detail = d })).delay_kind
            ≡ (format_delay b.delay b.delay_known).kind)
        × ((vehicle_view num format_to_parts to_upper t (record i { detail = d })).stops
            ≡ (vehicle_view num format_to_parts to_upper t i).stops)
        × ((vehicle_view num format_to_parts to_upper t (record i { detail = d })).at_stop
            ≡ (vehicle_view num format_to_parts to_upper t i).at_stop)
  unfolding vehicle_view progress_of
  frame_decides_progress i b d e =
      (rw e refl, rw e refl, rw e refl, rw e refl, rw e refl, rw e refl)

  -- The stops that are shown are the end of the trip, from the index that numbers them on: what is
  -- left out before them is as long as that index, and the two make up the whole trip.
  stops_are_the_rest :
      (i : ViewInput R) (p : VehicleTripPlan R) (laws : NumberLaws num)
      → i.trip ≡ some p
      → (take (vehicle_view num format_to_parts to_upper t i).upcoming_from p.stops
            ++ (vehicle_view num format_to_parts to_upper t i).stops
          ≡ p.stops)
        × ((vehicle_view num format_to_parts to_upper t i).upcoming_from ≤ length p.stops)
  unfolding vehicle_view upcoming_of stops_from
  stops_are_the_rest i p laws e = (
    rw e (take-drop _ p.stops),
    rw e (upcoming-length laws p.stops (progress_of i.basic (detail_of i)) i.now),
  )
