-- ===== src/Trip/Upcoming.antt =====
-- The index of the first stop ahead, and the numbered stops of the map.
use ovlive_platform.Numbers.{Numbers, NumberLaws}
use ovlive_platform.Types.{TripStop}
use ovlive_platform.Operator.Defs.{skip_space, is_space}
use ovlive_platform.Prelude.{
  ℕ, zero, suc, ◌+◌, ◌≤◌, ◌≡◌, refl, ap, ◌∙◌, ◌≢◌, ◌↔◌, true, false, some, List, [], ◌∷◌, ◌++◌,
  arith, length, All, get_elem?, Text, parse_decimal, parse-to_string, ◌<◌, ◌⊎◌, Option, none, inl,
  inr, if◌then◌else◌, Option-cases, take, Bool-cases,
}
use ovlive_platform.Trip.Defs.{
  StopFeature, feature_of, short_name, features_from, trip_stop_features, after_comma, first_ahead,
  nearest_stop_index, upcoming_from_index, VehicleProgress, departed,
}
use ovlive_platform.Trip.Nearest.{nearest_stop_index-least}

module _ {R : Type 0} where
  length-features_from :
      (from i : ℕ) (stops : List (TripStop R)) → length (features_from from i stops) ≡ length stops
  unfolding features_from
  length-features_from from i [] = refl
  length-features_from from i (s ∷ ss) = ap suc (length-features_from from (suc i) ss)

  get-features_from :
      (from i k : ℕ) (stops : List (TripStop R)) (s : TripStop R)
      → get_elem? stops k ≡ some s
      → get_elem? (features_from from i stops) k ≡ some (feature_of from (i + k) s)
  unfolding features_from
  get-features_from from i k [] s h = cc
  get-features_from from i zero (t ∷ ss) s h = ground arith
  get-features_from from i (suc k) (t ∷ ss) s h =
      let e : suc i + k ≡ i + suc k = omega arith in
      get-features_from from (suc i) k ss s h ∙ rw e refl

  -- The features are one for each stop, in the trip's order: a stop carries its number in the
  -- whole trip from 1 on, whatever is behind the vehicle, and is upcoming exactly from the given
  -- index on.
  pub trip_stop_features_lem :
      (stops : List (TripStop R)) (from k : ℕ) (s : TripStop R)
      → get_elem? stops k ≡ some s
      → (length (trip_stop_features stops from) ≡ length stops)
        × ((f : StopFeature R) × (get_elem? (trip_stop_features stops from) k ≡ some f)
            × (parse_decimal f.n ≡ k + 1)
            × ((f.upcoming ≡ true) ↔ (from ≤ k))
            × (f.stop_id ≡ s.stop_id))
  unfolding trip_stop_features feature_of
  trip_stop_features_lem stops from k s h = (
    length-features_from from 0 stops,
    (
      feature_of from (0 + k) s,
      get-features_from from 0 k stops s h,
      parse-to_string (0 + k + 1) ∙ omega arith,
      ground arith,
      refl,
    ),
  )

abbrev pub HasNoComma : Text → Type 0
HasNoComma s = All (λ c. c ≢ b',') s

after_comma-append :
    (place stop : Text)
    → HasNoComma place
    → after_comma (place ++ b',' ∷ stop) ≡ some (skip_space stop)
unfolding after_comma
after_comma-append [] stop h = refl
after_comma-append (c ∷ place) stop (p, h) = ground (arith, after_comma-append place stop h)

after_comma-none : (place : Text) → HasNoComma place → after_comma place ≡ none
unfolding after_comma
after_comma-none [] h = refl
after_comma-none (c ∷ place) (p, h) = ground (arith, after_comma-none place h)

is_space-space : is_space b' ' ≡ true
unfolding is_space
is_space-space = refl

skip_space_one :
    (d : ℕ) (stop : Text) → is_space d ≡ false → skip_space (b' ' ∷ d ∷ stop) ≡ d ∷ stop
unfolding skip_space
skip_space_one d stop e = rw (is_space-space, e) refl

-- A name of the form "<place>, <stop>" is shown as the stop alone; a name with no comma, such as
-- a station's, is left alone.
pub short_name_lem :
    (c d : ℕ) (place stop : Text)
    → HasNoComma (c ∷ place)
    → is_space d ≡ false
    → (short_name (c ∷ place ++ (b',' ∷ b' ' ∷ d ∷ stop)) ≡ d ∷ stop)
      × (short_name (c ∷ place) ≡ c ∷ place)
unfolding short_name
short_name_lem c d place stop (p, h) e = ground (
  arith,
  after_comma-append place (b' ' ∷ d ∷ stop) h,
  after_comma-none place h,
  skip_space_one d stop e,
)

get_elem?-lt : {A : Type 0} (xs : List A) (i : ℕ) (x : A) → get_elem? xs i ≡ some x → i < length xs
get_elem?-lt [] i x h = cc
get_elem?-lt (y ∷ xs) zero x h = omega arith
get_elem?-lt (y ∷ xs) (suc i) x h = omega (arith, get_elem?-lt xs i x h)

module _ (num : Numbers) (format_to_parts : ℕ → List (Text × Text)) where
  open num use {R}

  first_ahead-lt :
      (veh : VehicleProgress R) (now_ms i j : ℕ) (ss : List (TripStop R))
      → first_ahead num format_to_parts veh now_ms i ss ≡ some j
      → (i ≤ j) × (j < i + length ss)
  unfolding first_ahead
  first_ahead-lt veh now_ms i j [] h = cc
  first_ahead-lt veh now_ms i j (s ∷ ss) h = ground (arith, first_ahead-lt veh now_ms (suc i) j ss)

  nearest-lt :
      (laws : NumberLaws num) (stops : List (TripStop R)) (lat lon : Option R) (b : ℕ)
      → nearest_stop_index num stops lat lon ≡ some b
      → b < length stops
  unfolding nearest_stop_index
  nearest-lt laws stops none lon b h = cc
  nearest-lt laws stops (some lat) none b h = cc
  nearest-lt laws stops (some lat) (some lon) b h =
      let (s, g, _) = nearest_stop_index-least num laws lat lon stops b h in
      get_elem?-lt stops b s g

  -- The index of the first stop ahead lies within the trip, or just past its end, where the
  -- vehicle has left the last stop; a vehicle that stands at a stop is never put past the end.
  pub upcoming_bound :
      (laws : NumberLaws num) (s : TripStop R) (ss : List (TripStop R)) (veh : VehicleProgress R)
      (now_ms : ℕ)
      → upcoming_from_index num format_to_parts (s ∷ ss) veh now_ms
        ≤ (if veh.at_stop then length ss else length ss + 1)
  unfolding upcoming_from_index
  upcoming_bound laws s ss veh now_ms =
      elim (Option-cases (nearest_stop_index num (s ∷ ss) veh.lat veh.lon)) [
        | inl lost ↦ elim (Option-cases (first_ahead num format_to_parts veh now_ms 0 (s ∷ ss))) [
          | inl past ↦ rw (lost, upcoming_from_index, past, upcoming_from_index) (ground arith)
          | inr (i, ahead) ↦
              rw (lost, upcoming_from_index, ahead, upcoming_from_index)
                (ground (arith, first_ahead-lt veh now_ms 0 i (s ∷ ss) ahead))
        ]
        | inr (near, found) ↦
            rw (found, upcoming_from_index)
              (ground (arith, nearest-lt laws (s ∷ ss) veh.lat veh.lon near found))
      ]

  -- No stop before the one found, from index `i` on, is ahead; where none is found, no stop is.
  first_ahead-some :
      (veh : VehicleProgress R) (now_ms i k : ℕ) (ss : List (TripStop R))
      → first_ahead num format_to_parts veh now_ms i ss ≡ some (i + k)
      → ((s : TripStop R) × (get_elem? ss k ≡ some s)
          × (departed num format_to_parts veh now_ms s ≡ false))
        × All (λ t. departed num format_to_parts veh now_ms t ≡ true) (take k ss)
  unfolding first_ahead
  first_ahead-some veh now_ms i k [] h = cc
  first_ahead-some veh now_ms i zero (s ∷ ss) h =
      elim (Bool-cases (departed num format_to_parts veh now_ms s)) [
        | inl gone ↦ absurd (ground (arith, first_ahead-lt veh now_ms (suc i) (i + 0) ss))
        | inr ahead ↦ ((s, refl, ahead), tt)
      ]
  first_ahead-some veh now_ms i (suc k) (s ∷ ss) h =
      elim (Bool-cases (departed num format_to_parts veh now_ms s)) [
        | inl gone ↦
            let (found, before) = first_ahead-some veh now_ms (suc i) k ss (ground arith) in
            (found, (gone, before))
        | inr ahead ↦ absurd (ground arith)
      ]

  first_ahead-none :
      (veh : VehicleProgress R) (now_ms i : ℕ) (ss : List (TripStop R))
      → first_ahead num format_to_parts veh now_ms i ss ≡ none
      → All (λ t. departed num format_to_parts veh now_ms t ≡ true) ss
  unfolding first_ahead
  first_ahead-none veh now_ms i [] h = tt
  first_ahead-none veh now_ms i (s ∷ ss) h = ground (arith, first_ahead-none veh now_ms (suc i) ss)

  -- Without a position the first stop that is not departed counts: every stop before it is
  -- departed and it is not, or all are departed and the index is 0.
  upcoming_without_position :
      (stops : List (TripStop R)) (veh : VehicleProgress R) (now_ms : ℕ)
      → nearest_stop_index num stops veh.lat veh.lon ≡ none
      → (((s : TripStop R) × (get_elem? stops
                (upcoming_from_index num format_to_parts stops veh now_ms)
              ≡ some s)
            × (departed num format_to_parts veh now_ms s ≡ false))
          × All
              (λ t. departed num format_to_parts veh now_ms t ≡ true)
              (take (upcoming_from_index num format_to_parts stops veh now_ms) stops))
        ⊎ ((upcoming_from_index num format_to_parts stops veh now_ms ≡ 0)
            × All (λ t. departed num format_to_parts veh now_ms t ≡ true) stops)
  unfolding upcoming_from_index
  upcoming_without_position [] veh now_ms h = inr (refl, tt)
  upcoming_without_position (s ∷ ss) veh now_ms h =
      elim (Option-cases (first_ahead num format_to_parts veh now_ms 0 (s ∷ ss))) [
        | inl past ↦
            inr
              (rw (h, upcoming_from_index, past) refl, first_ahead-none veh now_ms 0 (s ∷ ss) past)
        | inr (i, ahead) ↦
            let e : upcoming_from_index num format_to_parts (s ∷ ss) veh now_ms ≡ i =
              rw (h, upcoming_from_index, ahead) refl in
            inl (rw e (first_ahead-some veh now_ms 0 i (s ∷ ss) (ahead ∙ ap some (omega arith))))
      ]
