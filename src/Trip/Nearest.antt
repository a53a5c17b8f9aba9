-- ===== src/Trip/Nearest.antt =====
-- nearestStopIndex of packages/shared/src/trip.ts.
use mathlib.Core.Bool.{false≢true}
use ovlive_platform.Numbers.{Numbers, NumberLaws}
use ovlive_platform.Types.{TripStop}
use ovlive_platform.Geo.{distance_meters}
use ovlive_platform.Prelude.{
  ◌≡◌, inl, inr, true, false, List, [], ◌∷◌, arith, if◌then◌else◌, Bool-cases, All, ℕ, suc, ◌+◌,
  refl, sym, ap, ◌∙◌, ◌⊎◌, Option, some, get_elem?, ◌&&◌, none,
}
use ovlive_platform.Trip.Defs.{nearest_from, nearest_stop_index}

module _ (num : Numbers) (laws : NumberLaws num) (lat lon : num.R) where
  open num use {R, less, infinity, is_finite}

  abbrev pub dist : TripStop R → R
  dist s = distance_meters num lat lon s.lat s.lon

  -- The distance that the loop ends with.
  least : R → List (TripStop R) → R
  least d [] = d
  least d (s ∷ ss) = least (if less (dist s) d then dist s else d) ss

  less-least : (x d : R) (ss : List (TripStop R)) → less x (least d ss) ≡ true → less x d ≡ true
  unfolding least
  less-least x d [] h = h
  less-least x d (s ∷ ss) h = elim (Bool-cases (less (dist s) d)) [
    | inl nearer ↦ laws.less_trans x (dist s) d (less-least x (dist s) ss (rw nearer at h)) nearer
    | inr farther ↦ less-least x d ss (rw farther at h)
  ]

  not_less : (x d e : R) → (less x e ≡ true → less x d ≡ true) → less x d ≡ false → less x e ≡ false
  not_less x d e k f = elim (Bool-cases (less x e)) [
    | inl nearer ↦ absurd (false≢true (sym f ∙ k nearer))
    | inr farther ↦ farther
  ]

  least-head :
      (d : R) (s : TripStop R) (ss : List (TripStop R)) → less (dist s) (least d (s ∷ ss)) ≡ false
  unfolding least
  least-head d s ss = elim (Bool-cases (less (dist s) d)) [
    | inl nearer ↦
        rw nearer (
          not_less (dist s) (dist s) _ (less-least (dist s) (dist s) ss)
            (laws.less_irrefl (dist s)))
    | inr farther ↦ rw farther (not_less (dist s) d _ (less-least (dist s) d ss) farther)
  ]

  least-le : (d : R) (ss : List (TripStop R)) → All (λ s. less (dist s) (least d ss) ≡ false) ss
  unfolding least
  least-le d [] = tt
  least-le d (s ∷ ss) = (least-head d s ss, least-le (if less (dist s) d then dist s else d) ss)

  -- What the loop returns: what it began with, or the index of a stop at the least distance.
  abbrev Found : ℕ → Option ℕ → Option ℕ → R → R → List (TripStop R) → Type 0
  Found i best r d e ss =
      ((r ≡ best) × (e ≡ d))
      ⊎ (k : ℕ) × (s : TripStop R) × (r ≡ some (i + k)) × (get_elem? ss k ≡ some s) × (dist s ≡ e)

  nearest_from-Found :
      (i : ℕ) (best : Option ℕ) (d : R) (ss : List (TripStop R))
      → Found i best (nearest_from num lat lon i best d ss) d (least d ss) ss
  unfolding nearest_from least
  nearest_from-Found i best d [] = inl (refl, refl)
  nearest_from-Found i best d (s ∷ ss) =
      let nearer = less (dist s) d in
      later (
        nearest_from-Found (suc i) (if nearer then some i else best) (if nearer then dist s else d)
          ss)
    where
      later :
          Found
            (suc i)
            (if less (dist s) d then some i else best)
            (nearest_from num lat lon
              (suc i)
              (if less (dist s) d then some i else best)
              (if less (dist s) d then dist s else d)
              ss)
            (if less (dist s) d then dist s else d)
            (least (if less (dist s) d then dist s else d) ss)
            ss
          → Found i best (nearest_from num lat lon i best d (s ∷ ss)) d (least d (s ∷ ss)) (s ∷ ss)
      later (inr (k, t, r, g, e)) = inr (suc k, t, r ∙ ap some (omega arith), g, e)
      later (inl (r, e)) = elim (Bool-cases (less (dist s) d)) [
        | inl nearer ↦
            inr (0, s, r ∙ rw nearer (ap some (omega arith)), refl, sym (e ∙ rw nearer refl))
        | inr farther ↦ inl (r ∙ rw farther refl, e ∙ rw farther refl)
      ]

  usable_loop :
      (stops : List (TripStop R)) (b : ℕ)
      → nearest_stop_index num stops (some lat) (some lon) ≡ some b
      → nearest_from num lat lon 0 none infinity stops ≡ some b
  unfolding nearest_stop_index
  usable_loop stops b h = elim (Bool-cases (is_finite lat && is_finite lon)) [
    | inl usable ↦ rw usable at h
    | inr unusable ↦ cc (rw unusable at h)
  ]

  -- The index that is returned is that of a stop of the trip, and no stop of the trip is nearer.
  pub nearest_stop_index-least :
      (stops : List (TripStop R)) (b : ℕ)
      → nearest_stop_index num stops (some lat) (some lon) ≡ some b
      → (s : TripStop R) × (get_elem? stops b ≡ some s)
        × All (λ t. less (dist t) (dist s) ≡ false) stops
  nearest_stop_index-least stops b h =
      go (nearest_from-Found 0 none infinity stops) (usable_loop stops b h)
    where
      go :
          Found 0 none
            (nearest_from num lat lon 0 none infinity stops)
            infinity
            (least infinity stops)
            stops
          → nearest_from num lat lon 0 none infinity stops ≡ some b
          → (s : TripStop R) × (get_elem? stops b ≡ some s)
            × All (λ t. less (dist t) (dist s) ≡ false) stops
      go (inl (r, e)) u = cc
      go (inr (k, s, r, g, e)) u =
          let same : k ≡ b = ground arith in (s, rw (← same) g, rw e (least-le infinity stops))
