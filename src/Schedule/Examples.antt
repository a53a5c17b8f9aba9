-- ===== src/Schedule/Examples.antt =====
-- The theorems on clocks and labels at concrete inputs; the clock shows 23:59:30.
use ovlive_platform.Prelude.{ℕ, ◌%◌, ◌≡◌, refl, List, [], ◌∷◌, codes, text_eq, Text, parse_from}
use ovlive_platform.Prelude.Int.{◌≤ℤ◌, abs, neg_ℕ, ◌%ℤ◌, ◌+ℤ◌, pos, ◌-ℤ◌}
use ovlive_platform.Schedule.Defs.{part_value, eta_seconds, secs_since_midnight_nl}
use ovlive_platform.Schedule.Eta.{raw_eta, eta_seconds-bounds}

abbrev before_midnight : ℕ → List (Text × Text)
before_midnight now_ms =
    (codes "hour", codes "23") ∷ (codes "minute", codes "59") ∷ (codes "second", codes "30") ∷ []

-- A departure at 24:01:00 is 90 seconds away.
eta_test : eta_seconds before_midnight (pos 86460) 0 ≡ pos 90
unfolding eta_seconds secs_since_midnight_nl part_value text_eq parse_from ◌-ℤ◌ ◌+ℤ◌ ◌%ℤ◌
eta_test = refl

eta_seconds-bounds_example :
    (neg_ℕ 43200 ≤ℤ eta_seconds before_midnight (pos 60) 0)
    × (eta_seconds before_midnight (pos 60) 0 ≤ℤ pos 43199)
    × (abs (raw_eta before_midnight (pos 60) 0 -ℤ eta_seconds before_midnight (pos 60) 0) % 86400
        ≡ 0)
eta_seconds-bounds_example = eta_seconds-bounds before_midnight (pos 60) 0
