-- ===== src/Schedule/Eta.antt =====
-- etaSeconds and secsToClock of packages/shared/src/format.ts: wrapping on the day.
use ovlive_platform.Prelude.{
  ℕ, ◌+◌, ◌%◌, ◌<◌, ◌≡◌, arith, ◌/◌, refl, List, [], ◌∷◌, Text, pad2_digits,
}
use ovlive_platform.Prelude.Int.{
  ℤ, pos, negsuc, ◌+ℤ◌, ◌%ℤ◌, pos_part, int_laws, ◌≤ℤ◌, ◌-ℤ◌, neg_ℕ, abs,
}
use ovlive_platform.Schedule.Defs.{eta_seconds, secs_to_clock, wrap_day, secs_since_midnight_nl}

-- The remainder that the source builds from two `%`: between 0 and 86399, and congruent.
pub day_mod : ℤ → ℕ
day_mod x = pos_part ((x %ℤ 86400 +ℤ pos 86400) %ℤ 86400)

day_mod-lt : (x : ℤ) → day_mod x < 86400
unfolding day_mod ◌%ℤ◌ ◌+ℤ◌
day_mod-lt (pos n) = ground arith
day_mod-lt (negsuc n) = ground arith

day_mod-pos : (x : ℤ) → (x %ℤ 86400 +ℤ pos 86400) %ℤ 86400 ≡ pos (day_mod x)
unfolding day_mod ◌%ℤ◌ ◌+ℤ◌
day_mod-pos (pos n) = ground arith
day_mod-pos (negsuc n) = ground arith

-- Whole days between a number and its remainder: one count for each sign.
day_mod-congr_pos : (n : ℕ) → day_mod (pos n) ≡ n % 86400
unfolding day_mod ◌%ℤ◌ ◌+ℤ◌
day_mod-congr_pos n = ground arith

day_mod-congr_neg : (n : ℕ) → (day_mod (negsuc n) + n + 1) % 86400 ≡ 0
unfolding day_mod ◌%ℤ◌ ◌+ℤ◌
day_mod-congr_neg n = ground arith

day_mod-congr : (d : ℤ) → abs (d -ℤ pos (day_mod d)) % 86400 ≡ 0
unfolding ◌-ℤ◌
day_mod-congr (pos n) = ground (arith, day_mod-congr_pos n)
day_mod-congr (negsuc n) = ground (arith, day_mod-congr_neg n)

day_mod_of_lt : (d : ℤ) → pos 0 ≤ℤ d → d ≤ℤ pos 86399 → pos (day_mod d) ≡ d
day_mod_of_lt (pos n) h k = ground (arith, day_mod-congr_pos n)
day_mod_of_lt (negsuc n) h k = absurd (omega arith)

day_mod-add_day : (d : ℤ) → day_mod (d +ℤ pos 86400) ≡ day_mod d
unfolding day_mod ◌+ℤ◌ ◌%ℤ◌
day_mod-add_day (pos n) = ground arith
day_mod-add_day (negsuc n) = ground arith

module _ (format_to_parts : ℕ → List (Text × Text)) where
  -- The time from now to the schedule time, before wrapping.
  abbrev pub raw_eta : ℤ → ℕ → ℤ
  raw_eta schedule_secs now_ms =
      schedule_secs -ℤ pos (secs_since_midnight_nl format_to_parts now_ms)

  eta-day_mod :
      (schedule_secs : ℤ) (now_ms : ℕ)
      → eta_seconds format_to_parts schedule_secs now_ms
        ≡ pos (day_mod (raw_eta schedule_secs now_ms +ℤ pos 43200)) -ℤ pos 43200
  unfolding eta_seconds
  eta-day_mod schedule_secs now_ms = rw (day_mod-pos (raw_eta schedule_secs now_ms +ℤ pos 43200))

  -- The countdown to a schedule time lies in [-43200, 43199], and differs from the plain
  -- difference between schedule and clock by a whole number of days.
  pub eta_seconds-bounds :
      (schedule_secs : ℤ) (now_ms : ℕ)
      → (neg_ℕ 43200 ≤ℤ eta_seconds format_to_parts schedule_secs now_ms)
        × (eta_seconds format_to_parts schedule_secs now_ms ≤ℤ pos 43199)
        × (abs (raw_eta schedule_secs now_ms -ℤ eta_seconds format_to_parts schedule_secs now_ms)
              % 86400
            ≡ 0)
  eta_seconds-bounds schedule_secs now_ms =
      let d = raw_eta schedule_secs now_ms +ℤ pos 43200 in
      rw (eta-day_mod schedule_secs now_ms) (
        omega (int_laws, day_mod-lt d),
        omega (int_laws, day_mod-lt d),
        rw (shift (raw_eta schedule_secs now_ms) (pos (day_mod d))) (day_mod-congr d),
      )
    where
      shift : (r m : ℤ) → r -ℤ (m -ℤ pos 43200) ≡ r +ℤ pos 43200 -ℤ m
      shift r m = omega int_laws

  -- A schedule time less than half a day away counts down by the plain difference, also when it
  -- is written on the axis of another day (one day more, as after-midnight service is).
  eta_seconds_near :
      (schedule_secs : ℤ) (now_ms : ℕ)
      → neg_ℕ 43200 ≤ℤ raw_eta schedule_secs now_ms
      → raw_eta schedule_secs now_ms ≤ℤ pos 43199
      → (eta_seconds format_to_parts schedule_secs now_ms ≡ raw_eta schedule_secs now_ms)
        × (eta_seconds format_to_parts (schedule_secs +ℤ pos 86400) now_ms
            ≡ raw_eta schedule_secs now_ms)
  eta_seconds_near schedule_secs now_ms lo hi =
      let r = raw_eta schedule_secs now_ms in
      let e : pos (day_mod (r +ℤ pos 43200)) ≡ r +ℤ pos 43200 =
        day_mod_of_lt (r +ℤ pos 43200) (omega int_laws) (omega int_laws) in
      (
        rw (eta-day_mod schedule_secs now_ms, e) (back r),
        rw
            (
              eta-day_mod (schedule_secs +ℤ pos 86400) now_ms,
              later schedule_secs (pos (secs_since_midnight_nl format_to_parts now_ms)),
              day_mod-add_day (r +ℤ pos 43200),
              e,
            )
            (back r),
      )
    where
      back : (x : ℤ) → x +ℤ pos 43200 -ℤ pos 43200 ≡ x
      back x = omega int_laws

      later : (s m : ℤ) → s +ℤ pos 86400 -ℤ m +ℤ pos 43200 ≡ s -ℤ m +ℤ pos 43200 +ℤ pos 86400
      later s m = omega int_laws

wrap-day_mod : (sec : ℤ) → wrap_day sec ≡ day_mod sec
unfolding wrap_day day_mod
wrap-day_mod sec = refl

-- The clock shows the time of day of the given second, two digits each: the seconds past
-- midnight are below one day and congruent to it, and the hour is below 24, the minute below 60.
pub secs_to_clock_lem :
    (sec : ℤ)
    → (day : ℕ) × (day < 86400)
      × (abs (sec -ℤ pos day) % 86400 ≡ 0)
      × (day / 3600 < 24)
      × (day % 3600 / 60 < 60)
      × (secs_to_clock sec
          ≡ (48 + day / 3600 / 10)
            ∷ (48 + day / 3600 % 10)
            ∷ b':'
            ∷ (48 + day % 3600 / 60 / 10)
            ∷ (48 + day % 3600 / 60 % 10)
            ∷ [])
unfolding secs_to_clock
secs_to_clock_lem sec =
    let day = day_mod sec in
    let below = day_mod-lt sec in
    (
      day,
      below,
      day_mod-congr sec,
      omega arith,
      omega arith,
      rw (
        wrap-day_mod sec,
        pad2_digits (day / 3600) (omega arith),
        pad2_digits (day % 3600 / 60) (omega arith),
      ),
    )
