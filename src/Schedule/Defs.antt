-- ===== src/Schedule/Defs.antt =====
-- packages/shared/src/format.ts (formatDelay, updateAge, secsSinceMidnightNL, etaSeconds,
-- secsToClock) and clock.ts (pad2, etaLabel).
use ovlive_platform.Prelude.{
  ℕ, ◌+◌, ◌-◌, ◌*◌, ◌/◌, ◌%◌, Bool, Option, none, some, List, [], ◌∷◌, ◌++◌, ltb, ◌==◌,
  if◌then◌else◌, Text, codes, text_eq, to_string, pad_start2, parse_decimal, find,
}
use ovlive_platform.Prelude.Int.{ℤ, pos, negsuc, ◌+ℤ◌, ◌-ℤ◌, ◌%ℤ◌, ltb_ℤ, pos_part, abs, is_zero_ℤ}

pub data DelayKind : Type 0 where
  late early ontime unknown : DelayKind

pub record DelayLabel : Type 0 where
  pub text : Text
  pub kind : DelayKind

-- The code unit of the minus sign U+2212.
abbrev pub minus_sign : ℕ
minus_sign = 0x2212

unfoldable pub format_delay : ℤ → Bool → DelayLabel
format_delay sec known =
    if known
    then (if is_zero_ℤ sec
        then record { text = codes "on time"; kind = ontime }
        else let is_late = ltb_ℤ (pos 0) sec in
          let m = abs sec / 60 in
          let s = abs sec % 60 in
          record {
            text =
                (if is_late then b'+' else minus_sign)
                ∷ (to_string m ++ b':' ∷ pad_start2 (to_string s));
            kind = if is_late then late else early;
          })
    else record { text = codes "no delay data"; kind = unknown }

pub data Freshness : Type 0 where
  fresh aging stale : Freshness

-- `Math.max(0, Math.round((nowMs - t) / 1000))` on whole milliseconds: halves round up.
unfoldable pub age_secs : ℕ → ℕ → ℕ
age_secs t now_ms = (now_ms + 500 - t) / 1000

-- `none` for the time is `Number.isNaN(Date.parse(iso))`.
unfoldable pub update_age : Option ℕ → ℕ → Option (ℕ × Freshness)
unfolding age_secs
update_age none now_ms = none
update_age (some t) now_ms =
    let secs = age_secs t now_ms in
    some (secs, (if ltb secs 60 then fresh else if ltb secs 180 then aging else stale))

-- `formatToParts` of `Intl.DateTimeFormat` is given: the parts of an instant, type and value.
module _ (format_to_parts : ℕ → List (Text × Text)) where
  unfoldable pub part_value : ℕ → Text → ℕ
  part_value now_ms type = elim (find (λ p. text_eq p.0 type) (format_to_parts now_ms)) [
    | none ↦ 0
    | some p ↦ parse_decimal p.1
  ]

  unfoldable pub secs_since_midnight_nl : ℕ → ℕ
  secs_since_midnight_nl now_ms =
      part_value now_ms (codes "hour") * 3600
      + part_value now_ms (codes "minute") * 60
      + part_value now_ms (codes "second")

  unfoldable pub eta_seconds : ℤ → ℕ → ℤ
  eta_seconds schedule_secs now_ms =
      let diff = schedule_secs -ℤ pos (secs_since_midnight_nl now_ms) in
      ((diff +ℤ pos 43200) %ℤ 86400 +ℤ pos 86400) %ℤ 86400 -ℤ pos 43200

unfoldable pub wrap_day : ℤ → ℕ
wrap_day sec = pos_part ((sec %ℤ 86400 +ℤ pos 86400) %ℤ 86400)

unfoldable pub secs_to_clock : ℤ → Text
secs_to_clock sec =
    let s = wrap_day sec in
    pad_start2 (to_string (s / 3600)) ++ b':' ∷ pad_start2 (to_string (s % 3600 / 60))

-- The value of a template variable is a number or a text; numbers are printed by `t`.
pub record EtaText : Type 0 where
  pub key : Text
  pub vars : List (Text × Text)

unfoldable pub pad2 : ℕ → Text
pad2 n = pad_start2 (to_string n)

-- The call of `t` that `etaLabel` makes: the key and the variables.
unfoldable pub eta_label : ℤ → EtaText
unfolding pad2
eta_label (negsuc n) = record { key = codes "eta.now"; vars = [] }
eta_label (pos n) =
    if n == 0
    then record { key = codes "eta.now"; vars = [] }
    else if ltb n 60
    then record { key = codes "eta.secs"; vars = (codes "n", to_string n) ∷ [] }
    else let s = pad2 (n % 60) in
      let mins = n / 60 in
      if ltb mins 60
      then record {
        key = codes "eta.minsSecs";
        vars = (codes "n", to_string mins) ∷ (codes "s", s) ∷ [];
      }
      else record {
        key = codes "eta.hoursMinsSecs";
        vars =
            (codes "h", to_string (mins / 60))
            ∷ (codes "n", pad2 (mins % 60))
            ∷ (codes "s", s)
            ∷ [];
      }
