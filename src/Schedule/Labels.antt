-- ===== src/Schedule/Labels.antt =====
-- The texts of formatDelay, updateAge and etaLabel.
use ovlive_platform.Prelude.Dict
use ovlive_platform.Schedule.Defs.{
  ontime, unknown, fresh, stale, eta_label, minus_sign, EtaText, format_delay, update_age,
  Freshness,
}
use ovlive_platform.Prelude.{
  ℕ, ◌+◌, ◌-◌, ◌*◌, ◌/◌, ◌%◌, ◌≤◌, ◌<◌, ◌≡◌, refl, ◌↔◌, Bool, true, false, Option, none, some, [],
  ◌∷◌, ◌++◌, arith, ◌==◌, if◌then◌else◌, parse-pad_start2, text_eq, to_string, Text, codes,
  parse_decimal, parse-to_string, pad_start2, length,
}
use ovlive_platform.Prelude.Int.{pos, pos_part, ℤ, negsuc, neg_ℕ}
use ovlive_platform.Prelude.Dict.{lookup}

-- The delay that a label of the form `±m:ss` shows, read from its text: the sign, then the
-- minutes up to the colon and the seconds after it.
abbrev pub minutes_of : Text → Text
minutes_of [] = []
minutes_of (c ∷ s) = if c == b':' then [] else c ∷ minutes_of s

abbrev pub seconds_of : Text → Text
seconds_of [] = []
seconds_of (c ∷ s) = if c == b':' then s else seconds_of s

unfoldable pub read_delay : Text → Option ℤ
read_delay [] = none
read_delay (c ∷ s) =
    let n = parse_decimal (minutes_of s) * 60 + parse_decimal (seconds_of s) in
    if c == b'+' then some (pos n) else if c == minus_sign then some (neg_ℕ n) else none

-- The text after the sign, for a delay of `a` seconds.
abbrev clock_text : ℕ → Text
clock_text a = to_string (a / 60) ++ b':' ∷ pad_start2 (to_string (a % 60))

-- A text without its sign.
abbrev pub unsigned : Text → Text
unsigned [] = []
unsigned (c ∷ s) = s

-- The form `m:ss`: the minutes as a number is written, and two digits of seconds below 60.
abbrev pub IsClock : Text → Type 0
IsClock s =
    (minutes_of s ≡ to_string (parse_decimal (minutes_of s)))
    × (length (seconds_of s) ≡ 2)
    × (parse_decimal (seconds_of s) < 60)

-- Only a measured delay of exactly zero is "on time"; one that is not measured is "unknown".
pub format_delay-kind :
    (sec : ℤ) (known : Bool)
    → (((format_delay sec known).kind ≡ unknown) ↔ (known ≡ false))
      × (((format_delay sec known).kind ≡ ontime) ↔ ((known ≡ true) × (sec ≡ pos 0)))
unfolding format_delay
format_delay-kind (pos n) true = ground arith
format_delay-kind (negsuc n) true = ground arith
format_delay-kind sec false = ground arith

-- The number of seconds that a countdown label shows, from its key and its variables.
abbrev pub var_of : Text → EtaText → ℕ
var_of name l = elim (Dict.lookup name l.vars) [ none ↦ 0 | some s ↦ parse_decimal s ]

abbrev pub shown_secs : EtaText → ℕ
shown_secs l =
    if text_eq l.key (codes "eta.now")
    then 0
    else if text_eq l.key (codes "eta.secs")
    then var_of (codes "n") l
    else if text_eq l.key (codes "eta.minsSecs")
    then var_of (codes "n") l * 60 + var_of (codes "s") l
    else var_of (codes "h") l * 3600 + var_of (codes "n") l * 60 + var_of (codes "s") l

-- A countdown label shows all of the seconds left, whatever its form; what is past shows 0.
shown-eta_label : (secs : ℤ) → shown_secs (eta_label secs) ≡ pos_part secs
unfolding eta_label text_eq Dict.lookup
shown-eta_label (negsuc n) = refl
shown-eta_label (pos n) = ground (
  arith,
  parse-to_string n,
  parse-to_string (n / 60),
  parse-to_string (n / 60 / 60),
  parse-to_string (n % 60),
  parse-to_string (n / 60 % 60),
  parse-pad_start2 (to_string (n % 60)),
  parse-pad_start2 (to_string (n / 60 % 60)),
)

-- The age is the time since the report, rounded to a second, and 0 for a report in the future; it
-- is fresh below a minute, stale from three minutes on, and aging between.
pub update_age_lem :
    (t now_ms secs : ℕ) (kind : Freshness)
    → update_age (some t) now_ms ≡ some (secs, kind)
    → (secs * 1000 ≤ now_ms - t + 500)
      × (now_ms - t < secs * 1000 + 500)
      × ((kind ≡ fresh) ↔ (secs < 60))
      × ((kind ≡ stale) ↔ (180 ≤ secs))
unfolding update_age
update_age_lem t now_ms secs kind h = ground arith
