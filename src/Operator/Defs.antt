-- ===== src/Operator/Defs.antt =====
-- packages/shared/src/format.ts: OPERATORS, resolveOperator, hashStyle, hslToHex. Texts are UTF-16
-- code units; `toUpperCase` is a parameter, since its tables are the platform's.
use ovlive_platform.Prelude.Dict
use ovlive_platform.Prelude.{
  ℕ, ◌+◌, ◌-◌, ◌*◌, ◌/◌, ◌%◌, ◌^◌, String, Bool, false, ◌&&◌, ◌||◌, Option, none, some, List, [],
  ◌∷◌, ◌++◌, min, max, reverse, ltb, ◌==◌, leb, if◌then◌else◌, codes, Text, text_eq, is_empty,
}
use ovlive_platform.Prelude.Int.{negsuc, ℤ, ◌%ℤ◌, pos_part, ◌+ℤ◌, pos}
use ovlive_platform.Prelude.Dict.{lookup, insert}

pub record OpStyle : Type 0 where
  pub bg : Text
  pub fg : Text

pub record Operator : Type 0 where
  pub key : Text
  pub label : Text
  pub style : OpStyle

pub record OpDef : Type 0 where
  pub label : Text
  pub style : OpStyle
  pub aliases : List Text

abbrev pub brand : String → String → String → List Text → OpDef
brand label bg fg aliases = record {
  label = codes label;
  style = record { bg = codes bg; fg = codes fg };
  aliases = aliases;
}

-- The table of the brands whose colours are known, in the source's order.
abbrev pub operators : List (Text × OpDef)
operators =
    (codes "ARR", brand "ARR" "#00A1DE" "#ffffff" (codes "ARRIVA" ∷ []))
    ∷ (codes "CXX", brand "CXX" "#6CB33F" "#ffffff" (codes "CONNEXXION" ∷ []))
    ∷ (codes "EBS", brand "EBS" "#F58220" "#ffffff" [])
    ∷ (codes "GVB", brand "GVB" "#005CA9" "#ffffff" [])
    ∷ (codes "HTM", brand "HTM" "#E4002B" "#ffffff" (codes "HTMBUZZ" ∷ []))
    ∷ (codes "RET", brand "RET" "#00857C" "#ffffff" [])
    ∷ (codes "QBUZZ", brand "QBUZZ" "#7A2E8E" "#ffffff" [])
    ∷ (codes "KEOLIS", brand "KEOLIS" "#E6007E" "#ffffff" (codes "KEOLIS NEDERLAND" ∷ []))
    ∷ (codes "UOV", brand "U-OV" "#2E8B57" "#ffffff" (codes "U-OV" ∷ []))
    ∷ (
      codes "IFF",
      brand "NS" "#003082" "#FFC917"
          (codes "NS" ∷ codes "NS INTERNATIONAL" ∷ codes "R-NET NS" ∷ []),
    )
    ∷ (codes "DELIJN", brand "DELIJN" "#FFE600" "#1d1d1f" (codes "DE LIJN" ∷ []))
    ∷ []

abbrev pub default_op : OpStyle
default_op = record { bg = codes "#5b6470"; fg = codes "#ffffff" }

-- `\s` of a regular expression, which `trim` uses too.
unfoldable pub is_space : ℕ → Bool
is_space c =
    (leb 9 c && leb c 13)
    || c == 32
    || c == 160
    || c == 0x1680
    || (leb 0x2000 c && leb c 0x200a)
    || c == 0x2028
    || c == 0x2029
    || c == 0x202f
    || c == 0x205f
    || c == 0x3000
    || c == 0xfeff

unfoldable pub skip_space : Text → Text
skip_space [] = []
skip_space (c ∷ s) = if is_space c then skip_space s else c ∷ s

unfoldable pub trim_end : Text → Text
trim_end s = reverse (skip_space (reverse s))

unfoldable pub trim : Text → Text
unfolding trim_end
trim s = trim_end (skip_space s)

-- The rest of `/\s*\([^()]*\)\s*$/` after the opening parenthesis, up to the end of the text.
unfoldable pub closes_group : Text → Bool
unfolding skip_space
closes_group [] = false
closes_group (c ∷ s) =
    let rest = closes_group s in
    if c == b')' then is_empty (skip_space s) else if c == b'(' then false else rest

-- Whether the whole of the text matches `/\s*\([^()]*\)\s*$/`.
unfoldable pub is_group : Text → Bool
unfolding closes_group
is_group s = elim (skip_space s) [
  | [] ↦ false
  | c ∷ r ↦ if c == b'(' then closes_group r else false
]

-- `s.replace(/\s*\([^()]*\)\s*$/, "")`: the leftmost match goes.
unfoldable pub drop_group : Text → Text
unfolding is_group
drop_group [] = []
drop_group (c ∷ s) = if is_group (c ∷ s) then [] else c ∷ drop_group s

unfoldable pub clean_name : Text → Text
unfolding drop_group trim
clean_name s = trim (drop_group s)

-- The hash of `hashStyle`, as the pattern of its int32.
abbrev pub i32_mod : ℕ
i32_mod = 2 ^ 32

unfoldable pub hash_from : ℕ → Text → ℕ
hash_from h [] = h
hash_from h (c ∷ s) = hash_from ((h * 31 + c) % i32_mod) s

abbrev pub signed32 : ℕ → ℤ
signed32 w = if ltb w (2 ^ 31) then pos w else negsuc (2 ^ 32 - w - 1)

unfoldable pub hue_of : ℕ → ℕ
hue_of w = pos_part ((signed32 w %ℤ 360 +ℤ pos 360) %ℤ 360)

-- `Math.max(-1, Math.min(k - 3, 9 - k, 1))` with k in thirtieths: the parts above and below 0.
abbrev pub ramp_up : ℕ → ℕ
ramp_up k = min (min (k - 90) (270 - k)) 30

abbrev pub ramp_down : ℕ → ℕ
ramp_down k = min (max (90 - k) (k - 270)) 30

-- `Math.round(255 * f(n))` of `hslToHex(h, s, l)`, with s and l in percent and no rounding before
-- the last.
unfoldable pub channel : ℕ → ℕ → ℕ → ℕ → ℕ
channel h s l n =
    let k = (30 * n + h) % 360 in
    let a = s * min l (100 - l) in
    (510 * (3000 * l + a * ramp_down k - a * ramp_up k) + 300000) / 600000

abbrev pub hex_digit : ℕ → ℕ
hex_digit d = if ltb d 10 then 48 + d else 87 + d

-- `x.toString(16).padStart(2, "0")` of a byte.
abbrev pub hex2 : ℕ → Text
hex2 x = hex_digit (x / 16) ∷ hex_digit (x % 16) ∷ []

unfoldable pub hsl_to_hex : ℕ → ℕ → ℕ → Text
unfolding channel
hsl_to_hex h s l = b'#' ∷ hex2 (channel h s l 0) ++ hex2 (channel h s l 8) ++ hex2 (channel h s l 4)

unfoldable pub hash_style : Text → OpStyle
unfolding hash_from hue_of hsl_to_hex
hash_style seed = record { bg = hsl_to_hex (hue_of (hash_from 0 seed)) 58 40; fg = codes "#ffffff" }

module _ (to_upper : Text → Text) where
  -- `for (const a of …) m[a.toUpperCase()] = op`.
  unfoldable pub add_aliases :
      Operator → List Text → List (Text × Operator) → List (Text × Operator)
  add_aliases op [] m = m
  add_aliases op (a ∷ as') m = add_aliases op as' (Dict.insert (to_upper a) op m)

  unfoldable pub add_operators :
      List (Text × OpDef) → List (Text × Operator) → List (Text × Operator)
  unfolding add_aliases
  add_operators [] m = m
  add_operators ((key, def) ∷ defs) m =
      let op : Operator = record { key = key; label = def.label; style = def.style } in
      add_operators defs (add_aliases op (key ∷ def.aliases) m)

  unfoldable pub by_alias : List (Text × Operator)
  unfolding add_operators
  by_alias = add_operators operators []

  unfoldable pub make : Text → Operator
  make label = record { key = to_upper label; label = label; style = hash_style (to_upper label) }

  -- `BY_ALIAS[name.toUpperCase()] ?? make(name)`.
  unfoldable pub known_or_made : Text → Operator
  unfolding by_alias make
  known_or_made name = elim (Dict.lookup (to_upper name) by_alias) [
    | none ↦ make name
    | some op ↦ op
  ]

  unfoldable pub resolve_operator : Text → Option Text → Operator
  resolve_operator dataowner operator =
      let name = clean_name (elim operator [ none ↦ [] | some o ↦ o ]) in
      let code = trim dataowner in
      if is_empty name
      then (if is_empty code
          then record { key = []; label = []; style = default_op }
          else known_or_made code)
      else known_or_made name

  unfoldable pub operator_style : Text → OpStyle
  operator_style dataowner = elim (Dict.lookup (to_upper dataowner) by_alias) [
    | none ↦ default_op
    | some op ↦ op.style
  ]

  unfoldable pub operator_color : Text → Text
  unfolding operator_style
  operator_color dataowner = (operator_style dataowner).bg

-- The table of the type keys, and the lookup with its default.
unfoldable pub type_key_of : Text → Text
type_key_of vehicle_type =
    if text_eq vehicle_type (codes "bus")
    then codes "type.bus"
    else if text_eq vehicle_type (codes "tram")
    then codes "type.tram"
    else if text_eq vehicle_type (codes "metro")
    then codes "type.metro"
    else if text_eq vehicle_type (codes "train")
    then codes "type.train"
    else if text_eq vehicle_type (codes "ferry")
    then codes "type.ferry"
    else codes "type.vehicle"
