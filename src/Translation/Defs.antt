-- ===== src/Translation/Defs.antt =====
-- packages/shared/src/i18n.ts: `DICTS` and `makeT`. `String.prototype.replace` with a text as
-- pattern replaces the first occurrence and expands the patterns `$$`, `$&`, `` $` `` and `$'` of
-- the replacement. The variables are given as texts, in the order of their keys.
use ovlive_platform.Prelude.Dict
use ovlive_platform.Prelude.{
  String, Option, none, some, List, [], ◌∷◌, ◌++◌, if◌then◌else◌, ◌==◌, Text, codes,
}
use ovlive_platform.Prelude.Dict.{lookup}
use ovlive_platform.Translation.Dutch.{nl}
use ovlive_platform.Translation.English.{en}

pub data Lang : Type 0 where
  dutch english : Lang

unfoldable pub texts : List (String × String) → List (Text × Text)
texts [] = []
texts ((k, s) ∷ m) = (codes k, codes s) ∷ texts m

unfoldable pub dicts : Lang → List (Text × Text)
dicts dutch = texts nl
dicts english = texts en

-- The text after a prefix.
unfoldable pub strip_prefix : Text → Text → Option Text
strip_prefix [] s = some s
strip_prefix (p ∷ ps) [] = none
strip_prefix (p ∷ ps) (c ∷ s) = let rest = strip_prefix ps s in if p == c then rest else none

-- The text before and after the first occurrence of a pattern.
unfoldable pub split_at_first : Text → Text → Option (Text × Text)
unfolding strip_prefix
split_at_first pattern_ [] = elim (strip_prefix pattern_ []) [
  | none ↦ none
  | some after ↦ some ([], after)
]
split_at_first pattern_ (c ∷ s) =
    let rest = split_at_first pattern_ s in
    elim (strip_prefix pattern_ (c ∷ s)) [
      | some after ↦ some ([], after)
      | none ↦ elim rest [ none ↦ none | some (before, after) ↦ some (c ∷ before, after) ]
    ]

-- The replacement with its `$` patterns expanded.
unfoldable pub expand : Text → Text → Text → Text → Text
expand before matched after [] = []
expand before matched after (c ∷ []) = c ∷ []
expand before matched after (c ∷ d ∷ s) =
    let rest = expand before matched after s in
    let next = expand before matched after (d ∷ s) in
    if c == 36
    then (if d == 36
        then 36 ∷ rest
        else if d == 38
        then matched ++ rest
        else if d == 96
        then before ++ rest
        else if d == 39
        then after ++ rest
        else c ∷ next)
    else c ∷ next

unfoldable pub replace_first : Text → Text → Text → Text
unfolding split_at_first expand
replace_first pattern_ value s = elim (split_at_first pattern_ s) [
  | none ↦ s
  | some (before, after) ↦ before ++ expand before pattern_ after value ++ after
]

-- `{k}`.
abbrev pub braces : Text → Text
braces k = 123 ∷ k ++ 125 ∷ []

unfoldable pub interpolate : List (Text × Text) → Text → Text
unfolding replace_first
interpolate [] s = s
interpolate ((k, v) ∷ vars) s = interpolate vars (replace_first (braces k) v s)

-- `DICTS[lang][key] ?? EN[key] ?? key`.
unfoldable pub template : Lang → Text → Text
unfolding dicts
template lang key = elim (Dict.lookup key (dicts lang)) [
  | some s ↦ s
  | none ↦ elim (Dict.lookup key (dicts english)) [ some s ↦ s | none ↦ key ]
]

unfoldable pub make_t : Lang → Text → List (Text × Text) → Text
unfolding template interpolate
make_t lang key vars = interpolate vars (template lang key)
