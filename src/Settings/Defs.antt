-- ===== src/Settings/Defs.antt =====
-- apps/mobile/lib/config.ts and apps/web/app/lib/config.ts: the preferences in a store of texts
-- by key (MMKV, localStorage). `JSON.parse` gives `none` where it throws; it and `JSON.stringify`
-- are parameters. A failing store is not modelled: every write is kept.
use ovlive_platform.Prelude.Dict
use ovlive_platform.Prelude.{
  ℕ, Bool, true, false, ◌&&◌, not, Option, none, some, List, [], ◌∷◌, map, ltb, leb, ◌==◌,
  if◌then◌else◌, any, take, length, codes, text_eq, is_empty, Text, ◌||◌,
}
use ovlive_platform.Prelude.Dict.{lookup, erase, insert}
use ovlive_platform.Numbers.{Numbers}
use ovlive_platform.Settings.Json.{
  number, null, no_members, array_of, array, text, member, property, object, items, Json,
}

abbrev pub Store : Type 0
Store = List (Text × Text)

abbrev pub key_view : Text
key_view = codes "ovlive_view"

abbrev pub key_appearance : Text
key_appearance = codes "ovlive_appearance"

abbrev pub key_multi : Text
key_multi = codes "ovlive_multiselect"

abbrev pub key_stops : Text
key_stops = codes "ovlive_stops"

abbrev pub key_stop_numbers : Text
key_stop_numbers = codes "ovlive_stop_numbers"

abbrev pub key_filters : Text
key_filters = codes "ovlive_filters"

pub data Appearance : Type 0 where
  system light dark : Appearance

-- The text is the one stored.
abbrev pub holds : Text → Text → Store → Bool
holds key value kv = elim (Dict.lookup key kv) [ none ↦ false | some v ↦ text_eq v value ]

unfoldable pub get_saved_appearance : Store → Appearance
get_saved_appearance kv =
    if holds key_appearance (codes "light") kv
    then light
    else if holds key_appearance (codes "dark") kv
    then dark
    else system

abbrev pub appearance_text : Appearance → Text
appearance_text system = codes "system"
appearance_text light = codes "light"
appearance_text dark = codes "dark"

unfoldable pub set_saved_appearance : Appearance → Store → Store
set_saved_appearance a kv = Dict.insert key_appearance (appearance_text a) kv

abbrev pub flag_text : Bool → Text
flag_text on = if on then codes "1" else codes "0"

unfoldable pub get_saved_multi_select : Store → Bool
get_saved_multi_select kv = holds key_multi (codes "1") kv

unfoldable pub set_saved_multi_select : Bool → Store → Store
set_saved_multi_select on kv = Dict.insert key_multi (flag_text on) kv

unfoldable pub get_saved_show_stops : Store → Bool
get_saved_show_stops kv = not (holds key_stops (codes "0") kv)

unfoldable pub set_saved_show_stops : Bool → Store → Store
set_saved_show_stops on kv = Dict.insert key_stops (flag_text on) kv

unfoldable pub get_saved_stop_numbers : Store → Bool
get_saved_stop_numbers kv = not (holds key_stop_numbers (codes "0") kv)

unfoldable pub set_saved_stop_numbers : Bool → Store → Store
set_saved_stop_numbers on kv = Dict.insert key_stop_numbers (flag_text on) kv

pub record SavedFilters : Type 0 where
  pub types : List ℕ
  pub owners : List Text

pub record SavedView (R : Type 0) : Type 0 where
  pub lng : R
  pub lat : R
  pub zoom : R

-- `o.length > 0 && o.length <= 16`.
abbrev pub is_owner : Text → Bool
is_owner o = ltb 0 (length o) && leb (length o) 16

-- The elements that a test turns into values, in their order.
abbrev pub filter_map : {A B : Type 0} → (A → Option B) → List A → List B
filter_map f [] = []
filter_map f (a ∷ rest) = elim (f a) [ none ↦ filter_map f rest | some b ↦ b ∷ filter_map f rest ]

-- `!xs.length`.
abbrev pub is_nil : {A : Type 0} → List A → Bool
is_nil [] = true
is_nil (x ∷ xs) = false

-- `[...new Set(xs)]` on the elements after those in `seen`: the first of equal ones stays.
unfoldable pub unique_after : {A : Type 0} → (A → A → Bool) → List A → List A → List A
unique_after same seen [] = []
unique_after same seen (x ∷ xs) =
    let rest = unique_after same (x ∷ seen) xs in
    let again = unique_after same seen xs in if any (λ y. same y x) seen then again else x ∷ rest

module _ (num : Numbers) where
  open num use {R, literal, at_most, less, sub}

  -- `===` of two numbers.
  abbrev pub same_number : R → R → Bool
  same_number a b = at_most a b && at_most b a

  -- The vehicle type that a number is, if it is a valid one (1 to 5).
  unfoldable pub type_of_number : R → Option ℕ
  type_of_number r =
      if same_number r (literal 1)
      then some 1
      else if same_number r (literal 2)
      then some 2
      else if same_number r (literal 3)
      then some 3
      else if same_number r (literal 4)
      then some 4
      else if same_number r (literal 5)
      then some 5
      else none

  unfoldable pub type_of_json : Json R → Option ℕ
  unfolding type_of_number
  type_of_json (number r) = type_of_number r
  type_of_json _ = none

  unfoldable pub owner_of_json : Json R → Option Text
  owner_of_json (text o) = if is_owner o then some o else none
  owner_of_json _ = none

  -- `Array.isArray(v.name) ? … : []`.
  unfoldable pub list_of : Option (Json R) → List (Json R)
  list_of (some (array vs)) = items vs
  list_of _ = []

  unfoldable pub types_in : Json R → List ℕ
  types_in v = filter_map type_of_json (list_of (property (codes "types") v))

  unfoldable pub owners_in : Json R → List Text
  owners_in v = filter_map owner_of_json (list_of (property (codes "owners") v))

  -- The value stored, as it is written.
  unfoldable pub filters_json : SavedFilters → Json R
  filters_json f = object (
      member (codes "types") (array (array_of (map (λ t. number (literal t)) f.types)))
        (member (codes "owners") (array (array_of (map text f.owners))) no_members))

  -- The mobile app: `v.types` throws on null.
  unfoldable pub filters_of : Json R → Option SavedFilters
  filters_of null = none
  filters_of v = some (record { types = types_in v; owners = take 64 (owners_in v) })

  -- The web app: `v?.types` of null is undefined; duplicates are dropped, and filters that
  -- select nothing are none.
  unfoldable pub web_filters_of : Json R → Option SavedFilters
  web_filters_of v =
      if is_nil (types_in v) && is_nil (owners_in v)
      then none
      else some (record {
        types = unique_after (λ a b. a == b) [] (types_in v);
        owners = take 64 (unique_after text_eq [] (owners_in v));
      })

  unfoldable pub view_json : SavedView R → Json R
  view_json v = object (
      member (codes "lng") (number v.lng)
        (member (codes "lat") (number v.lat) (member (codes "zoom") (number v.zoom) no_members)))

  -- The three fields of a view, where all are numbers.
  unfoldable pub view_of :
      Option (Json R) → Option (Json R) → Option (Json R) → Option (SavedView R)
  view_of (some (number lng)) (some (number lat)) (some (number zoom)) =
      some (record { lng = lng; lat = lat; zoom = zoom })
  view_of _ _ _ = none

  unfoldable pub view_in : Json R → Option (SavedView R)
  view_in v =
      view_of (property (codes "lng") v) (property (codes "lat") v) (property (codes "zoom") v)

  abbrev pub minus : ℕ → R
  minus n = sub (literal 0) (literal n)

  unfoldable pub out_of_range : SavedView R → Bool
  out_of_range v =
      less v.lng (minus 180)
      || less (literal 180) v.lng
      || less v.lat (minus 90)
      || less (literal 90) v.lat
      || less v.zoom (literal 0)
      || less (literal 24) v.zoom

  module _ (parse : Text → Option (Json R)) (stringify : Json R → Text) where
    -- `getItem(key)` and `JSON.parse`: `none` where there is nothing, where it is empty, or where
    -- it does not parse.
    unfoldable pub read_json : Text → Store → Option (Json R)
    read_json key kv = elim (Dict.lookup key kv) [
      | none ↦ none
      | some raw ↦ if is_empty raw then none else parse raw
    ]

    unfoldable pub get_saved_filters : Store → Option SavedFilters
    get_saved_filters kv = elim (read_json key_filters kv) [ none ↦ none | some v ↦ filters_of v ]

    unfoldable pub set_saved_filters : SavedFilters → Store → Store
    set_saved_filters f kv =
        if is_nil f.types && is_nil f.owners
        then Dict.erase key_filters kv
        else Dict.insert key_filters (stringify (filters_json f)) kv

    unfoldable pub get_web_filters : Store → Option SavedFilters
    get_web_filters kv = elim (read_json key_filters kv) [ none ↦ none | some v ↦ web_filters_of v ]

    -- The web app: any three numbers.
    unfoldable pub get_web_view : Store → Option (SavedView R)
    get_web_view kv = elim (read_json key_view kv) [ none ↦ none | some v ↦ view_in v ]

    -- The mobile app.
    unfoldable pub get_saved_view : Store → Option (SavedView R)
    get_saved_view kv = elim (get_web_view kv) [
      | none ↦ none
      | some v ↦ if out_of_range v then none else some v
    ]

    unfoldable pub set_saved_view : SavedView R → Store → Store
    set_saved_view v kv = Dict.insert key_view (stringify (view_json v)) kv
