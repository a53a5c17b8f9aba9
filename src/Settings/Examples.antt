-- ===== src/Settings/Examples.antt =====
-- The theorems on the settings at a store with two preferences; a JSON text is its value's kind.
use ovlive_platform.Prelude.Dict
use ovlive_platform.Prelude.{
  ℕ, ◌≡◌, refl, ◌&&◌, Option, none, some, [], ◌∷◌, arith, ◌==◌, if◌then◌else◌, Text, codes, text_eq,
}
use ovlive_platform.Prelude.Dict.{lookup}
use ovlive_platform.Numbers.{whole_degrees}
use ovlive_platform.Settings.Json.{items, array_of, property, member_of, Json}
use ovlive_platform.Settings.Defs.{
  view_json, set_saved_filters, type_of_number, is_nil, filters_of, owners_in, key_multi,
  get_saved_filters, SavedFilters, web_filters_of, filters_json, list_of, read_json, key_filters,
  Store, get_web_filters, types_in, unique_after, type_of_json, SavedView, owner_of_json,
}
use ovlive_platform.Settings.Valid.{read_filters-IsValid, IsValid, IsUnique}
use ovlive_platform.Settings.Roundtrip.{saved_filters_kept, IsExact}

abbrev two_owners : SavedFilters
two_owners = record { types = 1 ∷ 4 ∷ []; owners = codes "GVB" ∷ codes "NS" ∷ [] }

-- A codec that knows the one text "F" of those filters.
abbrev write : Json ℕ → Text
write v = codes "F"

abbrev read_as : Json ℕ → Text → Option (Json ℕ)
read_as v [] = none
read_as v (c ∷ s) = some v

abbrev stored : Store
stored = (key_filters, codes "F") ∷ (key_multi, codes "1") ∷ []

whole_degrees-IsExact : IsExact whole_degrees
whole_degrees-IsExact a b h k = refl

abbrev parse_filters : Text → Option (Json ℕ)
parse_filters = read_as (filters_json whole_degrees two_owners)

saved_filters_kept_example :
    (get_saved_filters whole_degrees parse_filters write
        (set_saved_filters whole_degrees parse_filters write two_owners [])
      ≡ (if is_nil two_owners.types && is_nil two_owners.owners then none else some two_owners))
    × (get_web_filters whole_degrees parse_filters write
          (set_saved_filters whole_degrees parse_filters write two_owners [])
        ≡ (if is_nil two_owners.types && is_nil two_owners.owners then none else some two_owners))
unfolding text_eq
saved_filters_kept_example =
    saved_filters_kept whole_degrees whole_degrees-IsExact parse_filters write two_owners [] refl
      refl (ground arith) (refl, (refl, tt)) (refl, (refl, tt))

read_filters-IsValid_example :
    IsValid two_owners
    × (IsValid two_owners
        × IsUnique (λ a b. a == b) two_owners.types
        × IsUnique text_eq two_owners.owners)
unfolding get_saved_filters get_web_filters read_json filters_of web_filters_of filters_json
    types_in owners_in list_of property member_of items array_of type_of_json type_of_number
    owner_of_json text_eq Dict.lookup unique_after
read_filters-IsValid_example =
    read_filters-IsValid whole_degrees parse_filters write stored two_owners two_owners refl refl

abbrev home_view : SavedView ℕ
home_view = record { lng = 5; lat = 52; zoom = 12 }

abbrev parse_view : Text → Option (Json ℕ)
parse_view = read_as (view_json whole_degrees home_view)
