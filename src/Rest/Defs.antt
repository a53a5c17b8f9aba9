-- ===== src/Rest/Defs.antt =====
-- packages/api-types/src/rest.ts: `query` and the paths of the requests, with
-- `encodeURIComponent` and the printing of a number as parameters; and markerKey and
-- parseMarkerKey of apps/mobile/lib/markerImages.ts.
use ovlive_platform.Prelude.{
  ℕ, Bool, false, Option, none, some, List, [], ◌∷◌, ◌++◌, map, if◌then◌else◌, get_elem?, text_eq,
  Text, is_empty, codes, to_string,
}
use ovlive_platform.Split.{split_on, join_with}
use ovlive_platform.Types.{BBox}

-- The parameters that have a value, which is not empty.
unfoldable pub present : List (Text × Option Text) → List (Text × Text)
present [] = []
present ((k, none) ∷ params) = present params
present ((k, some v) ∷ params) = if is_empty v then present params else (k, v) ∷ present params

-- `VEHICLE_TYPE_LABEL`.
unfoldable pub vehicle_type_label : ℕ → Text
vehicle_type_label t =
    elim (get_elem?
      (codes "unknown"
        ∷ codes "bus"
        ∷ codes "tram"
        ∷ codes "metro"
        ∷ codes "train"
        ∷ codes "ferry"
        ∷ [])
      t) [ none ↦ codes "undefined" | some s ↦ s ]

-- `xs.length ? xs.join(",") : undefined`.
unfoldable pub joined : List Text → Option Text
joined [] = none
joined (x ∷ xs) = some (join_with b',' (x ∷ xs))

abbrev pub number_text : Option ℕ → Option Text
number_text none = none
number_text (some n) = some (to_string n)

module _ (encode : Text → Text) where
  abbrev pub encode_pair : Text × Text → Text
  encode_pair p = encode p.0 ++ b'=' ∷ encode p.1

  abbrev pub query_of : List Text → Text
  query_of [] = []
  query_of (p ∷ ps) = b'?' ∷ join_with b'&' (p ∷ ps)

  unfoldable pub query : List (Text × Option Text) → Text
  query params = query_of (map encode_pair (present params))

  unfoldable pub vehicle_detail : Text → Text
  vehicle_detail id = codes "/v1/vehicles/" ++ encode id

  unfoldable pub vehicle_trip : Text → Text
  vehicle_trip id = codes "/v1/vehicles/" ++ encode id ++ codes "/trip"

  unfoldable pub search_vehicles : Text → List ℕ → List Text → Option ℕ → Text
  search_vehicles search types owners limit =
      codes "/v1/vehicles"
      ++ query (
          (codes "search", some search)
          ∷ (codes "types", joined (map vehicle_type_label types))
          ∷ (codes "owners", joined owners)
          ∷ (codes "limit", number_text limit)
          ∷ [])

  unfoldable pub stops_in_viewport : {R : Type 0} → (R → Text) → BBox R → Option ℕ → Text
  stops_in_viewport print b limit =
      codes "/v1/stops/viewport"
      ++ query (
          (
            codes "bbox",
            some (
                join_with b','
                  (print b.min_lon ∷ print b.min_lat ∷ print b.max_lon ∷ print b.max_lat ∷ [])),
          )
          ∷ (codes "limit", number_text limit)
          ∷ [])

  unfoldable pub stop_departures : Text → Option ℕ → Option ℕ → Text
  stop_departures stop_id window limit =
      codes "/v1/stops/"
      ++ encode stop_id
      ++ codes "/departures"
      ++ query ((codes "window", number_text window) ∷ (codes "limit", number_text limit) ∷ [])

pub record MarkerKey : Type 0 where
  pub owner : Text
  pub line : Text
  pub dark : Bool
  pub selected : Bool

unfoldable pub marker_key : Text → Text → Bool → Bool → Text
marker_key owner line dark selected =
    let sel = if selected then codes "|sel" else [] in
    b'm' ∷ b'|' ∷ (owner ++ (b'|' ∷ (line ++ (b'|' ∷ (if dark then b'd' else b'l') ∷ sel))))

-- `parts[4] === "sel"`.
abbrev pub is_sel : List Text → Bool
is_sel [] = false
is_sel (s ∷ _) = text_eq s (codes "sel")

unfoldable pub key_of_parts : List Text → Option MarkerKey
key_of_parts (m ∷ owner ∷ line ∷ tone ∷ rest) =
    if text_eq m (codes "m")
    then some (record {
      owner = owner;
      line = line;
      dark = text_eq tone (codes "d");
      selected = is_sel rest;
    })
    else none
key_of_parts _ = none

unfoldable pub parse_marker_key : Text → Option MarkerKey
parse_marker_key key = key_of_parts (split_on b'|' key)
