-- ===== src/MobileMap/Images.antt =====
-- apps/mobile/hooks/useMarkerImages.ts and bakeMarker of apps/mobile/lib/markerImages.ts: the
-- images of the markers, baked when they are needed. `I` is the type of an image, and drawing one
-- is a parameter.
use ovlive_platform.Prelude.Dict
use ovlive_platform.Prelude.{none, some, List, [], ◌∷◌, Text}
use ovlive_platform.Rest.Defs.{MarkerKey, parse_marker_key}

-- `draw` gives an image or null, or throws where the drawing library is not there.
pub data Drawn (I : Type 0) : Type 0 where
  drawn : I → Drawn I
  refused : Drawn I
  throws : Drawn I

pub record Images (I : Type 0) : Type 0 where
  pub cache : List (Text × I)
  pub have : List (Text × I)

unfoldable pub no_images : {I : Type 0} → Images I
no_images = record { cache = []; have = [] }

-- `{ ...have, ...added }`.
unfoldable pub spread : {I : Type 0} → List (Text × I) → List (Text × I) → List (Text × I)
spread [] have = have
spread ((k, i) ∷ added) have = spread added (Dict.insert k i have)

module _ {I : Type 0} (draw : MarkerKey → Drawn I) where
  unfoldable pub bake_marker : Text → List (Text × I) → Drawn I × List (Text × I)
  bake_marker key cache = elim (Dict.lookup key cache) [
    | some hit ↦ (drawn hit, cache)
    | none ↦ elim (parse_marker_key key) [
      | none ↦ (refused, cache)
      | some parsed ↦ elim (draw parsed) [
        | drawn i ↦ (drawn i, Dict.insert key i cache)
        | refused ↦ (refused, cache)
        | throws ↦ (throws, cache)
      ]
    ]
  ]

  -- The loop, with what it has added so far. Where a marker cannot be drawn at all, the keys are
  -- left to `onImageMissing`.
  unfoldable pub ensure_from : List Text → List (Text × I) → Images I → Images I
  unfolding bake_marker spread
  ensure_from [] added m = record m { have = spread added m.have }
  ensure_from (k ∷ ks) added m = elim (Dict.lookup k m.have) [
    | some _ ↦ ensure_from ks added m
    | none ↦
        let (img, cache) = bake_marker k m.cache in
        let m' = record m { cache = cache } in
        elim img [
          | drawn i ↦ ensure_from ks ((k, i) ∷ added) m'
          | refused ↦ ensure_from ks added m'
          | throws ↦ m'
        ]
  ]

  unfoldable pub ensure : List Text → Images I → Images I
  unfolding ensure_from
  ensure keys m = ensure_from keys [] m

  unfoldable pub on_image_missing : Text → Images I → Images I
  unfolding ensure
  on_image_missing image m = ensure (image ∷ []) m
