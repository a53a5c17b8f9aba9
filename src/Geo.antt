-- ===== src/Geo.antt =====
-- apps/mobile/lib/geo.ts and distanceMeters of packages/shared/src/format.ts.
use ovlive_platform.Numbers.{Numbers, NumberLaws}
use ovlive_platform.Types.{BBox}
use ovlive_platform.Prelude.{◌≡◌, refl, Bool, true, false, ◌&&◌, Option, none, some}

module _ (num : Numbers) where
  open num use {R, literal, add, sub, mul, div, cos, sqrt, at_most, is_finite}

  -- The bounds of the map library: west, south, east, north.
  unfoldable pub bounds_to_bbox : R × R × R × R → BBox R
  bounds_to_bbox (west, south, east, north) = record {
    min_lat = south;
    min_lon = west;
    max_lat = north;
    max_lon = east;
  }

  unfoldable pub pad_bbox : BBox R → R → BBox R
  pad_bbox b f =
      let d_lat = mul (sub b.max_lat b.min_lat) f in
      let d_lon = mul (sub b.max_lon b.min_lon) f in
      record {
        min_lat = sub b.min_lat d_lat;
        min_lon = sub b.min_lon d_lon;
        max_lat = add b.max_lat d_lat;
        max_lon = add b.max_lon d_lon;
      }

  unfoldable pub covers : Option (BBox R) → BBox R → Bool
  covers none view = false
  covers (some have) view =
      at_most have.min_lat view.min_lat
      && at_most have.min_lon view.min_lon
      && at_most view.max_lat have.max_lat
      && at_most view.max_lon have.max_lon

  unfoldable pub distance_meters : R → R → R → R → R
  distance_meters lat1 lon1 lat2 lon2 =
      let dlat = sub lat2 lat1 in
      let dlon = mul (sub lon2 lon1) (cos (div (mul lat1 num.pi) (literal 180))) in
      mul (literal 111320) (sqrt (add (mul dlat dlat) (mul dlon dlon)))

  -- The margins that the padding adds are finite, as the corners and the factor are.
  pub record IsPaddable (b : BBox R) (f : R) : Type 0 where
    pub corners :
        (is_finite b.min_lat ≡ true)
        × (is_finite b.min_lon ≡ true)
        × (is_finite b.max_lat ≡ true)
        × (is_finite b.max_lon ≡ true)
    pub factor : (is_finite f ≡ true) × (at_most (literal 0) f ≡ true)
    pub sizes :
        (is_finite (sub b.max_lat b.min_lat) ≡ true) × (is_finite (sub b.max_lon b.min_lon) ≡ true)
    pub margins :
        (is_finite (mul (sub b.max_lat b.min_lat) f) ≡ true)
        × (is_finite (mul (sub b.max_lon b.min_lon) f) ≡ true)
    pub upright : (at_most b.min_lat b.max_lat ≡ true) × (at_most b.min_lon b.max_lon ≡ true)

  -- A box that has been fetched with its padding covers the view that it was fetched for, so that
  -- standing still asks for nothing again.
  pub covers-pad_bbox :
      (laws : NumberLaws num) (b : BBox R) (f : R)
      → IsPaddable b f
      → covers (some (pad_bbox b f)) b ≡ true
  unfolding covers pad_bbox
  covers-pad_bbox laws b f h =
      let d_lat = sub b.max_lat b.min_lat in
      let d_lon = sub b.max_lon b.min_lon in
      let lat_pos =
        laws.mul_nonneg d_lat f h.sizes.0 h.factor.0
          (laws.sub_nonneg b.min_lat b.max_lat h.corners.0 h.corners.2 h.upright.0) h.factor.1 in
      let lon_pos =
        laws.mul_nonneg d_lon f h.sizes.1 h.factor.0
          (laws.sub_nonneg b.min_lon b.max_lon h.corners.1 h.corners.3 h.upright.1) h.factor.1 in
      rw
        (
          laws.sub-at_most b.min_lat (mul d_lat f) h.corners.0 h.margins.0 lat_pos,
          laws.sub-at_most b.min_lon (mul d_lon f) h.corners.1 h.margins.1 lon_pos,
          laws.at_most-add b.max_lat (mul d_lat f) h.corners.2 h.margins.0 lat_pos,
          laws.at_most-add b.max_lon (mul d_lon f) h.corners.3 h.margins.1 lon_pos,
        )
        refl
