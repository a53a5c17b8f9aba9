-- ===== src/Wire/Coherence.antt =====
-- Full states and deltas from the wire.
use ovlive_platform.Prelude.{◌≡◌, refl, ◌↔◌, false, none, Bool, Option, arith}
use ovlive_platform.Numbers.{Numbers}
use ovlive_platform.VehicleLive.Defs.{merge_move}
use ovlive_platform.Wire.Defs.{WireProgress, to_vehicle, or_default, WireVehicle, to_move, speed_of}

module _ (num : Numbers) where
  open num use {R}

  speed_of-none :
      (known : Option Bool) (speed : Option R)
      → (speed_of num known speed ≡ none) ↔ (or_default false known ≡ false)
  unfolding speed_of
  speed_of-none known speed = ground arith

  -- Merging a delta that is read from the wire into a vehicle that is read from the wire is reading
  -- the vehicle with the delta's values on the wire.
  -- A vehicle has no speed exactly if the wire does not know one; a known speed may be 0.
  pub read_then_merge :
      (s : WireVehicle R) (m : WireProgress R)
      → (merge_move (to_move num m) (to_vehicle num s) ≡ to_vehicle num (record s { progress = m }))
        × (((to_vehicle num s).speed_kmh ≡ none)
            ↔ (or_default false s.progress.speed_known ≡ false))
        × (((to_move num m).speed_kmh ≡ none) ↔ (or_default false m.speed_known ≡ false))
  unfolding merge_move to_move to_vehicle
  read_then_merge s m = (
    refl,
    speed_of-none s.progress.speed_known s.progress.speed_kmh,
    speed_of-none m.speed_known m.speed_kmh,
  )
