-- ===== src/VehicleLive/Ended.antt =====
-- The hook of one vehicle and the store of the whole fleet on the same frames.
use ovlive_platform.Prelude.Dict
use ovlive_platform.Prelude.{
  ◌≡◌, refl, ◌⊎◌, true, false, Option, none, some, List, [], ◌∷◌, arith, if◌then◌else◌, find, Text,
  text_eq,
}
use ovlive_platform.Prelude.Dict.{lookup}
use ovlive_platform.Types.{MoveDelta, Vehicle, NormalizedUpdate}
use ovlive_platform.Fleet.Defs.{apply_frame, VehicleStore, assign_move}
use ovlive_platform.Fleet.Contents.{moved_as, entered_as, lookup-apply_frame}
use ovlive_platform.Fleet.Events.{absent}
use ovlive_platform.VehicleLive.Defs.{
  VehicleLive, is_none, on_live_update, set_moved, entered_of, moved_of, set_entered,
}

module _ {R : Type 0} where
  absent-moved_as :
      (ms : List (MoveDelta R)) (id : Text) (o : Option (Vehicle R))
      → absent (moved_as ms id o) ≡ absent o
  absent-moved_as [] id o = refl
  absent-moved_as (m ∷ ms) id none = ground (arith, absent-moved_as ms id none)
  absent-moved_as (m ∷ ms) id (some v) =
      ground (arith, absent-moved_as ms id (some v), absent-moved_as ms id (some (assign_move m v)))

  absent-entered_as :
      (vs : List (Vehicle R)) (id : Text) (o : Option (Vehicle R))
      → absent (entered_as vs id o)
        ≡ (if is_none (find (λ v. text_eq v.id id) vs) then absent o else false)
  absent-entered_as [] id o = refl
  absent-entered_as (v ∷ vs) id o =
      ground (arith, absent-entered_as vs id o, absent-entered_as vs id (some v))

  ended-set_moved : (m : Option (MoveDelta R)) (h : VehicleLive R) → (set_moved m h).ended ≡ h.ended
  unfolding set_moved
  ended-set_moved none h = refl
  ended-set_moved (some m) h = refl

  ended-set_entered :
      (o : Option (Vehicle R)) (h : VehicleLive R)
      → (set_entered o h).ended ≡ (if is_none o then h.ended else false)
  unfolding set_entered
  ended-set_entered none h = refl
  ended-set_entered (some v) h = refl

  -- The hook takes the vehicle for ended exactly when the store does not have it: if they agree
  -- on that, or the frame is a snapshot, they agree on it after the frame.
  pub ended_iff_absent :
      (to_upper : Text → Text) (id : Text) (u : NormalizedUpdate R) (h : VehicleLive R)
      (s : VehicleStore R)
      → ((u.is_snapshot ≡ true) ⊎ (h.ended ≡ absent (Dict.lookup id s.vehicles)))
      → (on_live_update id u h).ended ≡ absent (Dict.lookup id (apply_frame to_upper u s).vehicles)
  unfolding on_live_update
  ended_iff_absent to_upper id u h s agree =
      let o = if u.is_snapshot then none else Dict.lookup id s.vehicles in
      let e = lookup-apply_frame to_upper u s id in
      let f = absent-moved_as u.moved id (entered_as u.entered id o) in
      let g = absent-entered_as u.entered id o in
      let k = ended-set_moved (moved_of id u) (set_entered (entered_of id u) h) in
      let l = ended-set_entered (entered_of id u) h in ground (arith, e, f, g, k, l)
