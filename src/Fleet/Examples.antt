-- ===== src/Fleet/Examples.antt =====
-- The theorems on the vehicle store at two frames, a snapshot and a delta.
use ovlive_platform.Prelude.Dict
use ovlive_platform.Prelude.{
  ℕ, ◌≡◌, refl, false, ◌&&◌, ◌||◌, none, [], ◌∷◌, map, if◌then◌else◌, any, text_eq, codes, Text,
}
use ovlive_platform.Prelude.Dict.{lookup}
use ovlive_platform.Samples.{snapshot, delta}
use ovlive_platform.Fleet.Defs.{VehicleStore, apply, includes, apply_frame, new_store, flush}
use ovlive_platform.Fleet.Contents.{
  entered_as, lookup-apply_frame, moved_as, apply-IsShown, IsShown,
}
use ovlive_platform.Fleet.Events.{absent, apply_frame_reports, gone, back}
use ovlive_platform.Fleet.Flush.{frames_coalesce}

abbrev same_case : Text → Text
same_case s = s

-- A store that has the first frame, with the bus selected.
abbrev loaded : VehicleStore ℕ
loaded = apply same_case 1000 snapshot (record new_store { selected_ids = codes "GVB:2" ∷ [] })

lookup-apply_frame_example :
    Dict.lookup (codes "CXX:1") (apply_frame same_case delta loaded).vehicles ≡ (
      if includes delta.left (codes "CXX:1")
      then none
      else moved_as delta.moved (codes "CXX:1") (
          entered_as delta.entered
            (codes "CXX:1")
            (if delta.is_snapshot then none else Dict.lookup (codes "CXX:1") loaded.vehicles)))
lookup-apply_frame_example = lookup-apply_frame same_case delta loaded (codes "CXX:1")

apply_frame_reports_example :
    (gone (codes "GVB:2") (apply_frame same_case delta loaded) ≡ (
      gone (codes "GVB:2") loaded
      || (includes loaded.selected_ids (codes "GVB:2")
          && (includes delta.left (codes "GVB:2")
              || (delta.is_snapshot
                  && absent (
                      Dict.lookup
                        (codes "GVB:2")
                        (apply_frame same_case delta loaded).vehicles))))))
    × (back (codes "GVB:2") (apply_frame same_case delta loaded) ≡ (
        back (codes "GVB:2") loaded
        || (includes loaded.selected_ids (codes "GVB:2")
            && any (λ v. text_eq v.id (codes "GVB:2")) delta.entered)))
apply_frame_reports_example = apply_frame_reports same_case delta loaded (codes "GVB:2")

apply-IsShown_example : IsShown same_case (apply same_case 1000 snapshot new_store)
unfolding new_store Dict.lookup
apply-IsShown_example = apply-IsShown same_case 1000 snapshot new_store (λ id. refl)

frames_coalesce_example :
    ((apply same_case 1100 delta (apply same_case 1000 snapshot new_store)).timer
      ≡ (apply same_case 1000 snapshot new_store).timer)
    × ((flush 1250 (apply same_case 1100 delta (apply same_case 1000 snapshot new_store))).flushed
        ≡ map
            (λ e. e.1)
            (apply same_case 1100 delta (apply same_case 1000 snapshot new_store)).features
          ∷ (new_store {R = ℕ}).flushed)
    × ((flush 1250 (apply same_case 1100 delta (apply same_case 1000 snapshot new_store))).dirty
        ≡ false)
unfolding new_store
frames_coalesce_example =
    frames_coalesce same_case 1000 1100 1250 snapshot delta new_store refl refl
