-- ===== src/VehicleLive/Examples.antt =====
-- The theorem on the stream of one vehicle at a snapshot that lacks it.
use ovlive_platform.Prelude.Dict
use ovlive_platform.Prelude.{ℕ, ◌≡◌, refl, inl, Text, codes}
use ovlive_platform.Prelude.Dict.{lookup}
use ovlive_platform.Samples.{snapshot}
use ovlive_platform.Fleet.Defs.{apply_frame, new_store}
use ovlive_platform.Fleet.Events.{absent}
use ovlive_platform.VehicleLive.Defs.{on_live_update, new_live}
use ovlive_platform.VehicleLive.Ended.{ended_iff_absent}

abbrev as_is : Text → Text
as_is s = s

ended_iff_absent_example :
    (on_live_update (codes "RET:3") snapshot (new_live {R = ℕ})).ended
    ≡ absent (Dict.lookup (codes "RET:3") (apply_frame as_is snapshot new_store).vehicles)
ended_iff_absent_example =
    ended_iff_absent as_is (codes "RET:3") snapshot new_live new_store (inl refl)
