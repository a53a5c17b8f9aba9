-- ===== src/MobileMap/Run.antt =====
-- apps/mobile/components/map/LiveMap.tsx: the runs of the map.
use ovlive_platform.Numbers.{Numbers}
use ovlive_platform.Types.{NormalizedUpdate}
use ovlive_platform.Live.Defs.{LiveClient, ReadyState}
use ovlive_platform.Settings.Defs.{SavedView}
use ovlive_platform.Rest.Defs.{MarkerKey}
use ovlive_platform.WebMap.Stops.{StopsResponse}
use ovlive_platform.MobileMap.Images.{Drawn}
use ovlive_platform.MobileMap.Defs.{
  ViewState, MapProps, MobileMap, on_flush_timer, on_stops, on_stops_failed,
}
use ovlive_platform.MobileMap.Events.{
  StopHit, on_app_state, on_region_will_change, on_region_did_change, on_press, place_start, locate,
}
use ovlive_platform.MobileMap.Renders.{Changed, mount, render, on_frame}
use ovlive_platform.Prelude.{ℕ, ◌≡◌, ◌⊎◌, Bool, true, Option, List, Text}
use ovlive_platform.Live.Step as LiveRun

module _ {I : Type 0} (num : Numbers) (draw : MarkerKey → Drawn I)
    (format_to_parts : ℕ → List (Text × Text)) (round : num.R → ℕ) (pow2 : num.R → num.R)
    (to_upper : Text → Text) where
  open num use {R}

  -- A step of the map: a render with what React found changed, a frame or another event of the
  -- live client, a timer, an event of the map library or of the app, or an answer of the server.
  pub data Step (m : MobileMap R I) : MobileMap R I → Type 0 where
    renders :
        (ch : Changed) (now : ℕ) (p : MapProps R)
        → (ch.filters ≡ true) ⊎ (p.filters ≡ m.props.filters)
        → (ch.selected_ids ≡ true) ⊎ (p.selected_ids ≡ m.props.selected_ids)
        → Step m (render num draw format_to_parts round ch now p m)
    receives :
        (now i : ℕ) (u : Option (NormalizedUpdate R))
        → (m.client.socket i).state ≡ ReadyState.opened
        → Step m (on_frame num draw format_to_parts round to_upper now u m)
    browses :
        (d : LiveClient R)
        → LiveRun.Step m.client d
        → d.view ≡ m.client.view
        → d.pinned ≡ m.client.pinned
        → Step m (record m { client = d })
    flushes : (now : ℕ) → Step m (on_flush_timer num draw format_to_parts now m)
    will_change : (user : Bool) → Step m (on_region_will_change user m)
    did_change : (v : ViewState R) → Step m (on_region_did_change num round v m)
    app_state : (active : Bool) → Step m (on_app_state active m)
    presses : (hit : Option Text) (stop : Option (StopHit R)) → Step m (on_press hit stop m)
    places : (start : SavedView R) → Step m (place_start num start m)
    locates : (fix : Option (R × R)) → Step m (locate num fix m)
    stops : (n : ℕ) (res : StopsResponse R) → Step m (on_stops n res m)
    no_stops : (n : ℕ) → Step m (on_stops_failed n m)

  pub data Reach : MobileMap R I → Type 0 where
    start :
        (now : ℕ) (p : MapProps R) (saved : Option (SavedView R))
        → Reach (mount num draw format_to_parts round pow2 now p saved)
    next : {m n : MobileMap R I} → Reach m → Step m n → Reach n
