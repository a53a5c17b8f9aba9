-- ===== src/MobileMap/Server.antt =====
-- apps/mobile/components/map/LiveMap.tsx: what the server is told, in every run.
use ovlive_platform.Numbers.{Numbers}
use ovlive_platform.Geo.{bounds_to_bbox}
use ovlive_platform.Live.Defs.{LiveClient, ReadyState, View, viewport_msg, open_socket}
use ovlive_platform.Live.Subscription.{last_viewport, server_up_to_date, current_msg}
use ovlive_platform.Rest.Defs.{MarkerKey}
use ovlive_platform.MobileMap.Told.{
  IsTold, view_of, Same-IsTold, client-IsTold, did_change-IsTold, app-IsTold,
}
use ovlive_platform.MobileMap.Effects.{frame-IsTold, render-IsTold, mount-IsTold}
use ovlive_platform.MobileMap.Images.{Drawn}
use ovlive_platform.MobileMap.Defs.{ViewState, MapProps, MobileMap}
use ovlive_platform.MobileMap.Same.{
  Same, on_press-Same, on_stops-Same, on_stops_failed-Same, on_region_will_change-Same, locate-Same,
  place_start-Same, on_flush_timer-Same,
}
use ovlive_platform.Prelude.{ℕ, ◌≡◌, refl, sym, ap, ◌∙◌, subst, some, List, Text}
use ovlive_platform.MobileMap.Run as Run

current_msg_viewed :
    {R : Type 0} (c : LiveClient R) (v : View R)
    → c.view ≡ some v
    → current_msg c ≡ some (viewport_msg v c.pinned)
current_msg_viewed c v e = rw e refl

module _ {I : Type 0} (num : Numbers) (draw : MarkerKey → Drawn I)
    (format_to_parts : ℕ → List (Text × Text)) (round : num.R → ℕ) (pow2 : num.R → num.R)
    (to_upper : Text → Text) where
  open num use {R}

  -- The map has told the client its view, and its vehicles.
  abbrev HasTold : MobileMap R I → Type 0
  HasTold m = IsTold num round m.props m.props.filters m.props.selected_ids m

  -- Where the properties are known by another name.
  own-HasTold :
      (p : MapProps R) (m : MobileMap R I)
      → IsTold num round p p.filters p.selected_ids m
      → HasTold m
  own-HasTold p m h =
      subst (λ q. IsTold num round q q.filters q.selected_ids m) (sym h.props)
        (record { live = h.live; props = h.props; viewed = h.viewed; pinned = h.pinned })

  quiet-HasTold : (m n : MobileMap R I) → Same m n → HasTold m → HasTold n
  quiet-HasTold m n s h = own-HasTold m.props n (Same-IsTold num round m n s h)

  Step-HasTold :
      {m n : MobileMap R I}
      → Run.Step num draw format_to_parts round pow2 to_upper m n
      → HasTold m
      → HasTold n
  Step-HasTold {m} (Run.Step.renders ch now p ef ei) h = own-HasTold p _ (
      render-IsTold num draw format_to_parts round pow2 to_upper m.props p m.props.filters
        m.props.selected_ids ch now m ef ei h)
  Step-HasTold {m} (Run.Step.receives now i u e) h =
      own-HasTold m.props _
        (frame-IsTold num draw format_to_parts round pow2 to_upper now i u m e h)
  Step-HasTold {m} (Run.Step.browses d s ev ep) h = client-IsTold num round d m s (ev, ep) h
  Step-HasTold {m} (Run.Step.flushes now) h =
      quiet-HasTold m _ (on_flush_timer-Same num draw format_to_parts now m) h
  Step-HasTold {m} (Run.Step.will_change user) h =
      quiet-HasTold m _ (on_region_will_change-Same user m) h
  Step-HasTold {m} (Run.Step.did_change v) h =
      own-HasTold m.props _ (did_change-IsTold num round v m h)
  Step-HasTold {m} (Run.Step.app_state active) h =
      own-HasTold m.props _ (app-IsTold num round active m h)
  Step-HasTold {m} (Run.Step.presses hit stop) h = quiet-HasTold m _ (on_press-Same hit stop m) h
  Step-HasTold {m} (Run.Step.places start) h = quiet-HasTold m _ (place_start-Same num start m) h
  Step-HasTold {m} (Run.Step.locates fix) h = quiet-HasTold m _ (locate-Same num fix m) h
  Step-HasTold {m} (Run.Step.stops n res) h = quiet-HasTold m _ (on_stops-Same n res m) h
  Step-HasTold {m} (Run.Step.no_stops n) h = quiet-HasTold m _ (on_stops_failed-Same n m) h

  Reach-HasTold :
      {m : MobileMap R I} → Run.Reach num draw format_to_parts round pow2 to_upper m → HasTold m
  Reach-HasTold (Run.Reach.start now p saved) =
      own-HasTold p _ (mount-IsTold num draw format_to_parts round pow2 to_upper now p saved)
  Reach-HasTold (Run.Reach.next r s) = Step-HasTold s (Reach-HasTold r)

  -- In every run of the mobile map, once the map library has told the view of the map, the viewport
  -- message that the server has last received on an open socket has the box of that view, its
  -- rounded zoom, the filters of the map's properties and the selected vehicles: pans, renders with
  -- other filters or another selection, retries of the socket and the app's going to the background
  -- leave no subscription out of date.
  pub server_sees_map :
      {m : MobileMap R I} (v : ViewState R) (i : ℕ)
      → Run.Reach num draw format_to_parts round pow2 to_upper m
      → m.view ≡ some v
      → (m.client.socket i).state ≡ ReadyState.opened
      → last_viewport (m.client.socket i).sent
        ≡ some (
            viewport_msg
              (record {
                bbox = bounds_to_bbox num v.bounds;
                zoom = round v.zoom;
                filters = m.props.filters;
              })
              m.props.selected_ids)
  server_sees_map {m} v i r e open_socket =
      let h = Reach-HasTold r in
      let (_, said, _) = server_up_to_date i h.live open_socket in
      let seen : View R = record {
        bbox = bounds_to_bbox num v.bounds;
        zoom = round v.zoom;
        filters = m.props.filters;
      } in
      let w : m.client.view ≡ some seen =
        subst (λ o. m.client.view ≡ view_of num round m.props.filters o m.client.view) e h.viewed in
      said ∙ current_msg_viewed m.client seen w ∙ ap (λ ids. some (viewport_msg seen ids)) h.pinned
