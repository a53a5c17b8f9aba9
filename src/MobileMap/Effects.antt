-- ===== src/MobileMap/Effects.antt =====
-- apps/mobile/components/map/LiveMap.tsx: what the start, a render and a message tell the live client.
use ovlive_platform.Numbers.{Numbers}
use ovlive_platform.Types.{FilterState, NormalizedUpdate}
use ovlive_platform.Live.Defs.{ReadyState, connect, new_client, set_pinned, on_message}
use ovlive_platform.Settings.Defs.{SavedView}
use ovlive_platform.Rest.Defs.{MarkerKey}
use ovlive_platform.MobileMap.Images.{Drawn}
use ovlive_platform.MobileMap.Defs.{MapProps, MobileMap, heartbeat_ms, push_trip_stops}
use ovlive_platform.MobileMap.Events.{when, ensure_drawn, tell_filters, reattach}
use ovlive_platform.MobileMap.Renders.{
  Changed, mount, render, on_frame, take_props, pin, fill_stops, guess_box, start_view,
}
use ovlive_platform.MobileMap.Same.{
  ensure_drawn-Same, Same-self, if-Same, when-Same, reattach-Same, push_trip_stops-Same,
}
use ovlive_platform.Prelude.{
  ℕ, ◌≡◌, ◌⊎◌, refl, sym, ap, ◌∙◌, subst, inl, inr, Bool, true, false, ◌||◌, Option, none, some,
  List, arith, Text,
}
use ovlive_platform.MobileMap.Told.{
  IsTold, kept_view, Same-IsTold, client-IsTold, tell_filters-IsTold, fill_stops-Same, send-view,
  on_message-view,
}
use ovlive_platform.Live.Step as LiveRun

module _ {I : Type 0} (num : Numbers) (draw : MarkerKey → Drawn I)
    (format_to_parts : ℕ → List (Text × Text)) (round : num.R → ℕ) (pow2 : num.R → num.R)
    (to_upper : Text → Text) where
  open num use {R}

  module _ {p : MapProps R} {fs : FilterState} {ids : List Text} where
    pin-IsTold :
        (b : Bool) (m : MobileMap R I)
        → (b ≡ true) ⊎ (p.selected_ids ≡ ids)
        → IsTold num round p fs ids m
        → IsTold num round p fs p.selected_ids (when b (pin num draw format_to_parts round) m)
    unfolding set_pinned
    pin-IsTold true m e h =
        let (ev, ep) = send-view (record m.client { pinned = m.props.selected_ids }) in
        record {
          live = LiveRun.Reach.next h.live (LiveRun.Step.pins m.client m.props.selected_ids);
          props = h.props;
          viewed = kept_view num round fs m.view m.client.view _ ev h.viewed;
          pinned = ep ∙ ap (λ q. q.selected_ids) h.props;
        }
    pin-IsTold false m (inl f) h = absurd (ground arith)
    pin-IsTold false m (inr e) h = subst (λ js. IsTold num round p fs js m) (sym e) h

    pub frame-IsTold :
        (now i : ℕ) (u : Option (NormalizedUpdate R)) (m : MobileMap R I)
        → (m.client.socket i).state ≡ ReadyState.opened
        → IsTold num round p fs ids m
        → IsTold num round p fs ids (on_frame num draw format_to_parts round to_upper now u m)
    unfolding on_frame
    frame-IsTold now i none m e h =
        client-IsTold num round (on_message none m.client) m
          (LiveRun.Step.receives m.client i none e) (on_message-view none m.client) h
    frame-IsTold now i (some u) m e h =
        let d = on_message (some u) m.client in
        let k =
          client-IsTold num round d m (LiveRun.Step.receives m.client i (some u) e)
            (on_message-view (some u) m.client) h in
        record { live = k.live; props = k.props; viewed = k.viewed; pinned = k.pinned }

  -- The effects that tell the client nothing.
  quiet-IsTold :
      (p : MapProps R) (fs : FilterState) (ids : List Text) (ch : Changed) (now : ℕ)
      (m : MobileMap R I)
      → IsTold num round p fs ids m
      → IsTold num round p fs ids (
          when (ch.following || ch.active_id) reattach (
            when
              (ch.trip_stops || ch.active_id)
              (push_trip_stops num draw format_to_parts now)
              (when ch.show_stops (fill_stops num draw format_to_parts round) m)))
  quiet-IsTold p fs ids ch now m h =
      let filled = when ch.show_stops (fill_stops num draw format_to_parts round) m in
      let pushed =
        when (ch.trip_stops || ch.active_id) (push_trip_stops num draw format_to_parts now)
          filled in
      Same-IsTold num round pushed _
        (when-Same (ch.following || ch.active_id) reattach pushed (reattach-Same pushed))
        (Same-IsTold num round filled pushed
          (when-Same (ch.trip_stops || ch.active_id) (push_trip_stops num draw format_to_parts now)
            filled (push_trip_stops-Same num draw format_to_parts now filled))
          (Same-IsTold num round m filled
            (when-Same ch.show_stops (fill_stops num draw format_to_parts round) m
              (if-Same m.props.show_stops m _ m (fill_stops-Same num round m.view m) (Same-self m)))
            h))

  pub render-IsTold :
      (p q : MapProps R) (fs : FilterState) (ids : List Text) (ch : Changed) (now : ℕ)
      (m : MobileMap R I)
      → (ch.filters ≡ true) ⊎ (q.filters ≡ fs)
      → (ch.selected_ids ≡ true) ⊎ (q.selected_ids ≡ ids)
      → IsTold num round p fs ids m
      → IsTold num round q q.filters q.selected_ids
          (render num draw format_to_parts round ch now q m)
  unfolding render
  render-IsTold p q fs ids ch now m ef ei h =
      let taken = take_props num draw format_to_parts round q m in
      let stale = ch.dark || ch.selected_ids || ch.vehicles_fc in
      let imaged = when stale (ensure_drawn draw) taken in
      let told = when ch.filters (tell_filters num round) imaged in
      let pinned = when ch.selected_ids (pin num draw format_to_parts round) told in
      let k : IsTold num round q fs ids taken = record {
        live = h.live;
        props = refl;
        viewed = h.viewed;
        pinned = h.pinned;
      } in
      quiet-IsTold q q.filters q.selected_ids ch now pinned (
        pin-IsTold ch.selected_ids told ei (
          tell_filters-IsTold num round ch.filters imaged ef (
            Same-IsTold num round taken imaged
              (when-Same stale (ensure_drawn draw) taken (ensure_drawn-Same draw taken)) k)))

  pub mount-IsTold :
      (now : ℕ) (p : MapProps R) (saved : Option (SavedView R))
      → IsTold num round p p.filters p.selected_ids
          (mount num draw format_to_parts round pow2 now p saved)
  unfolding mount new_client set_pinned
  mount-IsTold now p saved =
      let v = start_view num saved in
      let c = new_client heartbeat_ms in
      let d = connect (guess_box num pow2 v) (round v.zoom) p.filters c in
      let (ev, ep) = send-view (record d { pinned = p.selected_ids }) in
      Same-IsTold num round _ _ (push_trip_stops-Same num draw format_to_parts now _) (record {
        live =
            LiveRun.Reach.next
              (LiveRun.Reach.next LiveRun.Reach.start
                (LiveRun.Step.connects c (guess_box num pow2 v) (round v.zoom) p.filters refl))
              (LiveRun.Step.pins d p.selected_ids);
        props = refl;
        viewed = refl;
        pinned = ep;
      })
