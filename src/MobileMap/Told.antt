-- ===== src/MobileMap/Told.antt =====
-- apps/mobile/components/map/LiveMap.tsx: what the map tells the live client of its view.
use ovlive_platform.Numbers.{Numbers}
use ovlive_platform.Types.{FilterState, NormalizedUpdate}
use ovlive_platform.Geo.{bounds_to_bbox}
use ovlive_platform.Live.Defs.{
  LiveClient, View, on_message, update, suspend, resume, send, clear_heartbeat, open_socket,
  arm_heartbeat,
}
use ovlive_platform.MobileMap.Defs.{
  ViewState, MapProps, MobileMap, heartbeat_ms, load_stops, vehicle_of, center_vehicle,
}
use ovlive_platform.MobileMap.Events.{
  when, tell_filters, tell_view, on_app_state, on_region_did_change, resync,
}
use ovlive_platform.MobileMap.Same.{
  Same, Same-self, when-Same, load_stops-Same, center_vehicle-Same,
}
use ovlive_platform.Prelude.{
  ℕ, ◌≡◌, ◌⊎◌, refl, sym, ap, ◌∙◌, subst, inl, inr, Bool, true, false, ◌&&◌, Option, none, some,
  List, ◌∷◌, arith, Text,
}
use ovlive_platform.Live.Step as LiveRun

module _ {R : Type 0} where
  -- What the methods of the client leave alone.
  pub send-view : (c : LiveClient R) → ((send c).view ≡ c.view) × ((send c).pinned ≡ c.pinned)
  unfolding send
  send-view c = ground arith

  suspend-view : (c : LiveClient R) → ((suspend c).view ≡ c.view) × ((suspend c).pinned ≡ c.pinned)
  unfolding suspend clear_heartbeat
  suspend-view c = ground arith

  resume-view : (c : LiveClient R) → ((resume c).view ≡ c.view) × ((resume c).pinned ≡ c.pinned)
  unfolding resume open_socket
  resume-view c = ground arith

  pub on_message-view :
      (u : Option (NormalizedUpdate R)) (c : LiveClient R)
      → ((on_message u c).view ≡ c.view) × ((on_message u c).pinned ≡ c.pinned)
  unfolding on_message arm_heartbeat clear_heartbeat
  on_message-view u c = ground arith

module _ (num : Numbers) (round : num.R → ℕ) where
  open num use {R}

  -- The view that the client should have, once the map has told one.
  abbrev pub view_of : FilterState → Option (ViewState R) → Option (View R) → Option (View R)
  view_of fs none told = told
  view_of fs (some v) told =
      some (record { bbox = bounds_to_bbox num v.bounds; zoom = round v.zoom; filters = fs })

  -- A view that is kept is still the one told.
  pub kept_view :
      (fs : FilterState) (o : Option (ViewState R)) (w w' : Option (View R))
      → w' ≡ w
      → w ≡ view_of fs o w
      → w' ≡ view_of fs o w'
  kept_view fs none w w' e h = refl
  kept_view fs (some v) w w' e h = e ∙ h

module _ {I : Type 0} (num : Numbers) (round : num.R → ℕ) where
  open num use {R}

  -- The map has the properties `p`, and has told the client its view with the filters `fs`, and the
  -- vehicles `ids`.
  pub record IsTold (p : MapProps R) (fs : FilterState) (ids : List Text) (m : MobileMap R I)
      : Type 0 where
    pub live : LiveRun.Reach heartbeat_ms m.client
    pub props : m.props ≡ p
    pub viewed : m.client.view ≡ view_of num round fs m.view m.client.view
    pub pinned : m.client.pinned ≡ ids

  module _ {p : MapProps R} {fs : FilterState} {ids : List Text} where
    pub Same-IsTold : (m n : MobileMap R I) → Same m n → IsTold p fs ids m → IsTold p fs ids n
    Same-IsTold m n s h = record {
      live = subst (LiveRun.Reach heartbeat_ms) (sym s.client) h.live;
      props = s.props ∙ h.props;
      viewed = rw (s.client, s.view) h.viewed;
      pinned = ap (λ c. c.pinned) s.client ∙ h.pinned;
    }

    -- The client has taken a step that keeps its view and its vehicles.
    pub client-IsTold :
        (d : LiveClient R) (m : MobileMap R I)
        → LiveRun.Step m.client d
        → (d.view ≡ m.client.view) × (d.pinned ≡ m.client.pinned)
        → IsTold p fs ids m
        → IsTold p fs ids (record m { client = d })
    client-IsTold d m s (ev, ep) h = record {
      live = LiveRun.Reach.next h.live s;
      props = h.props;
      viewed = kept_view num round fs m.view m.client.view d.view ev h.viewed;
      pinned = ep ∙ h.pinned;
    }

  tell_view-IsTold :
      {p : MapProps R} {ids : List Text} (v : ViewState R) (m : MobileMap R I)
      → m.view ≡ some v
      → LiveRun.Reach heartbeat_ms m.client
      → m.props ≡ p
      → m.client.pinned ≡ ids
      → IsTold p p.filters ids (tell_view num round v m)
  unfolding tell_view update
  tell_view-IsTold {p} v m e live props pinned =
      let b = bounds_to_bbox num v.bounds in
      let z = round v.zoom in
      let c : LiveClient R = record m.client {
        view = some (record { bbox = b; zoom = z; filters = m.props.filters });
      } in
      let (ev, ep) = send-view c in
      record {
        live = LiveRun.Reach.next live (LiveRun.Step.updates m.client b z m.props.filters);
        props = props;
        viewed =
            subst (λ o. (send c).view ≡ view_of num round p.filters o (send c).view) (sym e)
              (ev
                ∙ ap (λ (q : MapProps R). some (record { bbox = b; zoom = z; filters = q.filters }))
                    props);
        pinned = ep ∙ pinned;
      }

  module _ {p : MapProps R} {fs : FilterState} {ids : List Text} where
    filters-IsTold :
        (o : Option (ViewState R)) (m : MobileMap R I)
        → m.view ≡ o
        → IsTold p fs ids m
        → IsTold p p.filters ids (elim o [ none ↦ m | some v ↦ tell_view num round v m ])
    filters-IsTold none m e h = record {
      live = h.live;
      props = h.props;
      viewed =
          subst (λ o. m.client.view ≡ view_of num round p.filters o m.client.view) (sym e) refl;
      pinned = h.pinned;
    }
    filters-IsTold (some v) m e h = tell_view-IsTold v m e h.live h.props h.pinned

    -- The effect on the filters: where it does not run, they have not changed.
    pub tell_filters-IsTold :
        (b : Bool) (m : MobileMap R I)
        → (b ≡ true) ⊎ (p.filters ≡ fs)
        → IsTold p fs ids m
        → IsTold p p.filters ids (when b (tell_filters num round) m)
    unfolding tell_filters
    tell_filters-IsTold true m e h = filters-IsTold m.view m refl h
    tell_filters-IsTold false m (inl f) h = absurd (ground arith)
    tell_filters-IsTold false m (inr e) h = subst (λ gs. IsTold p gs ids m) (sym e) h

  pub fill_stops-Same :
      (o : Option (ViewState R)) (m : MobileMap R I)
      → Same m (elim o [ none ↦ m | some v ↦ load_stops num v m ])
  fill_stops-Same none m = Same-self m
  fill_stops-Same (some v) m = load_stops-Same num v m

  module _ {p : MapProps R} {fs : FilterState} {ids : List Text} where
    resync-IsTold :
        (v : ViewState R) (m : MobileMap R I)
        → IsTold p fs ids m
        → IsTold p p.filters ids (resync num round v m)
    unfolding resync
    resync-IsTold v m h =
        let seen = record m { view = some v } in
        let told = tell_view num round v seen in
        let k = tell_view-IsTold v seen refl h.live h.props h.pinned in
        let saved = record told {
          saved_views =
              record { lng = v.center_lon; lat = v.center_lat; zoom = v.zoom } ∷ told.saved_views;
        } in
        Same-IsTold saved (load_stops num v saved) (load_stops-Same num v saved)
          (record { live = k.live; props = k.props; viewed = k.viewed; pinned = k.pinned })

  module _ {p : MapProps R} {fs : FilterState} {ids : List Text} where
    pub did_change-IsTold :
        (v : ViewState R) (m : MobileMap R I)
        → IsTold p fs ids m
        → IsTold p p.filters ids (on_region_did_change num round v m)
    unfolding on_region_did_change
    did_change-IsTold v m h =
        let calm = record m { gesture = false } in
        let synced = resync num round v calm in
        let veh = vehicle_of m.props.active_id m.store in
        Same-IsTold synced
          (when (m.gesture && m.props.following) (center_vehicle veh 500 none) synced)
          (when-Same (m.gesture && m.props.following) (center_vehicle veh 500 none) synced
            (center_vehicle-Same veh 500 none synced))
          (resync-IsTold v calm
            (record { live = h.live; props = h.props; viewed = h.viewed; pinned = h.pinned }))

    pub app-IsTold :
        (active : Bool) (m : MobileMap R I)
        → IsTold p fs ids m
        → IsTold p fs ids (on_app_state active m)
    unfolding on_app_state
    app-IsTold true m h =
        client-IsTold (resume m.client) m (LiveRun.Step.resumes m.client) (resume-view m.client) h
    app-IsTold false m h =
        client-IsTold (suspend m.client) m (LiveRun.Step.suspends m.client) (suspend-view m.client)
          h
