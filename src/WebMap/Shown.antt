-- ===== src/WebMap/Shown.antt =====
-- apps/web/app/components/MapView.tsx: in every run, the layers show what the component knows; and
-- what the selected layers show after a change of the theme.
use ovlive_platform.Numbers.{Numbers}
use ovlive_platform.Trip.Defs.{trip_stop_features}
use ovlive_platform.MobileMap.Events.{when, route_fc}
use ovlive_platform.MobileMap.Defs.{differs}
use ovlive_platform.WebMap.Layers.{
  LayerProps, same_id, Layers, Refs, Scene, isolation, on_layers, apply_stops_visibility,
  apply_stop_selection, apply_stop_numbers, push_stops, push_route, set_hover, select, change_style,
  on_stop_points, LayerChanges, current_upcoming, push_trip, new_layers, add_layers, ensure_layers,
  redraw, render_layers, mount_layers,
}
use ovlive_platform.Prelude.{
  ℕ, ◌≡◌, ◌⊎◌, inl, inr, refl, sym, ◌∙◌, ap, subst, Bool, true, false, Option, none, some, List,
  if◌then◌else◌, Text, arith,
}
use ovlive_platform.WebMap.Scene.{stops_from, expected, SceneStep, SceneReach}
use ovlive_platform.WebMap.Fits.{
  Fits, on_layers-Fits, effect-Fits, visibility-Fits, stop-Fits, numbers-Fits, isolation-Fits,
  route-Fits, select-Fits, style-Fits, own-IsShown, or_same, or_isolation, or_stops, Agrees,
  from_index, IsShown,
}

module _ (num : Numbers) (format_to_parts : ℕ → List (Text × Text)) where
  open num use {R}

  trip-layers :
      (now : ℕ) (r : Refs R) (v : Layers R) (o : Option (Layers R)) (s : Scene R)
      → s.layers ≡ o
      → s.refs ≡ r
      → Agrees v o
      → (j : Option ℕ) × Fits
          (record r { upcoming_from = j })
          (from_index j r v)
          (elim o [
            | none ↦ s
            | some l ↦
                let i = current_upcoming num format_to_parts now s.refs in
                record s {
                  refs = record s.refs { upcoming_from = some i };
                  layers =
                      some (record l { trip_stops = trip_stop_features s.refs.props.trip_stops i });
                }
          ])
  trip-layers now r v none s e er h = (
    r.upcoming_from,
    record { refs = er; agrees = subst (Agrees (from_index r.upcoming_from r v)) (sym e) tt },
  )
  trip-layers now r v (some l) s e er h =
      let i = current_upcoming num format_to_parts now s.refs in
      let drawn = trip_stop_features s.refs.props.trip_stops i in
      (
        some i,
        record {
          refs = ap (λ (q : Refs R). record q { upcoming_from = some i }) er;
          agrees =
              ap (λ (m : Layers R). record m { trip_stops = drawn }) h
              ∙ ap
                  (λ (q : Refs R). record v {
                    selected = l.selected;
                    trip_stops = trip_stop_features q.props.trip_stops i;
                  })
                  er;
        },
      )

  trip-Fits :
      (b : Bool) (now : ℕ) (r : Refs R) (v : Layers R) (s : Scene R)
      → (b ≡ true) ⊎ (v.trip_stops ≡ stops_from r.props.trip_stops r.upcoming_from)
      → Fits r v s
      → (j : Option ℕ) × Fits
          (record r { upcoming_from = j })
          (from_index j r v)
          (when b (push_trip num format_to_parts now) s)
  unfolding push_trip
  trip-Fits true now r v s e h = trip-layers now r v s.layers s refl h.refs h.agrees
  trip-Fits false now r v s (inl e) h = absurd (ground arith)
  trip-Fits false now r v s (inr e) h =
      (r.upcoming_from, subst (λ ts. Fits r (record v { trip_stops = ts }) s) e h)

  render_layers-IsShown :
      (ch : LayerChanges) (loaded : Bool) (now : ℕ) (p : LayerProps R) (s : Scene R)
      → (ch.show_stops ≡ true) ⊎ (p.show_stops ≡ s.refs.props.show_stops)
      → (ch.selected_stop ≡ true) ⊎ (p.selected_stop_id ≡ s.refs.props.selected_stop_id)
      → (ch.selection ≡ true)
        ⊎ ((p.selected_ids ≡ s.refs.props.selected_ids) × (p.isolate ≡ s.refs.props.isolate))
      → (ch.route_shape ≡ true) ⊎ (p.route_shape ≡ s.refs.props.route_shape)
      → (ch.trip ≡ true) ⊎ (p.trip_stops ≡ s.refs.props.trip_stops)
      → (ch.stop_numbers ≡ true) ⊎ (p.stop_numbers ≡ s.refs.props.stop_numbers)
      → IsShown s
      → IsShown (render_layers num format_to_parts ch loaded now p s)
  unfolding render_layers
  render_layers-IsShown ch loaded now p s es et ei er eu en h =
      let q = s.refs.props in
      let r = record s.refs { props = p } in
      let v = expected s.refs in
      let v1 = record v { stops_visible = p.show_stops } in
      let v2 = record v1 { selected_stop = p.selected_stop_id } in
      let v3 = record v2 { isolated = isolation p } in
      let v4 = record v3 { route = route_fc p.route_shape } in
      let taken = record s { refs = r } in
      let styled = when ch.theme (change_style loaded) taken in
      let shown = when ch.show_stops apply_stops_visibility styled in
      let picked = when ch.selected_stop apply_stop_selection shown in
      let selected = when ch.selection select picked in
      let routed = when ch.route_shape push_route selected in
      let pushed = when ch.trip (push_trip num format_to_parts now) routed in
      let h1 = style-Fits ch.theme loaded r v taken (record { refs = refl; agrees = h.agrees }) in
      let h2 =
        effect-Fits ch.show_stops apply_stops_visibility r v v1 styled
          (or_same (λ x. record v { stops_visible = x }) es) (visibility-Fits r v styled) h1 in
      let h3 =
        effect-Fits ch.selected_stop apply_stop_selection r v1 v2 shown
          (or_same (λ x. record v1 { selected_stop = x }) et) (stop-Fits r v1 shown) h2 in
      let h4 =
        effect-Fits ch.selection select r v2 v3 picked
          (or_same (λ x. record v2 { isolated = x }) (or_isolation ch.selection p q ei))
          (select-Fits r v2 picked) h3 in
      let h5 =
        effect-Fits ch.route_shape push_route r v3 v4 selected
          (or_same (λ x. record v3 { route = route_fc x }) er) (route-Fits r v3 selected) h4 in
      let (j, h6) =
        trip-Fits ch.trip now r v4 routed
          (or_stops ch.trip p.trip_stops q.trip_stops s.refs.upcoming_from eu) h5 in
      let r' = record r { upcoming_from = j } in
      let v5 = from_index j r v4 in
      own-IsShown r' q.selected_ids (when ch.stop_numbers apply_stop_numbers pushed) (
        effect-Fits ch.stop_numbers apply_stop_numbers r' v5
          (record v5 { numbers_visible = p.stop_numbers }) pushed
          (or_same (λ x. record v5 { numbers_visible = x }) en) (numbers-Fits r' v5 pushed) h6)

  -- Layers that are just made have the hovered vehicle and the stops; the rest is set after.
  add_layers-Fits :
      (o : Option (Layers R)) (s : Scene R)
      → s.layers ≡ o
      → Agrees (expected s.refs) o
      → (v : Layers R) × Fits s.refs v
          (elim o [ none ↦ record s { layers = some (new_layers s) } | some l ↦ s ])
        × (v.hovered ≡ s.refs.hovered)
        × (v.stops ≡ s.refs.stops)
  add_layers-Fits none s e h = (new_layers s, record { refs = refl; agrees = refl }, refl, refl)
  add_layers-Fits (some l) s e h = (
    expected s.refs,
    record { refs = refl; agrees = subst (Agrees (expected s.refs)) (sym e) h },
    refl,
    refl,
  )

  ensure_layers-IsShown :
      (now : ℕ) (s : Scene R) → IsShown s → IsShown (ensure_layers num format_to_parts now s)
  unfolding ensure_layers
  ensure_layers-IsShown now s h =
      let r = s.refs in
      let added = add_layers s in
      let shown = apply_stops_visibility added in
      let picked = apply_stop_selection shown in
      let numbered = apply_stop_numbers picked in
      let routed = push_route numbered in
      let (v, h0, eh, es) = add_layers-Fits s.layers s refl h.agrees in
      let v1 = record v { stops_visible = r.props.show_stops } in
      let v2 = record v1 { selected_stop = r.props.selected_stop_id } in
      let v3 = record v2 { numbers_visible = r.props.stop_numbers } in
      let v4 = record v3 { route = route_fc r.props.route_shape } in
      let h4 =
        route-Fits r v3 numbered
          (numbers-Fits r v2 picked (stop-Fits r v1 shown (visibility-Fits r v added h0))) in
      let (j, h5) = trip-Fits true now r v4 routed (inl refl) h4 in
      let r' = record r { upcoming_from = j } in
      let last = ensure_layers num format_to_parts now s in
      let h6 =
        isolation-Fits r' (from_index j r v4) (push_trip num format_to_parts now routed) h5 in
      own-IsShown r' v.selected last (
        subst (λ x. Fits r' (record (expected r') { selected = v.selected; hovered = x }) last) eh
          (subst
            (λ x.
              Fits r'
                (record (expected r') { selected = v.selected; hovered = v.hovered; stops = x })
                last)
            es h6))

  if-IsShown : (b : Bool) (s t : Scene R) → IsShown s → IsShown t → IsShown (if b then s else t)
  if-IsShown true s t h k = h
  if-IsShown false s t h k = k

  Step-IsShown : {s t : Scene R} → SceneStep num format_to_parts s t → IsShown s → IsShown t
  unfolding set_hover on_stop_points redraw push_stops
  Step-IsShown {s} (SceneStep.renders ch loaded now p es et ei er eu en) h =
      render_layers-IsShown ch loaded now p s es et ei er eu en h
  Step-IsShown {s} (SceneStep.loads now) h = ensure_layers-IsShown now s h
  Step-IsShown {s} (SceneStep.hovers id) h =
      let v = expected s.refs in
      let r = record s.refs { hovered = id } in
      let t = on_layers (λ l. record l { hovered = id }) (record s { refs = r }) in
      if-IsShown (same_id s.refs.hovered id) s t h (
        own-IsShown r v.selected t (
          on_layers-Fits (λ l. record l { hovered = id }) r v (record v { hovered = id })
            (record s { refs = r }) (λ l e. ap (λ (m : Layers R). record m { hovered = id }) e)
            (record { refs = refl; agrees = h.agrees })))
  Step-IsShown {s} (SceneStep.fills points) h =
      let v = expected s.refs in
      let r = record s.refs { stops = points } in
      own-IsShown r v.selected (on_stop_points points s) (
        on_layers-Fits (λ l. record l { stops = points }) r v (record v { stops = points })
          (record s { refs = r }) (λ l e. ap (λ (m : Layers R). record m { stops = points }) e)
          (record { refs = refl; agrees = h.agrees }))
  Step-IsShown {s} (SceneStep.draws now vehicles) h =
      let v = expected s.refs in
      let r = record s.refs { vehicles = vehicles } in
      let m = record s { refs = r } in
      let (j, k) =
        trip-Fits (differs r.upcoming_from (current_upcoming num format_to_parts now r)) now r v m
          (inr refl) (record { refs = refl; agrees = h.agrees }) in
      own-IsShown (record r { upcoming_from = j }) v.selected
        (redraw num format_to_parts now vehicles s) k

  Reach-IsShown : {s : Scene R} → SceneReach num format_to_parts s → IsShown s
  unfolding mount_layers
  Reach-IsShown (SceneReach.start p) = record { refs = refl; agrees = tt }
  Reach-IsShown (SceneReach.next r t) = Step-IsShown t (Reach-IsShown r)

  -- In every run of the web map, whatever is rendered, hovered, fetched or drawn, and however often
  -- a theme takes the layers away and a style that has loaded brings them back, layers that are there
  -- show what the component knows: the isolated vehicles, the hovered one, the stop whose board is
  -- open, whether stops and numbers are shown, the stops, the route, and the stops of the trip from
  -- the index drawn last. The vehicles of the two selected layers are left out.
  pub layers_show_state :
      {s : Scene R} (l : Layers R)
      → SceneReach num format_to_parts s
      → s.layers ≡ some l
      → l ≡ record (expected s.refs) { selected = l.selected }
  layers_show_state {s} l r e =
      let h = Reach-IsShown r in subst (Agrees (expected s.refs)) e h.agrees
