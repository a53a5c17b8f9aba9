-- ===== src/WebMap/Fits.antt =====
-- apps/web/app/components/MapView.tsx: each effect brings the layers to what it knows.
use ovlive_platform.Types.{TripStop}
use ovlive_platform.MobileMap.Events.{when, route_fc}
use ovlive_platform.WebMap.Layers.{
  LayerProps, Layers, Refs, Scene, isolation, on_layers, apply_stops_visibility,
  apply_stop_selection, apply_stop_numbers, apply_isolation, push_route, select, change_style,
}
use ovlive_platform.Prelude.{
  ℕ, ◌≡◌, ◌⊎◌, inl, inr, refl, sym, ap, subst, Bool, true, false, Option, none, some, List, Text,
  arith,
}
use ovlive_platform.WebMap.Scene.{stops_from, expected}

module _ {R : Type 0} where
  -- The layers are those expected, but for the vehicles of the selected ones.
  abbrev pub Agrees : Layers R → Option (Layers R) → Type 0
  Agrees v none = Unit
  Agrees v (some l) = l ≡ record v { selected = l.selected }

  pub record Fits (r : Refs R) (v : Layers R) (s : Scene R) : Type 0 where
    pub refs : s.refs ≡ r
    pub agrees : Agrees v s.layers

  -- A change of the layers that are there.
  pub changed-Fits :
      (f : Layers R → Layers R) (r : Refs R) (v v' : Layers R) (o : Option (Layers R)) (s : Scene R)
      → ((l : Layers R)
          → l ≡ record v { selected = l.selected }
          → f l ≡ record v' { selected = (f l).selected })
      → s.layers ≡ o
      → s.refs ≡ r
      → Agrees v o
      → Fits r v' (elim o [ none ↦ s | some l ↦ record s { layers = some (f l) } ])
  changed-Fits f r v v' none s k e er h = record {
    refs = er;
    agrees = subst (Agrees v') (sym e) tt;
  }
  changed-Fits f r v v' (some l) s k e er h = record { refs = er; agrees = k l h }

  pub on_layers-Fits :
      (f : Layers R → Layers R) (r : Refs R) (v v' : Layers R) (s : Scene R)
      → ((l : Layers R)
          → l ≡ record v { selected = l.selected }
          → f l ≡ record v' { selected = (f l).selected })
      → Fits r v s
      → Fits r v' (on_layers f s)
  on_layers-Fits f r v v' s k h = changed-Fits f r v v' s.layers s k refl h.refs h.agrees

  -- An effect that does not run has nothing new to show.
  pub effect-Fits :
      (b : Bool) (f : Scene R → Scene R) (r : Refs R) (v v' : Layers R) (s : Scene R)
      → (b ≡ true) ⊎ (v' ≡ v)
      → (Fits r v s → Fits r v' (f s))
      → Fits r v s
      → Fits r v' (when b f s)
  effect-Fits true f r v v' s e k h = k h
  effect-Fits false f r v v' s (inl e) k h = absurd (ground arith)
  effect-Fits false f r v v' s (inr e) k h = subst (λ w. Fits r w s) (sym e) h

  -- A change of the layers to what the refs have.
  pub apply-Fits :
      (set : Refs R → Layers R → Layers R) (r : Refs R) (v : Layers R) (s : Scene R)
      → ((l : Layers R)
          → l ≡ record v { selected = l.selected }
          → set r l ≡ record (set r v) { selected = (set r l).selected })
      → Fits r v s
      → Fits r (set r v) (on_layers (set s.refs) s)
  apply-Fits set r v s k h =
      subst (λ q. Fits r (set r v) (on_layers (set q) s)) (sym h.refs)
        (on_layers-Fits (set r) r v (set r v) s k h)

  pub visibility-Fits :
      (r : Refs R) (v : Layers R) (s : Scene R)
      → Fits r v s
      → Fits r (record v { stops_visible = r.props.show_stops }) (apply_stops_visibility s)
  unfolding apply_stops_visibility
  visibility-Fits r v s =
      let set = λ (q : Refs R) (l : Layers R). record l { stops_visible = q.props.show_stops } in
      apply-Fits set r v s (λ l e. ap (set r) e)

  pub stop-Fits :
      (r : Refs R) (v : Layers R) (s : Scene R)
      → Fits r v s
      → Fits r (record v { selected_stop = r.props.selected_stop_id }) (apply_stop_selection s)
  unfolding apply_stop_selection
  stop-Fits r v s =
      let set =
        λ (q : Refs R) (l : Layers R). record l { selected_stop = q.props.selected_stop_id } in
      apply-Fits set r v s (λ l e. ap (set r) e)

  pub numbers-Fits :
      (r : Refs R) (v : Layers R) (s : Scene R)
      → Fits r v s
      → Fits r (record v { numbers_visible = r.props.stop_numbers }) (apply_stop_numbers s)
  unfolding apply_stop_numbers
  numbers-Fits r v s =
      let set =
        λ (q : Refs R) (l : Layers R). record l { numbers_visible = q.props.stop_numbers } in
      apply-Fits set r v s (λ l e. ap (set r) e)

  pub isolation-Fits :
      (r : Refs R) (v : Layers R) (s : Scene R)
      → Fits r v s
      → Fits r (record v { isolated = isolation r.props }) (apply_isolation s)
  unfolding apply_isolation
  isolation-Fits r v s =
      let set = λ (q : Refs R) (l : Layers R). record l { isolated = isolation q.props } in
      apply-Fits set r v s (λ l e. ap (set r) e)

  pub route-Fits :
      (r : Refs R) (v : Layers R) (s : Scene R)
      → Fits r v s
      → Fits r (record v { route = route_fc r.props.route_shape }) (push_route s)
  unfolding push_route
  route-Fits r v s =
      let set = λ (q : Refs R) (l : Layers R). record l { route = route_fc q.props.route_shape } in
      apply-Fits set r v s (λ l e. ap (set r) e)

  pub select-Fits :
      (r : Refs R) (v : Layers R) (s : Scene R)
      → Fits r v s
      → Fits r (record v { isolated = isolation r.props }) (select s)
  unfolding select
  select-Fits r v s h =
      isolation-Fits r v (on_layers (λ l. record l { selected = s.refs.props.selected_ids }) s) (
        on_layers-Fits (λ l. record l { selected = s.refs.props.selected_ids }) r v v s
          (λ l e. ap (λ (m : Layers R). record m { selected = s.refs.props.selected_ids }) e) h)

  -- What the stops of the trip should be, from index `j`.
  abbrev pub from_index : Option ℕ → Refs R → Layers R → Layers R
  from_index j r v = record v { trip_stops = stops_from r.props.trip_stops j }

  pub style-Fits :
      (b loaded : Bool) (r : Refs R) (v : Layers R) (s : Scene R)
      → Fits r v s
      → Fits r v (when b (change_style loaded) s)
  unfolding change_style
  style-Fits true true r v s h = record { refs = h.refs; agrees = tt }
  style-Fits true false r v s h = h
  style-Fits false loaded r v s h = h

  -- The vehicles of the selected layers are left open.
  pub any_selected :
      (ids : List Text) (v : Layers R) (o : Option (Layers R))
      → Agrees (record v { selected = ids }) o
      → Agrees v o
  any_selected ids v none h = h
  any_selected ids v (some l) h = h

  abbrev pub IsShown : Scene R → Type 0
  IsShown s = Fits s.refs (expected s.refs) s

  pub own-IsShown :
      (r : Refs R) (ids : List Text) (s : Scene R)
      → Fits r (record (expected r) { selected = ids }) s
      → IsShown s
  own-IsShown r ids s h =
      subst (λ q. Fits q (expected q) s) (sym h.refs)
        (record { refs = h.refs; agrees = any_selected ids (expected r) s.layers h.agrees })

  pub or_same :
      {A : Type 0} {b : Bool} {x y : A} (f : A → Layers R)
      → (b ≡ true) ⊎ (x ≡ y)
      → (b ≡ true) ⊎ (f x ≡ f y)
  or_same f (inl e) = inl e
  or_same f (inr e) = inr (ap f e)

  pub isolation_same :
      (p q : LayerProps R)
      → (p.selected_ids ≡ q.selected_ids) × (p.isolate ≡ q.isolate)
      → isolation p ≡ isolation q
  unfolding isolation
  isolation_same p q (es, ei) = rw (es, ei) refl

  pub or_isolation :
      (b : Bool) (p q : LayerProps R)
      → (b ≡ true) ⊎ ((p.selected_ids ≡ q.selected_ids) × (p.isolate ≡ q.isolate))
      → (b ≡ true) ⊎ (isolation p ≡ isolation q)
  or_isolation b p q (inl e) = inl e
  or_isolation b p q (inr e) = inr (isolation_same p q e)

  pub or_stops :
      (b : Bool) (ts us : List (TripStop R)) (j : Option ℕ)
      → (b ≡ true) ⊎ (ts ≡ us)
      → (b ≡ true) ⊎ (stops_from us j ≡ stops_from ts j)
  or_stops b ts us j (inl e) = inl e
  or_stops b ts us j (inr e) = inr (ap (λ xs. stops_from xs j) (sym e))
