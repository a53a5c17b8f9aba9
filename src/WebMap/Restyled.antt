-- ===== src/WebMap/Restyled.antt =====
-- apps/web/app/components/MapView.tsx: the selected layers after a change of the theme.
use ovlive_platform.Numbers.{Numbers}
use ovlive_platform.WebMap.Layers.{
  LayerProps, Layers, Scene, apply_stops_visibility, apply_stop_selection, apply_stop_numbers,
  apply_isolation, push_route, select, change_style, LayerChanges, push_trip, ensure_layers,
  render_layers, mount_layers,
}
use ovlive_platform.Prelude.{ℕ, ◌≡◌, inl, inr, refl, true, false, none, some, List, [], Text}
use ovlive_platform.WebMap.Scene.{SceneStep, SceneReach}

abbrev pub nothing_changed : LayerChanges
nothing_changed = record {
  theme = false;
  show_stops = false;
  selected_stop = false;
  selection = false;
  route_shape = false;
  trip = false;
  stop_numbers = false;
}

module _ (num : Numbers) (format_to_parts : ℕ → List (Text × Text)) where
  open num use {R}

  -- Nothing is selected at first, the style loads, the vehicles are selected, and the theme changes.
  abbrev unselected : LayerProps R
  unselected = record {
    active_id = none;
    selected_ids = [];
    isolate = false;
    show_stops = false;
    selected_stop_id = none;
    route_shape = none;
    trip_stops = [];
    stop_numbers = false;
  }

  abbrev loaded : Scene R
  loaded = ensure_layers num format_to_parts 0 (mount_layers num format_to_parts unselected)

  abbrev selecting : List Text → Scene R
  selecting ids =
      render_layers num format_to_parts (record nothing_changed { selection = true }) true 0
        (record unselected { selected_ids = ids }) loaded

  -- A change of the theme alone, and the loading of the new style.
  abbrev pub restyle : ℕ → Scene R → Scene R
  restyle now s = ensure_layers num format_to_parts now (
      render_layers num format_to_parts (record nothing_changed { theme = true }) true now
        s.refs.props s)

  -- After a change of the theme alone, and the loading of the new style, the layers are there, and
  -- highlight the vehicles that were selected at the mount, whatever is selected now. So there is a
  -- scene, reached from the mount, in which any given vehicles are selected and have their highlight,
  -- and after such a change they are still selected, but no vehicle has a highlight.
  pub theme_drops_highlight :
      (ids : List Text) (now : ℕ) (shown : Scene R)
      → ((l : Layers R) × ((restyle now shown).layers ≡ some l)
          × (l.selected ≡ shown.first_selected_ids)
          × ((restyle now shown).refs.props.selected_ids ≡ shown.refs.props.selected_ids))
        × ((s : Scene R) × SceneReach num format_to_parts s
            × (k : Layers R) × (s.layers ≡ some k)
            × (k.selected ≡ ids)
            × (s.refs.props.selected_ids ≡ ids)
            × SceneReach num format_to_parts (restyle now s)
            × (l : Layers R) × ((restyle now s).layers ≡ some l)
            × (l.selected ≡ [])
            × ((restyle now s).refs.props.selected_ids ≡ ids))
  unfolding ensure_layers render_layers mount_layers apply_stops_visibility apply_stop_selection
      apply_stop_numbers push_route push_trip apply_isolation select change_style
  theme_drops_highlight ids now shown =
      let r0 = SceneReach.next (SceneReach.start unselected) (SceneStep.loads 0) in
      let r1 = SceneReach.next r0 (
        SceneStep.renders (record nothing_changed { selection = true }) true 0
          (record unselected { selected_ids = ids }) (inr refl) (inr refl) (inl refl) (inr refl)
          (inr refl) (inr refl)) in
      let r2 = SceneReach.next r1 (
        SceneStep.renders (record nothing_changed { theme = true }) true now
          (record unselected { selected_ids = ids }) (inr refl) (inr refl) (inr (refl, refl))
          (inr refl) (inr refl) (inr refl)) in
      (
        (_, refl, refl, refl),
        (
          selecting ids,
          r1,
          _,
          refl,
          refl,
          refl,
          SceneReach.next r2 (SceneStep.loads now),
          _,
          refl,
          refl,
          refl,
        ),
      )
