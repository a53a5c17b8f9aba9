-- ===== src/WebMap/Defs.antt =====
-- apps/web/app/components/MapView.tsx: the refs that the component keeps of the fleet and of the
-- stop layer, and what its handlers do to them. A call of a property's callback is recorded,
-- newest first. The map library itself is not modelled.
use ovlive_platform.Prelude.Dict
use ovlive_platform.Prelude.{
  ℕ, Bool, true, false, Option, none, some, List, [], ◌∷◌, ◌++◌, if◌then◌else◌, length, Text, codes,
  is_empty,
}
use ovlive_platform.Prelude.Int.{ℤ}
use ovlive_platform.Prelude.Dict.{lookup, insert, erase}
use ovlive_platform.Types.{Vehicle, NormalizedUpdate, MoveDelta}
use ovlive_platform.Fleet.Defs.{
  StoreEvent, change, selected_back, selected_gone, assign_move, includes,
}
use ovlive_platform.Operator.Defs.{resolve_operator}

-- A marker of the "vehicles" source: a point with its properties.
pub record Marker (R : Type 0) : Type 0 where
  pub lon : R
  pub lat : R
  pub id : Text
  pub line : Text
  pub owner : Text
  pub type : ℕ
  pub delay : ℤ
  pub delay_known : Bool
  pub bearing : R
  pub icon : Text
  pub icon_sel : Text

pub record WebMap (R : Type 0) : Type 0 where
  pub vehicles : List (Text × Vehicle R)
  pub features : List (Text × Marker R)
  pub selected_ids : List Text
  pub active_id : Option Text
  pub dark : Bool
  pub dirty : Bool
  pub events : List (StoreEvent R)
  pub counts : List ℕ
  pub live : List (Vehicle R)

-- The icon's key: the pill's content and the tone.
unfoldable pub marker_id : Text → Text → Bool → Text
marker_id owner line dark =
    b'm' ∷ b'|' ∷ owner ++ b'|' ∷ line ++ b'|' ∷ (if dark then b'd' else b'l') ∷ []

unfoldable pub selected_icon : Text → Text
selected_icon icon = icon ++ codes "|sel"

-- Every value of a map, mutated in place.
abbrev pub map_values : {V W : Type 0} → (V → W) → List (Text × V) → List (Text × W)
map_values f [] = []
map_values f ((k, v) ∷ m) = (k, f v) ∷ map_values f m

module _ {R : Type 0} where
  unfoldable pub new_map : Bool → WebMap R
  new_map dark = record {
    vehicles = [];
    features = [];
    selected_ids = [];
    active_id = none;
    dark = dark;
    dirty = false;
    events = [];
    counts = [];
    live = [];
  }

  abbrev pub notify_if : Bool → StoreEvent R → WebMap R → WebMap R
  notify_if b e s = if b then record s { events = e ∷ s.events } else s

  unfoldable pub clear_refs : Bool → WebMap R → WebMap R
  clear_refs is_snapshot s = if is_snapshot then record s { features = []; vehicles = [] } else s

  -- `m.bearing ?? 0`, where `zero_bearing` is the number 0.
  abbrev pub bearing_or : R → Option R → R
  bearing_or zero_bearing none = zero_bearing
  bearing_or zero_bearing (some b) = b

  unfoldable pub move_marker : R → MoveDelta R → Marker R → Marker R
  move_marker zero_bearing m f = record f {
    lon = m.lon;
    lat = m.lat;
    delay = m.delay;
    delay_known = m.delay_known;
    bearing = bearing_or zero_bearing m.bearing;
  }

  unfoldable pub move_ref : R → MoveDelta R → WebMap R → WebMap R
  unfolding move_marker
  move_ref zero_bearing m s = record s {
    features = change m.id (move_marker zero_bearing m) s.features;
    vehicles = change m.id (assign_move m) s.vehicles;
  }

  unfoldable pub move_refs : R → List (MoveDelta R) → WebMap R → WebMap R
  unfolding move_ref
  move_refs zero_bearing [] s = s
  move_refs zero_bearing (m ∷ ms) s = move_refs zero_bearing ms (move_ref zero_bearing m s)

  unfoldable pub leave_ref : Text → WebMap R → WebMap R
  leave_ref id s =
      notify_if (includes s.selected_ids id) (selected_gone id)
        (record s { features = Dict.erase id s.features; vehicles = Dict.erase id s.vehicles })

  unfoldable pub leave_refs : List Text → WebMap R → WebMap R
  unfolding leave_ref
  leave_refs [] s = s
  leave_refs (id ∷ ids) s = leave_refs ids (leave_ref id s)

  unfoldable pub reconcile_refs : List Text → WebMap R → WebMap R
  reconcile_refs [] s = s
  reconcile_refs (id ∷ ids) s = reconcile_refs ids (elim (Dict.lookup id s.vehicles) [
    | none ↦ record s { events = selected_gone id ∷ s.events }
    | some _ ↦ s
  ])

  -- `scheduleFlush`: one animation frame at a time.
  unfoldable pub schedule_frame : WebMap R → WebMap R
  schedule_frame s = record s { dirty = true }

  abbrev pub lookup_active : Option Text → List (Text × Vehicle R) → Option (Vehicle R)
  lookup_active none vehicles = none
  lookup_active (some id) vehicles = if is_empty id then none else Dict.lookup id vehicles

  -- The callback of the animation frame, without the drawing.
  unfoldable pub on_frame : WebMap R → WebMap R
  on_frame s = record s {
    dirty = false;
    counts = length s.features ∷ s.counts;
    live = elim (lookup_active s.active_id s.vehicles) [ none ↦ s.live | some v ↦ v ∷ s.live ];
  }

  unfoldable pub retint : Bool → Marker R → Marker R
  retint dark f = record f {
    icon = marker_id f.owner f.line dark;
    icon_sel = selected_icon (marker_id f.owner f.line dark);
  }

  unfoldable pub retint_markers : WebMap R → WebMap R
  unfolding retint
  retint_markers s = record s { features = map_values (retint s.dark) s.features }

  -- A change of the theme: `themeRef` always has the new one, but the markers are left alone
  -- while the style is not loaded.
  unfoldable pub change_theme : Bool → Bool → WebMap R → WebMap R
  unfolding retint_markers
  change_theme style_loaded dark s =
      if style_loaded then retint_markers (record s { dark = dark }) else record s { dark = dark }

  module _ (to_upper : Text → Text) (zero_bearing : R) where
    unfoldable pub marker_of : Bool → Vehicle R → Marker R
    marker_of dark v =
        let label = (resolve_operator to_upper v.dataowner (some v.operator)).label in
        record {
          lon = v.lon;
          lat = v.lat;
          id = v.id;
          line = v.line;
          owner = label;
          type = v.type;
          delay = v.delay;
          delay_known = v.delay_known;
          bearing = bearing_or zero_bearing v.bearing;
          icon = marker_id label v.line dark;
          icon_sel = selected_icon (marker_id label v.line dark);
        }

    unfoldable pub enter_ref : Vehicle R → WebMap R → WebMap R
    unfolding marker_of
    enter_ref v s = notify_if (includes s.selected_ids v.id) (selected_back v) (record s {
      vehicles = Dict.insert v.id v s.vehicles;
      features = Dict.insert v.id (marker_of s.dark v) s.features;
    })

    unfoldable pub enter_refs : List (Vehicle R) → WebMap R → WebMap R
    unfolding enter_ref
    enter_refs [] s = s
    enter_refs (v ∷ vs) s = enter_refs vs (enter_ref v s)

    -- `onUpdate`, in the source's order.
    unfoldable pub on_update : NormalizedUpdate R → WebMap R → WebMap R
    on_update u s =
        let s' =
          leave_refs u.left
            (move_refs zero_bearing u.moved (enter_refs u.entered (clear_refs u.is_snapshot s))) in
        schedule_frame (if u.is_snapshot then reconcile_refs s'.selected_ids s' else s')
