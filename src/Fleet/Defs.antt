-- ===== src/Fleet/Defs.antt =====
-- apps/mobile/lib/vehicleStore.ts: the class `VehicleStore`. The calls of its events and of
-- `onFlush` are recorded, newest first; the clock is an argument.
use ovlive_platform.Prelude.Dict
use ovlive_platform.Types.{Vehicle, MoveDelta, NormalizedUpdate}
use ovlive_platform.Prelude.{
  ℕ, ◌+◌, ◌-◌, Bool, true, false, Option, none, some, List, [], ◌∷◌, map, if◌then◌else◌, ltb,
  length, any, Text, text_eq,
}
use ovlive_platform.Prelude.Dict.{lookup, insert, erase}
use ovlive_platform.Operator.Defs.{resolve_operator}

-- A map feature: a point with its properties.
pub record Feature (R : Type 0) : Type 0 where
  pub lon : R
  pub lat : R
  pub id : Text
  pub line : Text
  pub owner : Text
  pub type : ℕ

pub data StoreEvent (R : Type 0) : Type 0 where
  selected_gone : Text → StoreEvent R
  selected_back : Vehicle R → StoreEvent R

pub record VehicleStore (R : Type 0) : Type 0 where
  pub vehicles : List (Text × Vehicle R)
  pub features : List (Text × Feature R)
  pub selected_ids : List Text
  pub dirty : Bool
  -- The delay of the pending flush timer.
  pub timer : Option ℕ
  pub last_flush : ℕ
  pub can_flush : Bool
  pub events : List (StoreEvent R)
  pub flushed : List (List (Feature R))

unfoldable pub new_store : {R : Type 0} → VehicleStore R
new_store = record {
  vehicles = [];
  features = [];
  selected_ids = [];
  dirty = false;
  timer = none;
  last_flush = 0;
  can_flush = true;
  events = [];
  flushed = [];
}

-- `xs.includes(id)`.
unfoldable pub includes : List Text → Text → Bool
includes ids id = any (λ x. text_eq x id) ids

-- The least time between two flushes, by the number of vehicles.
unfoldable pub min_gap : ℕ → ℕ
min_gap n = if ltb 1500 n then 1000 else if ltb 600 n then 500 else 250

-- A value of a map, mutated in place if the key is there.
unfoldable pub change : {V : Type 0} → Text → (V → V) → List (Text × V) → List (Text × V)
change k f m = elim (Dict.lookup k m) [ none ↦ m | some v ↦ Dict.insert k (f v) m ]

module _ {R : Type 0} where
  abbrev pub emit_if : Bool → StoreEvent R → VehicleStore R → VehicleStore R
  emit_if b e s = if b then record s { events = e ∷ s.events } else s

  -- `Object.assign(veh, { lat, lon, delay, delayKnown, atStop, speedKmh })`.
  unfoldable pub assign_move : MoveDelta R → Vehicle R → Vehicle R
  assign_move m v = record v {
    lat = m.lat;
    lon = m.lon;
    delay = m.delay;
    delay_known = m.delay_known;
    at_stop = m.at_stop;
    speed_kmh = m.speed_kmh;
  }

  abbrev pub move_feature : MoveDelta R → Feature R → Feature R
  move_feature m f = record f { lon = m.lon; lat = m.lat }

  unfoldable pub clear : Bool → VehicleStore R → VehicleStore R
  clear is_snapshot s = if is_snapshot then record s { features = []; vehicles = [] } else s

  unfoldable pub move : MoveDelta R → VehicleStore R → VehicleStore R
  unfolding change assign_move
  move m s = record s {
    features = change m.id (move_feature m) s.features;
    vehicles = change m.id (assign_move m) s.vehicles;
  }

  unfoldable pub leave : Text → VehicleStore R → VehicleStore R
  leave id s =
      emit_if (includes s.selected_ids id) (selected_gone id)
        (record s { features = Dict.erase id s.features; vehicles = Dict.erase id s.vehicles })

  unfoldable pub move_all : List (MoveDelta R) → VehicleStore R → VehicleStore R
  unfolding move
  move_all [] s = s
  move_all (m ∷ ms) s = move_all ms (move m s)

  unfoldable pub leave_all : List Text → VehicleStore R → VehicleStore R
  unfolding leave
  leave_all [] s = s
  leave_all (id ∷ ids) s = leave_all ids (leave id s)

  -- `for (const id of this.selectedIds) if (!this.vehicles.has(id)) onSelectedGone(id)`.
  unfoldable pub reconcile : List Text → VehicleStore R → VehicleStore R
  reconcile [] s = s
  reconcile (id ∷ ids) s = reconcile ids (elim (Dict.lookup id s.vehicles) [
    | none ↦ record s { events = selected_gone id ∷ s.events }
    | some _ ↦ s
  ])

  unfoldable pub schedule_flush : ℕ → VehicleStore R → VehicleStore R
  unfolding min_gap
  schedule_flush now s = if s.dirty then s else record s {
    dirty = true;
    timer = some (s.last_flush + min_gap (length s.vehicles) - now);
  }

  -- The callback of the flush timer.
  unfoldable pub flush : ℕ → VehicleStore R → VehicleStore R
  flush now s = record s {
    dirty = false;
    timer = none;
    last_flush = now;
    flushed = if s.can_flush then map (λ e. e.1) s.features ∷ s.flushed else s.flushed;
  }

  unfoldable pub dispose : VehicleStore R → VehicleStore R
  dispose s = record s { timer = none; can_flush = false }

  module _ (to_upper : Text → Text) where
    unfoldable pub vehicle_feature : Vehicle R → Feature R
    vehicle_feature v = record {
      lon = v.lon;
      lat = v.lat;
      id = v.id;
      line = v.line;
      owner = (resolve_operator to_upper v.dataowner (some v.operator)).label;
      type = v.type;
    }

    unfoldable pub enter : Vehicle R → VehicleStore R → VehicleStore R
    enter v s = emit_if (includes s.selected_ids v.id) (selected_back v) (record s {
      vehicles = Dict.insert v.id v s.vehicles;
      features = Dict.insert v.id (vehicle_feature v) s.features;
    })

    unfoldable pub enter_all : List (Vehicle R) → VehicleStore R → VehicleStore R
    unfolding enter
    enter_all [] s = s
    enter_all (v ∷ vs) s = enter_all vs (enter v s)

    -- `apply`: what the frame does to the two maps and the events, in the source's order.
    unfoldable pub apply_frame : NormalizedUpdate R → VehicleStore R → VehicleStore R
    apply_frame u s =
        let s' =
          leave_all u.left (move_all u.moved (enter_all u.entered (clear u.is_snapshot s))) in
        if u.is_snapshot then reconcile s'.selected_ids s' else s'

    unfoldable pub apply : ℕ → NormalizedUpdate R → VehicleStore R → VehicleStore R
    apply now u s = schedule_flush now (apply_frame u s)
