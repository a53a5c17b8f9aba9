-- ===== src/Fleet/Contents.antt =====
-- What the two maps of the store hold after a frame.
use ovlive_platform.Prelude.Dict
use ovlive_platform.Types.{Vehicle, MoveDelta, NormalizedUpdate}
use ovlive_platform.Prelude.{
  ◌≡◌, refl, ap, ◌∙◌, inl, inr, ◌||◌, Option, none, some, List, [], ◌∷◌, arith, if◌then◌else◌,
  Option-cases, text_eq_iff, Text, text_eq, ℕ, Bool, true, false,
}
use ovlive_platform.Prelude.Dict.{lookup-erase, lookup, lookup-insert}
use ovlive_platform.Fleet.Defs.{
  leave_all, change, assign_move, move, leave, includes, move_all, VehicleStore, reconcile,
  enter_all, selected_gone, clear, enter, vehicle_feature, apply, move_feature, apply_frame,
  schedule_flush,
}

abbrev pub map_option : {A B : Type 0} → (A → B) → Option A → Option B
map_option f none = none
map_option f (some a) = some (f a)

pub lookup-change :
    {V : Type 0} (k j : Text) (f : V → V) (m : List (Text × V))
    → Dict.lookup j (change k f m)
      ≡ (if text_eq k j then map_option f (Dict.lookup j m) else Dict.lookup j m)
unfolding change
lookup-change k j f m = elim (Option-cases (Dict.lookup k m)) [
  | inl gone ↦ rw (gone, change) (ground (arith, text_eq_iff k j))
  | inr (v, found) ↦
      rw (found, change) (ground (arith, text_eq_iff k j, Dict.lookup-insert k j (f v) m))
]

pub includes-cons :
    (x : Text) (xs : List Text) (id : Text)
    → includes (x ∷ xs) id ≡ (text_eq x id || includes xs id)
unfolding includes
includes-cons x xs id = refl

module _ {R : Type 0} where
  -- The vehicle `id` after a list of full states: the last of them with this id counts.
  abbrev pub entered_as : List (Vehicle R) → Text → Option (Vehicle R) → Option (Vehicle R)
  entered_as [] id o = o
  entered_as (v ∷ vs) id o = entered_as vs id (if text_eq v.id id then some v else o)

  -- The vehicle `id` after a list of deltas: those with this id move it, if it is known.
  abbrev pub moved_as : List (MoveDelta R) → Text → Option (Vehicle R) → Option (Vehicle R)
  moved_as [] id o = o
  moved_as (m ∷ ms) id o =
      moved_as ms id (if text_eq m.id id then map_option (assign_move m) o else o)

  lookup-move_all :
      (ms : List (MoveDelta R)) (s : VehicleStore R) (id : Text)
      → Dict.lookup id (move_all ms s).vehicles ≡ moved_as ms id (Dict.lookup id s.vehicles)
  unfolding move_all
  lookup-move_all [] s id = refl
  lookup-move_all (m ∷ ms) s id =
      lookup-move_all ms (move m s) id
      ∙ ap (moved_as ms id) (lookup-change m.id id (assign_move m) s.vehicles)

  lookup-leave_all :
      (ids : List Text) (s : VehicleStore R) (id : Text)
      → Dict.lookup id (leave_all ids s).vehicles
        ≡ (if includes ids id then none else Dict.lookup id s.vehicles)
  unfolding leave_all includes
  lookup-leave_all [] s id = refl
  lookup-leave_all (x ∷ ids) s id =
      ground (arith, lookup-leave_all ids (leave x s) id, Dict.lookup-erase x id s.vehicles)

  pub reconcile_same :
      (ids : List Text) (s : VehicleStore R)
      → ((reconcile ids s).vehicles ≡ s.vehicles)
        × ((reconcile ids s).features ≡ s.features)
        × ((reconcile ids s).selected_ids ≡ s.selected_ids)
  unfolding reconcile
  reconcile_same [] s = (refl, refl, refl)
  reconcile_same (id ∷ ids) s = elim (Option-cases (Dict.lookup id s.vehicles)) [
    | inl gone ↦
        rw (gone, reconcile)
          (reconcile_same ids (record s { events = selected_gone id ∷ s.events }))
    | inr (v, here) ↦ rw (here, reconcile) (reconcile_same ids s)
  ]

  module _ (to_upper : Text → Text) where
    lookup-enter_all :
        (vs : List (Vehicle R)) (s : VehicleStore R) (id : Text)
        → Dict.lookup id (enter_all to_upper vs s).vehicles
          ≡ entered_as vs id (Dict.lookup id s.vehicles)
    unfolding enter_all
    lookup-enter_all [] s id = refl
    lookup-enter_all (v ∷ vs) s id =
        lookup-enter_all vs (enter to_upper v s) id ∙ ap (entered_as vs id) (step v s id)
      where
        step :
            (v : Vehicle R) (s : VehicleStore R) (id : Text)
            → Dict.lookup id (enter to_upper v s).vehicles
              ≡ (if text_eq v.id id then some v else Dict.lookup id s.vehicles)
        step v s id = ground (arith, Dict.lookup-insert v.id id v s.vehicles)

    -- After a frame, each vehicle is what the frame makes of it: what was known before counts
    -- unless the frame is a snapshot, then the last full state that entered, then the deltas in
    -- their order, and a vehicle that left is not there.
    pub lookup-apply_frame :
        (u : NormalizedUpdate R) (s : VehicleStore R) (id : Text)
        → Dict.lookup id (apply_frame to_upper u s).vehicles ≡ (
            if includes u.left id
            then none
            else moved_as u.moved id (
                entered_as u.entered id
                  (if u.is_snapshot then none else Dict.lookup id s.vehicles)))
    unfolding apply_frame clear Dict.lookup
    lookup-apply_frame u s id =
        let s₁ = clear u.is_snapshot s in
        let s₂ = enter_all to_upper u.entered s₁ in
        let s₃ = move_all u.moved s₂ in
        let s₄ = leave_all u.left s₃ in
        ground (
          arith,
          reconcile_same s₄.selected_ids s₄,
          lookup-leave_all u.left s₃ id,
          lookup-move_all u.moved s₂ id,
          lookup-enter_all u.entered s₁ id,
        )

  -- The two maps agree: under each id the features hold the feature of the vehicle that the
  -- vehicles hold, and nothing else.
  abbrev pub IsShown : (Text → Text) → VehicleStore R → Type 0
  IsShown to_upper s =
      (id : Text)
      → Dict.lookup id s.features
        ≡ map_option (vehicle_feature to_upper) (Dict.lookup id s.vehicles)

  module _ (to_upper : Text → Text) where
    enter-IsShown :
        (v : Vehicle R) (s : VehicleStore R)
        → IsShown to_upper s
        → IsShown to_upper (enter to_upper v s)
    unfolding enter
    enter-IsShown v s h id = ground (
      arith,
      h id,
      Dict.lookup-insert v.id id v s.vehicles,
      Dict.lookup-insert v.id id (vehicle_feature to_upper v) s.features,
    )

    move-IsShown :
        (m : MoveDelta R) (s : VehicleStore R) → IsShown to_upper s → IsShown to_upper (move m s)
    unfolding move vehicle_feature
    move-IsShown m s h id = ground (
      arith,
      h id,
      lookup-change m.id id (assign_move m) s.vehicles,
      lookup-change m.id id (move_feature m) s.features,
    )

    leave-IsShown :
        (x : Text) (s : VehicleStore R) → IsShown to_upper s → IsShown to_upper (leave x s)
    unfolding leave
    leave-IsShown x s h id =
        ground (arith, h id, Dict.lookup-erase x id s.vehicles, Dict.lookup-erase x id s.features)

    enter_all-IsShown :
        (vs : List (Vehicle R)) (s : VehicleStore R)
        → IsShown to_upper s
        → IsShown to_upper (enter_all to_upper vs s)
    unfolding enter_all
    enter_all-IsShown [] s h = h
    enter_all-IsShown (v ∷ vs) s h = enter_all-IsShown vs (enter to_upper v s) (enter-IsShown v s h)

    move_all-IsShown :
        (ms : List (MoveDelta R)) (s : VehicleStore R)
        → IsShown to_upper s
        → IsShown to_upper (move_all ms s)
    unfolding move_all
    move_all-IsShown [] s h = h
    move_all-IsShown (m ∷ ms) s h = move_all-IsShown ms (move m s) (move-IsShown m s h)

    leave_all-IsShown :
        (ids : List Text) (s : VehicleStore R)
        → IsShown to_upper s
        → IsShown to_upper (leave_all ids s)
    unfolding leave_all
    leave_all-IsShown [] s h = h
    leave_all-IsShown (x ∷ ids) s h = leave_all-IsShown ids (leave x s) (leave-IsShown x s h)

    clear-IsShown :
        (b : Bool) (s : VehicleStore R) → IsShown to_upper s → IsShown to_upper (clear b s)
    unfolding clear Dict.lookup
    clear-IsShown true s h = λ id. refl
    clear-IsShown false s h = h

    reconcile-IsShown :
        (ids : List Text) (s : VehicleStore R)
        → IsShown to_upper s
        → IsShown to_upper (reconcile ids s)
    reconcile-IsShown ids s h id = let (ev, ef, es) = reconcile_same ids s in rw (ev, ef) (h id)

    frame-IsShown :
        (b : Bool) (s : VehicleStore R)
        → IsShown to_upper s
        → IsShown to_upper (if b then reconcile s.selected_ids s else s)
    frame-IsShown true s h = reconcile-IsShown s.selected_ids s h
    frame-IsShown false s h = h

    pub schedule_flush_same :
        (now : ℕ) (s : VehicleStore R)
        → ((schedule_flush now s).vehicles ≡ s.vehicles)
          × ((schedule_flush now s).features ≡ s.features)
          × ((schedule_flush now s).events ≡ s.events)
    unfolding schedule_flush
    schedule_flush_same now s = ground arith

    -- The map always shows the fleet: if the features are those of the vehicles before a frame,
    -- they are after it, for every frame and every vehicle.
    pub apply-IsShown :
        (now : ℕ) (u : NormalizedUpdate R) (s : VehicleStore R)
        → IsShown to_upper s
        → IsShown to_upper (apply to_upper now u s)
    unfolding apply apply_frame
    apply-IsShown now u s h id =
        let s' =
          leave_all u.left
            (move_all u.moved (enter_all to_upper u.entered (clear u.is_snapshot s))) in
        let framed = frame-IsShown u.is_snapshot s' (
          leave_all-IsShown u.left _ (
            move_all-IsShown u.moved _
              (enter_all-IsShown u.entered _ (clear-IsShown u.is_snapshot s h)))) in
        let (ev, ef, ee) = schedule_flush_same now (apply_frame to_upper u s) in
        rw (ev, ef) (framed id)
