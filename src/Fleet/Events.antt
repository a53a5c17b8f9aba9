-- ===== src/Fleet/Events.antt =====
-- What the store reports about the selected vehicles.
use ovlive_platform.Prelude.Dict
use ovlive_platform.Types.{Vehicle, MoveDelta, NormalizedUpdate}
use ovlive_platform.Fleet.Contents.{includes-cons, reconcile_same}
use ovlive_platform.Prelude.{
  ◌≡◌, refl, inl, inr, Bool, true, false, ◌&&◌, ◌||◌, Option, none, some, List, [], ◌∷◌, arith,
  Option-cases, any, text_eq_iff, text_eq, Text, ap,
}
use ovlive_platform.Prelude.Dict.{lookup}
use ovlive_platform.Fleet.Defs.{
  apply_frame, VehicleStore, move, clear, leave_all, reconcile, move_all, enter_all, includes,
  StoreEvent, leave, selected_gone, enter, selected_back,
}

abbrev pub absent : {V : Type 0} → Option V → Bool
absent none = true
absent (some v) = false

module _ {R : Type 0} where
  abbrev pub is_gone : Text → StoreEvent R → Bool
  is_gone id (selected_gone x) = text_eq x id
  is_gone id (selected_back v) = false

  abbrev pub is_back : Text → StoreEvent R → Bool
  is_back id (selected_gone x) = false
  is_back id (selected_back v) = text_eq v.id id

  -- Whether `id` was reported gone, or back.
  abbrev pub gone : Text → VehicleStore R → Bool
  gone id s = any (is_gone id) s.events

  abbrev pub back : Text → VehicleStore R → Bool
  back id s = any (is_back id) s.events

  gone-reconcile :
      (ids : List Text) (s : VehicleStore R) (id : Text)
      → (gone id (reconcile ids s)
          ≡ (gone id s || (includes ids id && absent (Dict.lookup id s.vehicles))))
        × (back id (reconcile ids s) ≡ back id s)
  unfolding reconcile includes
  gone-reconcile [] s id = ground arith
  gone-reconcile (x ∷ ids) s id = elim (Option-cases (Dict.lookup x s.vehicles)) [
    | inl missing ↦
        rw (missing, reconcile)
          (ground (
            arith,
            text_eq_iff x id,
            gone-reconcile ids (record s { events = selected_gone x ∷ s.events }) id,
          ))
    | inr (v, here) ↦
        rw (here, reconcile) (ground (arith, text_eq_iff x id, gone-reconcile ids s id))
  ]

  leave_all_ids :
      (ids : List Text) (s : VehicleStore R) → (leave_all ids s).selected_ids ≡ s.selected_ids
  unfolding leave_all
  leave_all_ids [] s = refl
  leave_all_ids (x ∷ ids) s = ground (arith, leave_all_ids ids (leave x s))

  gone-leave_all :
      (ids : List Text) (s : VehicleStore R) (id : Text)
      → (gone id (leave_all ids s) ≡ (gone id s || (includes s.selected_ids id && includes ids id)))
        × (back id (leave_all ids s) ≡ back id s)
  unfolding leave_all includes
  gone-leave_all [] s id = ground arith
  gone-leave_all (x ∷ ids) s id =
      ground (arith, text_eq_iff x id, includes-cons x ids id, gone-leave_all ids (leave x s) id)

  move_all_same :
      (ms : List (MoveDelta R)) (s : VehicleStore R)
      → ((move_all ms s).events ≡ s.events) × ((move_all ms s).selected_ids ≡ s.selected_ids)
  unfolding move_all
  move_all_same [] s = (refl, refl)
  move_all_same (m ∷ ms) s = move_all_same ms (move m s)

  module _ (to_upper : Text → Text) where
    gone-enter_all :
        (vs : List (Vehicle R)) (s : VehicleStore R) (id : Text)
        → (gone id (enter_all to_upper vs s) ≡ gone id s)
          × (back id (enter_all to_upper vs s)
              ≡ (back id s || (includes s.selected_ids id && any (λ v. text_eq v.id id) vs)))
          × ((enter_all to_upper vs s).selected_ids ≡ s.selected_ids)
    unfolding enter_all
    gone-enter_all [] s id = ground arith
    gone-enter_all (v ∷ vs) s id =
        ground (arith, text_eq_iff v.id id, gone-enter_all vs (enter to_upper v s) id)

    -- A frame reports a vehicle gone exactly when it is selected and has left the stream: it is
    -- listed as left, or the frame is a snapshot and the vehicle is not there after it. It reports
    -- a vehicle back exactly when it is selected and listed as entered.
    pub apply_frame_reports :
        (u : NormalizedUpdate R) (s : VehicleStore R) (id : Text)
        → (gone id (apply_frame to_upper u s) ≡ (
            gone id s
            || (includes s.selected_ids id
                && (includes u.left id
                    || (u.is_snapshot
                        && absent (Dict.lookup id (apply_frame to_upper u s).vehicles))))))
          × (back id (apply_frame to_upper u s)
              ≡ (back id s || (includes s.selected_ids id && any (λ v. text_eq v.id id) u.entered)))
    unfolding apply_frame clear
    apply_frame_reports u s id =
        let s₁ = clear u.is_snapshot s in
        let s₂ = enter_all to_upper u.entered s₁ in
        let s₃ = move_all u.moved s₂ in
        let s₄ = leave_all u.left s₃ in
        ground (
          arith,
          gone-reconcile s₄.selected_ids s₄ id,
          reconcile_same s₄.selected_ids s₄,
          gone-leave_all u.left s₃ id,
          leave_all_ids u.left s₃,
          ap (λ e. any (is_gone id) e) (move_all_same u.moved s₂).0,
          ap (λ e. any (is_back id) e) (move_all_same u.moved s₂).0,
          move_all_same u.moved s₂,
          gone-enter_all u.entered s₁ id,
        )
