-- ===== src/Fleet/Flush.antt =====
-- When the store hands its features to the renderer.
use ovlive_platform.Prelude.Dict
use ovlive_platform.Types.{Vehicle, MoveDelta, NormalizedUpdate}
use ovlive_platform.Prelude.{
  ℕ, ◌+◌, ◌-◌, ◌≤◌, ◌≡◌, ◌∙◌, inl, inr, Bool, true, false, some, List, [], ◌∷◌, map, arith, max,
  Option-cases, if◌then◌else◌, length, Text, refl, ap,
}
use ovlive_platform.Prelude.Dict.{lookup}
use ovlive_platform.Fleet.Defs.{
  leave_all, selected_gone, reconcile, apply, move_all, clear, enter, leave, flush, move,
  VehicleStore, enter_all, schedule_flush, apply_frame, min_gap,
}

module _ {R : Type 0} where
  -- What the flushing goes by is the same in both stores.
  record SameClock (s t : VehicleStore R) : Type 0 where
    dirty : s.dirty ≡ t.dirty
    timer : s.timer ≡ t.timer
    last : s.last_flush ≡ t.last_flush
    can : s.can_flush ≡ t.can_flush
    shown : s.flushed ≡ t.flushed

  SameClock-trans : {s t u : VehicleStore R} → SameClock s t → SameClock t u → SameClock s u
  SameClock-trans h k = record {
    dirty = h.dirty ∙ k.dirty;
    timer = h.timer ∙ k.timer;
    last = h.last ∙ k.last;
    can = h.can ∙ k.can;
    shown = h.shown ∙ k.shown;
  }

  leave-SameClock : (id : Text) (s : VehicleStore R) → SameClock (leave id s) s
  unfolding leave
  leave-SameClock id s = ground arith

  leave_all-SameClock : (ids : List Text) (s : VehicleStore R) → SameClock (leave_all ids s) s
  unfolding leave_all
  leave_all-SameClock [] s = ground arith
  leave_all-SameClock (id ∷ ids) s =
      SameClock-trans (leave_all-SameClock ids (leave id s)) (leave-SameClock id s)

  move_all-SameClock : (ms : List (MoveDelta R)) (s : VehicleStore R) → SameClock (move_all ms s) s
  unfolding move_all
  move_all-SameClock [] s = ground arith
  move_all-SameClock (m ∷ ms) s = SameClock-trans (move_all-SameClock ms (move m s)) (ground arith)

  reconcile-SameClock : (ids : List Text) (s : VehicleStore R) → SameClock (reconcile ids s) s
  unfolding reconcile
  reconcile-SameClock [] s = ground arith
  reconcile-SameClock (id ∷ ids) s = elim (Option-cases (Dict.lookup id s.vehicles)) [
    | inl gone ↦
        rw (gone, reconcile)
          (SameClock-trans
            (reconcile-SameClock ids (record s { events = selected_gone id ∷ s.events }))
            (ground arith))
    | inr (v, here) ↦ rw (here, reconcile) (reconcile-SameClock ids s)
  ]

  clear-SameClock : (b : Bool) (s : VehicleStore R) → SameClock (clear b s) s
  unfolding clear
  clear-SameClock b s = ground arith

  frame-SameClock :
      (b : Bool) (s : VehicleStore R) → SameClock (if b then reconcile s.selected_ids s else s) s
  frame-SameClock true s = reconcile-SameClock s.selected_ids s
  frame-SameClock false s = ground arith

  schedule_flush_dirty : (now : ℕ) (s : VehicleStore R) → s.dirty ≡ true → schedule_flush now s ≡ s
  unfolding schedule_flush
  schedule_flush_dirty now s h = rw h refl

  schedule_flush_first :
      (now : ℕ) (s : VehicleStore R)
      → s.dirty ≡ false
      → ((schedule_flush now s).dirty ≡ true)
        × ((schedule_flush now s).can_flush ≡ s.can_flush)
        × ((schedule_flush now s).flushed ≡ s.flushed)
  unfolding schedule_flush
  schedule_flush_first now s h = rw h (refl, refl, refl)

  module _ (to_upper : Text → Text) where
    enter-SameClock : (v : Vehicle R) (s : VehicleStore R) → SameClock (enter to_upper v s) s
    unfolding enter
    enter-SameClock v s = ground arith

    enter_all-SameClock :
        (vs : List (Vehicle R)) (s : VehicleStore R) → SameClock (enter_all to_upper vs s) s
    unfolding enter_all
    enter_all-SameClock [] s = ground arith
    enter_all-SameClock (v ∷ vs) s =
        SameClock-trans (enter_all-SameClock vs (enter to_upper v s)) (enter-SameClock v s)

    apply_frame-SameClock :
        (u : NormalizedUpdate R) (s : VehicleStore R) → SameClock (apply_frame to_upper u s) s
    unfolding apply_frame
    apply_frame-SameClock u s =
        let s₁ = clear u.is_snapshot s in
        let s₂ = enter_all to_upper u.entered s₁ in
        let s₃ = move_all u.moved s₂ in
        let s₄ = leave_all u.left s₃ in
        SameClock-trans (frame-SameClock u.is_snapshot s₄) (
          SameClock-trans (leave_all-SameClock u.left s₃) (
            SameClock-trans (move_all-SameClock u.moved s₂) (
              SameClock-trans (enter_all-SameClock u.entered s₁)
                (clear-SameClock u.is_snapshot s))))

    -- A frame that finds no flush pending schedules one at the later of now and the gap after the
    -- last flush; the gap is 250 ms, 500 ms or 1000 ms by the size of the fleet after the frame.
    pub apply_schedules :
        (now : ℕ) (u : NormalizedUpdate R) (s : VehicleStore R)
        → s.dirty ≡ false
        → (wait : ℕ) × ((apply to_upper now u s).timer ≡ some wait)
          × (now + wait
              ≡ max now (s.last_flush + min_gap (length (apply_frame to_upper u s).vehicles)))
          × (250 ≤ min_gap (length (apply_frame to_upper u s).vehicles))
          × (min_gap (length (apply_frame to_upper u s).vehicles) ≤ 1000)
    unfolding apply schedule_flush
    apply_schedules now u s clean =
        let k = apply_frame-SameClock u s in
        let gap = min_gap (length (apply_frame to_upper u s).vehicles) in
        (
          s.last_flush + gap - now,
          ground (arith, k.dirty, k.last),
          omega arith,
          ground arith,
          ground arith,
        )

    -- Two frames before a flush are shown by that one flush, at the time that the first of them
    -- set, and what it shows are all the features after the second.
    pub frames_coalesce :
        (now now' later : ℕ) (u u' : NormalizedUpdate R) (s : VehicleStore R)
        → s.dirty ≡ false
        → s.can_flush ≡ true
        → ((apply to_upper now' u' (apply to_upper now u s)).timer ≡ (apply to_upper now u s).timer)
          × ((flush later (apply to_upper now' u' (apply to_upper now u s))).flushed
              ≡ map (λ e. e.1) (apply to_upper now' u' (apply to_upper now u s)).features
                ∷ s.flushed)
          × ((flush later (apply to_upper now' u' (apply to_upper now u s))).dirty ≡ false)
    unfolding apply flush
    frames_coalesce now now' later u u' s clean can =
        let s' = schedule_flush now (apply_frame to_upper u s) in
        let k = apply_frame-SameClock u s in
        let k' = apply_frame-SameClock u' s' in
        let first = schedule_flush_first now (apply_frame to_upper u s) (k.dirty ∙ clean) in
        rw
          (
            schedule_flush_dirty now' (apply_frame to_upper u' s') (k'.dirty ∙ first.0),
            k'.can ∙ first.1 ∙ k.can ∙ can,
          )
          (
            k'.timer,
            ap (λ fs. map (λ e. e.1) (apply_frame to_upper u' s').features ∷ fs)
                (k'.shown ∙ first.2 ∙ k.shown),
            refl,
          )
