-- ===== src/Sheet/Runs.antt =====
-- Every event of the sheet of apps/web/app/components/Sheet.tsx, in any order.
use ovlive_platform.Prelude.{
  ℕ, ◌+◌, ◌<◌, ◌≡◌, ◌⊎◌, inl, inr, refl, Bool, true, false, Option, none, some, arith, Bool-cases,
  ◌&&◌, not, ◌||◌,
}
use ovlive_platform.Numbers.{Numbers, NumberLaws, OrderLaws}
use ovlive_platform.Sheet.Defs.{
  Sheet, Drag, Target, new_sheet, set_mobile, pointer_down, pointer_cancel, cycle, pointer_move,
  pointer_up, pointer_move_from, drag_to, release_from, release, release_snap, clamp_snap,
  clamp_height, dismiss_px, snap_px, last_snap, is_dragging, is_no_drag,
}
use ovlive_platform.Sheet.Heights.{clamped_bounds, nearest_snap_lem}

module _ (num : Numbers) (inner_height : num.R) where
  open num use {R, literal, sub, mul, div, add, less, at_most, is_finite}

  -- The height that a move asks for is finite.
  pub data Step : Sheet R → Sheet R → Type 0 where
    resizes : (s : Sheet R) (mobile : Bool) → Step s (set_mobile mobile s)
    presses : (s : Sheet R) (t : Target) (x y height : R) → Step s (pointer_down t x y height s)
    moves :
        (s : Sheet R) (x y : R)
        → ((d : Drag R) → s.drag ≡ some d → is_finite (sub d.h (sub y d.y)) ≡ true)
        → Step s (pointer_move num inner_height x y s)
    cancels : (s : Sheet R) → Step s (pointer_cancel s)
    lifts : (s : Sheet R) (y : R) → Step s (pointer_up num inner_height y s)
    clicks : (s : Sheet R) → Step s (cycle s)

  pub data Reach (mobile : Bool) : Sheet R → Type 0 where
    start : Reach mobile (new_sheet mobile)
    next : {s t : Sheet R} → Reach mobile s → Step s t → Reach mobile t

  -- The height of a drag lies between that of a dismissal and that of the largest snap.
  abbrev pub IsWithin : R → Type 0
  IsWithin h =
      (at_most (dismiss_px num inner_height) h ≡ true)
      × (at_most h (snap_px num inner_height last_snap) ≡ true)

  abbrev pub AreWithin : Option R → Type 0
  AreWithin none = Unit
  AreWithin (some h) = IsWithin h

  pub record IsSound (s : Sheet R) : Type 0 where
    pub snap_within : s.snap < 3
    pub height_within : AreWithin s.drag_h
    pub docked : (s.mobile ≡ true) ⊎ ((s.drag ≡ none) × (s.drag_h ≡ none))

  pub record IsWindow : Type 0 where
    pub ordered : at_most (dismiss_px num inner_height) (snap_px num inner_height last_snap) ≡ true
    pub dismiss_finite : is_finite (dismiss_px num inner_height) ≡ true
    pub top_finite : is_finite (snap_px num inner_height last_snap) ≡ true

  module _ (laws : NumberLaws num) (order : OrderLaws num) (w : IsWindow) where
    new_sheet-IsSound : (mobile : Bool) → IsSound (new_sheet mobile)
    unfolding new_sheet
    new_sheet-IsSound mobile = record {
      snap_within = omega arith;
      height_within = tt;
      docked = inr (refl, refl);
    }

    clamp_height-IsWithin :
        (h : R) → is_finite h ≡ true → IsWithin (clamp_height num inner_height h)
    unfolding clamp_height
    clamp_height-IsWithin h f =
        clamped_bounds num laws order (dismiss_px num inner_height)
          (snap_px num inner_height last_snap) h w.dismiss_finite w.top_finite f w.ordered

    module _ (s : Sheet R) (v : IsSound s) where
      drag_to-IsSound :
          (d : Drag R) (dy : R)
          → s.mobile ≡ true
          → is_finite (sub d.h dy) ≡ true
          → IsSound (drag_to num inner_height d dy s)
      unfolding drag_to
      drag_to-IsSound d dy m f = record {
        snap_within = v.snap_within;
        height_within = clamp_height-IsWithin (sub d.h dy) f;
        docked = inl m;
      }

      move-IsSound :
          (o : Option (Drag R)) (x y : R)
          → s.drag ≡ o
          → ((d : Drag R) → s.drag ≡ some d → is_finite (sub d.h (sub y d.y)) ≡ true)
          → IsSound (pointer_move_from num inner_height o x y s)
      unfolding pointer_move_from
      move-IsSound none x y e f = v
      move-IsSound (some d) x y e f =
          elim (Bool-cases (not d.active && is_no_drag num d (sub x d.x) (sub y d.y))) [
            | inl still ↦ rw still v
            | inr drags ↦ rw drags (drag_to-IsSound d (sub y d.y) (ground arith) (f d e))
          ]

      release_snap-within : (h dy : R) → release_snap num inner_height h dy s.snap < 3
      unfolding release_snap clamp_snap
      release_snap-within h dy =
          let k = (nearest_snap_lem num laws (mul (div h inner_height) (literal 100))).0 in
          ground arith

      -- Nothing is dragged any more.
      let_go : ℕ → Bool → ℕ → Sheet R
      let_go snap suppress closes = record s {
        snap = snap;
        drag_h = none;
        drag = none;
        suppress_click = suppress;
        closes = closes;
      }

      let_go-IsSound :
          (snap : ℕ) (suppress : Bool) (closes : ℕ)
          → snap < 3
          → IsSound (let_go snap suppress closes)
      unfolding let_go
      let_go-IsSound snap suppress closes b = record {
        snap_within = b;
        height_within = tt;
        docked = inr (refl, refl);
      }

      release_from-IsSound :
          (o : Option (Drag R)) (p : Option R) (y : R)
          → IsSound (release_from num inner_height o p y (record s { drag = none; drag_h = none }))
      unfolding release_from release let_go
      release_from-IsSound none p y = let_go-IsSound s.snap s.suppress_click s.closes v.snap_within
      release_from-IsSound (some d) none y =
          let_go-IsSound s.snap s.suppress_click s.closes v.snap_within
      release_from-IsSound (some d) (some h) y = elim (Bool-cases d.active) [
        | inl active ↦ elim (Bool-cases (less h (add (dismiss_px num inner_height) (literal 1)))) [
          | inl low ↦ rw (active, low) (let_go-IsSound s.snap true (s.closes + 1) v.snap_within)
          | inr high ↦
              rw (active, high)
                (let_go-IsSound (release_snap num inner_height h (sub y d.y) s.snap) true s.closes
                  (release_snap-within h (sub y d.y)))
        ]
        | inr tap ↦ rw tap (let_go-IsSound s.snap s.suppress_click s.closes v.snap_within)
      ]

      set_mobile-IsSound : (mobile : Bool) → IsSound (set_mobile mobile s)
      unfolding set_mobile
      set_mobile-IsSound true = record {
        snap_within = v.snap_within;
        height_within = v.height_within;
        docked = inl refl;
      }
      set_mobile-IsSound false = record {
        snap_within = omega arith;
        height_within = tt;
        docked = inr (refl, refl);
      }

      pointer_down-IsSound : (t : Target) (x y height : R) → IsSound (pointer_down t x y height s)
      unfolding pointer_down
      pointer_down-IsSound t x y height = elim (Bool-cases s.mobile) [
        | inl sheet ↦ elim (Bool-cases (not t.in_body && not t.on_grip && t.on_control)) [
          | inl control ↦
              rw (sheet, control)
                (record {
                  snap_within = v.snap_within;
                  height_within = v.height_within;
                  docked = inl refl;
                })
          | inr surface ↦
              rw (sheet, surface)
                (record {
                  snap_within = v.snap_within;
                  height_within = v.height_within;
                  docked = inl refl;
                })
        ]
        | inr dock ↦ rw dock (record {
          snap_within = v.snap_within;
          height_within = v.height_within;
          docked = elim v.docked [ inl sheet ↦ inl (cc (dock, sheet)) | inr still ↦ inr still ];
        })
      ]

      cycle-IsSound : IsSound (cycle s)
      unfolding cycle
      cycle-IsSound = elim (Bool-cases s.suppress_click) [
        | inl dragged ↦ rw dragged (record {
          snap_within = v.snap_within;
          height_within = v.height_within;
          docked = v.docked;
        })
        | inr tap ↦ rw tap (record {
          snap_within = ground (arith, v.snap_within);
          height_within = v.height_within;
          docked = v.docked;
        })
      ]

    Step-IsSound : {s t : Sheet R} → Step s t → IsSound s → IsSound t
    unfolding pointer_move pointer_up pointer_cancel let_go
    Step-IsSound (resizes s mobile) v = set_mobile-IsSound s v mobile
    Step-IsSound (presses s t x y height) v = pointer_down-IsSound s v t x y height
    Step-IsSound (moves s x y f) v = move-IsSound s v s.drag x y refl f
    Step-IsSound (cancels s) v =
        let_go-IsSound s v s.snap (is_dragging s.drag || s.suppress_click) s.closes v.snap_within
    Step-IsSound (lifts s y) v = release_from-IsSound s v s.drag s.drag_h y
    Step-IsSound (clicks s) v = cycle-IsSound s v

    -- In every run of touches, cancelled gestures, clicks and changes of the layout, the sheet
    -- stands at one of its three snaps, a height shown during a drag lies between the height that
    -- dismisses and the largest snap, and nothing is dragged where the sheet is docked. This is for
    -- moves that ask for a finite height, in a window where the two heights are finite and ordered.
    pub Reach-IsSound : {mobile : Bool} {s : Sheet R} → Reach mobile s → IsSound s
    Reach-IsSound {mobile = mobile} start = new_sheet-IsSound mobile
    Reach-IsSound (next r st) = Step-IsSound st (Reach-IsSound r)
