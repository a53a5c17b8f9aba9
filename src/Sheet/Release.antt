-- ===== src/Sheet/Release.antt =====
-- The end of a drag of the sheet of apps/web/app/components/Sheet.tsx.
use ovlive_platform.Prelude.{
  ℕ, ◌+◌, ◌<◌, ◌≡◌, ◌≢◌, ◌⊎◌, inl, inr, refl, Bool, true, false, none, some, arith, Bool-cases,
  ◌==◌, if◌then◌else◌, ◌-◌, min, subst,
}
use native.Mathlib.Decide.{dec_lt}
use ovlive_platform.Numbers.{Numbers, NumberLaws}
use ovlive_platform.Sheet.Defs.{
  Sheet, Drag, pointer_up, release_from, release, release_snap, clamp_snap, dismiss_px,
  nearest_snap, abs, flick_px, cycle,
}
use ovlive_platform.Sheet.Heights.{nearest_snap_lem, IsNearest}

module _ (num : Numbers) (laws : NumberLaws num) (inner_height : num.R) where
  open num use {R, literal, sub, mul, div, add, less}

  abbrev pub is_flick : R → Bool
  is_flick dy = less (flick_px num) (abs num dy)

  abbrev pub IsNearestTo : R → ℕ → Type 0
  IsNearestTo h new = IsNearest num laws (mul (div h inner_height) (literal 100)) new

  -- The snap that a release at height `h` and `dy` below its start chooses.
  pub record IsChosen (h dy : R) (old new : ℕ) : Type 0 where
    pub settles : (is_flick dy ≡ true) ⊎ IsNearestTo h new
    pub flicks :
        (is_flick dy ≡ false) ⊎ ((new ≢ old) ⊎ (old ≡ (if less dy (literal 0) then 2 else 0)))
    pub adjacent :
        IsNearestTo h new
        ⊎ (IsNearestTo h old
            × (is_flick dy ≡ true)
            × (if less dy (literal 0) then new ≡ min (old + 1) 2 else new ≡ old - 1))

  release_snap-IsChosen :
      (h dy : R) (old : ℕ) → old < 3 → IsChosen h dy old (release_snap num inner_height h dy old)
  unfolding release_snap clamp_snap
  release_snap-IsChosen h dy old b =
      let percent = mul (div h inner_height) (literal 100) in
      let near = nearest_snap_lem num laws percent in
      elim (Bool-cases (nearest_snap num percent == old)) [
        | inl same ↦ elim (Bool-cases (is_flick dy)) [
          | inl flick ↦
              let kept =
                subst (IsNearestTo h) (let e : nearest_snap num percent ≡ old = ground arith in e)
                  near in
              elim (Bool-cases (less dy (literal 0))) [
                | inl up ↦
                    rw (same, flick, up)
                      (record {
                        settles = inl flick;
                        flicks = inr (elim (dec_lt old 2) [
                          | yes l ↦ inl (λ k. omega arith)
                          | no l ↦ inr (rw up (omega arith))
                        ]);
                        adjacent = inr (kept, flick, rw up refl);
                      })
                | inr down ↦
                    rw (same, flick, down)
                      (record {
                        settles = inl flick;
                        flicks = inr (elim (dec_lt 0 old) [
                          | yes l ↦ inl (λ k. omega arith)
                          | no l ↦ inr (rw down (omega arith))
                        ]);
                        adjacent = inr (kept, flick, rw down (ground arith));
                      })
              ]
          | inr slow ↦
              rw (same, slow)
                (record { settles = inr near; flicks = inl slow; adjacent = inl near })
        ]
        | inr other ↦ rw other (record {
          settles = inr near;
          flicks = inr (inl (λ k. ground arith));
          adjacent = inl near;
        })
      ]

  -- The end of a drag, with its height and its distance from the start. Below the dismissal height
  -- the sheet is closed and keeps its snap; else it is not closed, and a slow release goes to the
  -- nearest snap, and a flick never stays where it is, unless there is no snap further in its
  -- direction, and goes nowhere but to the nearest snap or from it to the next one. The click
  -- that the browser sends after the drag moves nothing.
  pub pointer_up_lem :
      (s : Sheet R) (d : Drag R) (h y : R)
      → s.snap < 3
      → s.drag ≡ some d
      → d.active ≡ true
      → s.drag_h ≡ some h
      → let t = pointer_up num inner_height y s in
        (if less h (add (dismiss_px num inner_height) (literal 1))
          then (t.closes ≡ s.closes + 1) × (t.snap ≡ s.snap)
          else (t.closes ≡ s.closes) × IsChosen h (sub y d.y) s.snap t.snap)
        × ((cycle t).snap ≡ t.snap)
        × (t.drag_h ≡ none)
  unfolding pointer_up cycle release_from release
  pointer_up_lem s d h y b e a eh =
      elim (Bool-cases (less h (add (dismiss_px num inner_height) (literal 1)))) [
        | inl low ↦ rw (e, eh, a, low) ((refl, refl), refl, refl)
        | inr high ↦
            rw (e, eh, a, high) ((refl, release_snap-IsChosen h (sub y d.y) s.snap b), refl, refl)
      ]
