-- ===== src/Sheet/Heights.antt =====
-- The heights of the sheet of apps/web/app/components/Sheet.tsx: what a drag is clamped to, and
-- which snap a height is nearest to.
use ovlive_platform.Prelude.{
  ℕ, suc, zero, ◌<◌, ◌≡◌, true, false, some, arith, get_elem?, Bool-cases, inl, inr,
}
use ovlive_platform.Numbers.{Numbers, NumberLaws, OrderLaws}
use ovlive_platform.Sheet.Defs.{snaps, snap_at, off_snap, nearest_snap, least, greatest}

module _ (num : Numbers) (laws : NumberLaws num) where
  open num use {R, less, at_most, is_finite}

  module _ (order : OrderLaws num) where
    self-at_most : (a : R) → is_finite a ≡ true → at_most a a ≡ true
    self-at_most a f = order.not_less-at_most a a f f (laws.less_irrefl a)

    -- A height clamped to a range lies in it.
    pub clamped_bounds :
        (lo hi h : R)
        → is_finite lo ≡ true
        → is_finite hi ≡ true
        → is_finite h ≡ true
        → at_most lo hi ≡ true
        → (at_most lo (least num (greatest num h lo) hi) ≡ true)
          × (at_most (least num (greatest num h lo) hi) hi ≡ true)
    clamped_bounds lo hi h fl fh f le = ground (
      arith,
      self-at_most lo fl,
      self-at_most hi fh,
      order.not_less-at_most lo h fl f,
      order.not_less-at_most lo hi fl fh,
      order.not_less-at_most h hi f fh,
    )

  -- The snap `i` lies on the list, and no snap is nearer to the height.
  abbrev pub IsNearest : R → ℕ → Type 0
  IsNearest percent i =
      (i < 3)
      × ((j : ℕ) (p : ℕ)
          → get_elem? snaps j ≡ some p
          → less (off_snap num percent p) (off_snap num percent (snap_at i)) ≡ false)

  by_snap : (P : ℕ → Type 0) (j p : ℕ) → get_elem? snaps j ≡ some p → P 32 → P 56 → P 92 → P p
  by_snap P zero p e a b c = rw (let k : p ≡ 32 = ground arith in k) a
  by_snap P (suc zero) p e a b c = rw (let k : p ≡ 56 = ground arith in k) b
  by_snap P (suc (suc zero)) p e a b c = rw (let k : p ≡ 92 = ground arith in k) c
  by_snap P (suc (suc (suc j))) p e a b c = absurd (ground arith)

  asym : (a b : R) → less a b ≡ true → less b a ≡ false
  asym a b h = ground (arith, laws.less_trans a b a, laws.less_irrefl a)

  not_less_trans : (a b c : R) → less b a ≡ true → less c a ≡ false → less c b ≡ false
  not_less_trans a b c h k = ground (arith, laws.less_trans c b a)

  pub nearest_snap_lem : (percent : R) → IsNearest percent (nearest_snap num percent)
  unfolding nearest_snap
  nearest_snap_lem percent =
      let d = off_snap num percent in
      let beats = λ (i : ℕ). λ (p : ℕ). less (d p) (d (snap_at i)) ≡ false in
      elim (Bool-cases (less (d 56) (d 32))) [
        | inl middle ↦ elim (Bool-cases (less (d 92) (d 56))) [
          | inl top ↦
              rw (middle, top)
                (
                  omega arith,
                  λ j p e.
                      by_snap (beats 2) j p e
                        (asym (d 92) (d 32) (laws.less_trans (d 92) (d 56) (d 32) top middle))
                        (asym (d 92) (d 56) top) (laws.less_irrefl (d 92)),
                )
          | inr lower ↦
              rw (middle, lower)
                (
                  omega arith,
                  λ j p e.
                      by_snap (beats 1) j p e (asym (d 56) (d 32) middle) (laws.less_irrefl (d 56))
                        lower,
                )
        ]
        | inr small ↦ elim (Bool-cases (less (d 92) (d 32))) [
          | inl top ↦
              rw (small, top)
                (
                  omega arith,
                  λ j p e.
                      by_snap (beats 2) j p e (asym (d 92) (d 32) top)
                        (not_less_trans (d 32) (d 92) (d 56) top small) (laws.less_irrefl (d 92)),
                )
          | inr lower ↦
              rw (small, lower)
                (
                  omega arith,
                  λ j p e. by_snap (beats 0) j p e (laws.less_irrefl (d 32)) small lower,
                )
        ]
      ]
