-- ===== src/Numbers.antt =====
-- The floating-point numbers, which the clients use for coordinates: the operations that the
-- source calls are parameters, with what it relies on as named laws.
use ovlive_platform.Prelude.{ℕ, ◌+◌, ◌-◌, ◌*◌, ◌/◌, ◌≡◌, Bool, true, arith, leb, ltb, false}

pub record Numbers : Type 1 where
  pub R : Type 0
  -- A numeric literal, and `Infinity`.
  pub literal : ℕ → R
  pub infinity : R
  pub pi : R
  pub add : R → R → R
  pub sub : R → R → R
  pub mul : R → R → R
  pub div : R → R → R
  pub cos : R → R
  pub sqrt : R → R
  pub is_finite : R → Bool
  -- `a < b` and `a <= b`; false where a side is not a number.
  pub less : R → R → Bool
  pub at_most : R → R → Bool

-- The strict order is transitive and irreflexive, and taking a number that is not negative
-- away (adding it) does not make a number larger (smaller), with the rounding of the
-- operations, for finite numbers.
pub record NumberLaws (num : Numbers) : Type 0 where
  pub less_trans : (a b c : num.R) → num.less a b ≡ true → num.less b c ≡ true → num.less a c ≡ true
  pub less_irrefl : (a : num.R) → num.less a a ≡ false
  pub sub_nonneg :
      (a b : num.R)
      → num.is_finite a ≡ true
      → num.is_finite b ≡ true
      → num.at_most a b ≡ true
      → num.at_most (num.literal 0) (num.sub b a) ≡ true
  pub mul_nonneg :
      (a b : num.R)
      → num.is_finite a ≡ true
      → num.is_finite b ≡ true
      → num.at_most (num.literal 0) a ≡ true
      → num.at_most (num.literal 0) b ≡ true
      → num.at_most (num.literal 0) (num.mul a b) ≡ true
  pub sub-at_most :
      (a d : num.R)
      → num.is_finite a ≡ true
      → num.is_finite d ≡ true
      → num.at_most (num.literal 0) d ≡ true
      → num.at_most (num.sub a d) a ≡ true
  pub at_most-add :
      (a d : num.R)
      → num.is_finite a ≡ true
      → num.is_finite d ≡ true
      → num.at_most (num.literal 0) d ≡ true
      → num.at_most a (num.add a d) ≡ true

-- The two orders agree, for finite numbers.
pub record OrderLaws (num : Numbers) : Type 0 where
  pub less-at_most : (a b : num.R) → num.less a b ≡ true → num.at_most a b ≡ true
  pub not_less-at_most :
      (a b : num.R)
      → num.is_finite a ≡ true
      → num.is_finite b ≡ true
      → num.less b a ≡ false
      → num.at_most a b ≡ true

-- Whole degrees, where the number 10^21 stands for `Infinity` and `pi` is half a turn, meet the
-- laws.
abbrev pub whole_degrees : Numbers
whole_degrees = record {
  R = ℕ;
  literal = λ n. n;
  infinity = 1000000000000000000000;
  pi = 180;
  add = λ a b. a + b;
  sub = λ a b. a - b;
  mul = λ a b. a * b;
  div = λ a b. a / b;
  cos = λ a. 1;
  sqrt = λ a. a;
  is_finite = λ a. ltb a 1000000000000000000000;
  less = ltb;
  at_most = leb;
}

pub whole_degrees_laws : NumberLaws whole_degrees
whole_degrees_laws = record {
  less_trans = λ a b c h k. ground arith;
  less_irrefl = λ a. ground arith;
  sub_nonneg = λ a b f g h. ground arith;
  mul_nonneg = λ a b f g h k. ground arith;
  sub-at_most = λ a d f g h. ground arith;
  at_most-add = λ a d f g h. ground arith;
}

pub whole_degrees_order : OrderLaws whole_degrees
whole_degrees_order = record {
  less-at_most = λ a b h. ground arith;
  not_less-at_most = λ a b f g h. ground arith;
}

-- Positive numbers in hundredths, which meet the laws too.
abbrev pub hundredths : Numbers
hundredths = record {
  R = ℕ;
  literal = λ n. n * 100;
  infinity = 1000000000000000000000;
  pi = 314;
  add = λ a b. a + b;
  sub = λ a b. a - b;
  mul = λ a b. a * b / 100;
  div = λ a b. a * 100 / b;
  cos = λ a. 100;
  sqrt = λ a. a;
  is_finite = λ a. ltb a 1000000000000000000000;
  less = ltb;
  at_most = leb;
}

pub hundredths_laws : NumberLaws hundredths
hundredths_laws = record {
  less_trans = λ a b c h k. ground arith;
  less_irrefl = λ a. ground arith;
  sub_nonneg = λ a b f g h. ground arith;
  mul_nonneg = λ a b f g h k. ground arith;
  sub-at_most = λ a d f g h. ground arith;
  at_most-add = λ a d f g h. ground arith;
}

pub hundredths_order : OrderLaws hundredths
hundredths_order = record {
  less-at_most = λ a b h. ground arith;
  not_less-at_most = λ a b f g h. ground arith;
}
