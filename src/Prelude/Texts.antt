-- ===== src/Prelude/Texts.antt =====
-- Texts as lists of UTF-16 code units, with `===`, `String(n)` and `padStart(2, "0")`.
use Prim.Native.Nat.{ℕ, zero, suc, ◌+◌, ◌-◌, ◌*◌, ◌/◌, ◌%◌, ◌≤◌, ◌<◌}
use Prim.Native.Char.{code}
use Prim.Native.String.{String}
use mathlib.Core.Path.{◌≡◌, refl}
use mathlib.Core.Logic.{◌↔◌}
use mathlib.Core.Bool.{Bool, true, false, ◌&&◌}
use mathlib.Core.List.{List, [], ◌∷◌, ◌++◌}
use native.Mathlib.Omega.{arith}
use native.Mathlib.Decide.{dec_lt}
use ovlive_platform.Prelude.Lists.{All, All-append}
use ovlive_platform.Prelude.Tests.{ltb, lt→ltb, ge→ltb, ◌==◌, if◌then◌else◌}

abbrev pub Text : Type 0
Text = List ℕ

-- The code units of a literal (the literals of the source lie in the basic plane).
abbrev pub codes : String → Text
codes String.[] = []
codes (String.◌∷◌ c s) = code c ∷ codes s

-- `a === b` on strings.
unfoldable pub text_eq : Text → Text → Bool
text_eq [] [] = true
text_eq (a ∷ x) (b ∷ y) = (a == b) && text_eq x y
text_eq _ _ = false

text_eq_sound : (x y : Text) → text_eq x y ≡ true → x ≡ y
unfolding text_eq
text_eq_sound [] [] h = refl
text_eq_sound (a ∷ x) (b ∷ y) h = ground (arith, text_eq_sound x y)
text_eq_sound _ _ h = ground arith

pub text_eq_refl : (x : Text) → text_eq x x ≡ true
unfolding text_eq
text_eq_refl [] = refl
text_eq_refl (a ∷ x) = ground (arith, text_eq_refl x)

-- The test decides equality.
pub text_eq_iff : (x y : Text) → (text_eq x y ≡ true) ↔ (x ≡ y)
text_eq_iff x y = (text_eq_sound x y, λ e. rw e (text_eq_refl y))

-- `!s` and `a || b` on strings.
abbrev pub is_empty : Text → Bool
is_empty [] = true
is_empty (_ ∷ _) = false

abbrev pub or_text : Text → Text → Text
or_text [] d = d
or_text (a ∷ s) d = a ∷ s

-- `String(n)` of a natural number, on fuel.
decimal : ℕ → ℕ → Text
decimal zero n = []
decimal (suc f) n =
    let rest = decimal f (n / 10) ++ (48 + n % 10) ∷ [] in if ltb n 10 then (48 + n) ∷ [] else rest

unfoldable pub to_string : ℕ → Text
unfolding decimal
to_string n = decimal (suc n) n

-- `s.padStart(2, "0")`.
unfoldable pub pad_start2 : Text → Text
pad_start2 [] = b'0' ∷ b'0' ∷ []
pad_start2 (a ∷ []) = b'0' ∷ a ∷ []
pad_start2 (a ∷ b ∷ s) = a ∷ b ∷ s

-- Reading a run of digits back, most significant first.
unfoldable pub parse_from : ℕ → Text → ℕ
parse_from acc [] = acc
parse_from acc (c ∷ s) = parse_from (acc * 10 + (c - 48)) s

abbrev pub parse_decimal : Text → ℕ
parse_decimal s = parse_from 0 s

parse_from-snoc :
    (acc c : ℕ) (s : Text) → parse_from acc (s ++ c ∷ []) ≡ parse_from acc s * 10 + (c - 48)
unfolding parse_from
parse_from-snoc acc c [] = refl
parse_from-snoc acc c (d ∷ s) = parse_from-snoc (acc * 10 + (d - 48)) c s

parse-decimal : (f n : ℕ) → n < f → parse_from 0 (decimal f n) ≡ n
unfolding decimal parse_from
parse-decimal zero n h = elim h [ ]
parse-decimal (suc f) n h =
    ground (arith, parse_from-snoc 0 (48 + n % 10) (decimal f (n / 10)), parse-decimal f (n / 10))

-- Printing and reading back is the identity.
pub parse-to_string : (n : ℕ) → parse_decimal (to_string n) ≡ n
unfolding to_string
parse-to_string n = parse-decimal (suc n) n (omega arith)

pub parse-pad_start2 : (s : Text) → parse_decimal (pad_start2 s) ≡ parse_decimal s
unfolding pad_start2 parse_from
parse-pad_start2 [] = refl
parse-pad_start2 (a ∷ []) = refl
parse-pad_start2 (a ∷ b ∷ s) = refl

to_string-lt10 : (f n : ℕ) → n < 10 → decimal (suc f) n ≡ (48 + n) ∷ []
unfolding decimal
to_string-lt10 f n h = rw (lt→ltb n 10 h)

to_string-lt100 : (n : ℕ) → n < 100 → 10 ≤ n → to_string n ≡ (48 + n / 10) ∷ (48 + n % 10) ∷ []
unfolding to_string
to_string-lt100 zero h k = absurd (omega arith)
to_string-lt100 (suc n) h k =
    rw (ge→ltb (suc n) 10 k, to_string-lt10 n (suc n / 10) (omega arith)) refl

-- A number below 100 is padded to exactly two digits.
pub pad2_digits : (n : ℕ) → n < 100 → pad_start2 (to_string n) ≡ (48 + n / 10) ∷ (48 + n % 10) ∷ []
unfolding pad_start2 to_string
pad2_digits n h = elim (dec_lt n 10) [
  | yes p ↦ rw (to_string-lt10 n n p) (ground arith)
  | no p ↦ rw (to_string-lt100 n h (omega arith))
]

decimal-digits : (f n : ℕ) → All (λ c. c < 58) (decimal f n)
unfolding decimal
decimal-digits zero n = tt
decimal-digits (suc f) n = elim (dec_lt n 10) [
  | yes p ↦ rw (lt→ltb n 10 p) (omega arith, tt)
  | no p ↦ rw (ge→ltb n 10 (omega arith)) (
      All-append _ (decimal f (n / 10)) ((48 + n % 10) ∷ []) (decimal-digits f (n / 10))
        (omega arith, tt))
]

pub to_string-digits : (n : ℕ) → All (λ c. c < 58) (to_string n)
unfolding to_string
to_string-digits n = decimal-digits (suc n) n
