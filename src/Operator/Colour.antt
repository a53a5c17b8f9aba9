-- ===== src/Operator/Colour.antt =====
-- The colours derived from a name: hashStyle and hslToHex of packages/shared/src/format.ts.
use ovlive_platform.Prelude.{
  ℕ, ◌+◌, ◌*◌, ◌%◌, ◌^◌, ◌≤◌, ◌<◌, ◌≡◌, refl, Bool, true, ◌&&◌, ◌||◌, [], ◌∷◌, arith, leb,
  All-append, All, length, Text, ◌++◌,
}
use ovlive_platform.Prelude.Int.{abs, ◌+ℤ◌, ◌%ℤ◌, pos, ◌-ℤ◌}
use ovlive_platform.Operator.Defs.{hash_style, hex2, channel, hash_from, signed32, hue_of}

hash_from-lt : (h : ℕ) (s : Text) → h < 2 ^ 32 → hash_from h s < 2 ^ 32
unfolding hash_from
hash_from-lt h [] p = p
hash_from-lt h (c ∷ s) p = hash_from-lt ((h * 31 + c) % 2 ^ 32) s (omega arith)

-- Whatever the hash, the hue is one of the 360 degrees, and congruent to the signed hash.
pub hue_of-lt :
    (w : ℕ) → w < 2 ^ 32 → (hue_of w < 360) × (abs (signed32 w -ℤ pos (hue_of w)) % 360 ≡ 0)
unfolding hue_of ◌%ℤ◌ ◌+ℤ◌ ◌-ℤ◌
hue_of-lt w h = (ground arith, ground arith)

abbrev pub is_hex_digit : ℕ → Bool
is_hex_digit c = (leb 48 c && leb c 57) || (leb 97 c && leb c 102)

hex2-is_hex : (x : ℕ) → x < 256 → All (λ c. is_hex_digit c ≡ true) (hex2 x)
hex2-is_hex x h = (ground arith, (ground arith, tt))

-- At the saturation and the lightness that `hashStyle` uses every channel is a byte between 43
-- and 161.
pub channel_range : (h n : ℕ) → (43 ≤ channel h 58 40 n) × (channel h 58 40 n ≤ 161)
unfolding channel
channel_range h n = (ground arith, ground arith)

abbrev pub IsHex : Text → Type 0
IsHex s = All (λ c. is_hex_digit c ≡ true) s

channel-IsHex : (h n : ℕ) → IsHex (hex2 (channel h 58 40 n))
channel-IsHex h n = hex2-is_hex (channel h 58 40 n) (omega (arith, channel_range h n))

-- A colour derived from any name is `#` and six hexadecimal digits.
pub hash_style-IsHex :
    (seed : Text)
    → (digits : Text) × ((hash_style seed).bg ≡ b'#' ∷ digits) × (length digits ≡ 6) × IsHex digits
unfolding hash_style
hash_style-IsHex seed =
    let h = hue_of (hash_from 0 seed) in
    let tail = hex2 (channel h 58 40 8) ++ hex2 (channel h 58 40 4) in
    let is_hex = λ (c : ℕ). is_hex_digit c ≡ true in
    (
      hex2 (channel h 58 40 0) ++ tail,
      refl,
      refl,
      All-append is_hex (hex2 (channel h 58 40 0)) tail (channel-IsHex h 0) (
          All-append is_hex (hex2 (channel h 58 40 8)) (hex2 (channel h 58 40 4))
            (channel-IsHex h 8) (channel-IsHex h 4)),
    )
