-- ===== src/Split.antt =====
-- `String.prototype.split` and `Array.prototype.join` with a separator of one character.
use ovlive_platform.Prelude.{
  ℕ, ◌≡◌, refl, ap, ◌∙◌, ◌≢◌, List, [], ◌∷◌, ◌++◌, arith, ◌==◌, if◌then◌else◌, All, Text,
}

-- No character of the text is `c`.
abbrev pub Lacks : ℕ → Text → Type 0
Lacks c s = All (λ d. d ≢ c) s

-- The first part with a character in front.
abbrev pub extend : ℕ → List Text → List Text
extend c [] = (c ∷ []) ∷ []
extend c (p ∷ ps) = (c ∷ p) ∷ ps

unfoldable pub split_on : ℕ → Text → List Text
split_on sep [] = [] ∷ []
split_on sep (c ∷ s) = let rest = split_on sep s in if c == sep then [] ∷ rest else extend c rest

unfoldable pub join_with : ℕ → List Text → Text
join_with sep [] = []
join_with sep (p ∷ []) = p
join_with sep (p ∷ q ∷ ps) = p ++ sep ∷ join_with sep (q ∷ ps)

split_on-part :
    (sep : ℕ) (p s : Text) → Lacks sep p → split_on sep (p ++ sep ∷ s) ≡ p ∷ split_on sep s
unfolding split_on
split_on-part sep [] s h = ground arith
split_on-part sep (c ∷ p) s (n, h) = ground (arith, split_on-part sep p s h)

split_on-last : (sep : ℕ) (p : Text) → Lacks sep p → split_on sep p ≡ p ∷ []
unfolding split_on
split_on-last sep [] h = refl
split_on-last sep (c ∷ p) (n, h) = ground (arith, split_on-last sep p h)

-- Splitting what was joined gives the parts back, where none has the separator.
pub split_on-join_with :
    (sep : ℕ) (p : Text) (ps : List Text)
    → All (Lacks sep) (p ∷ ps)
    → split_on sep (join_with sep (p ∷ ps)) ≡ p ∷ ps
unfolding join_with
split_on-join_with sep p [] (h, hs) = split_on-last sep p h
split_on-join_with sep p (q ∷ ps) (h, hs) =
    split_on-part sep p (join_with sep (q ∷ ps)) h
    ∙ ap (λ xs. p ∷ xs) (split_on-join_with sep q ps hs)
