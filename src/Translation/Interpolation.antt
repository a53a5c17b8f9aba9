-- ===== src/Translation/Interpolation.antt =====
-- Variables in a text.
use ovlive_platform.Prelude.{◌≡◌, refl, ap, false, none, some, [], ◌∷◌, ◌++◌, arith, ◌==◌, Text}
use ovlive_platform.Translation.Defs.{expand, strip_prefix, replace_first, braces, split_at_first}
use ovlive_platform.Split.{Lacks}

strip_prefix-append : (p s : Text) → strip_prefix p (p ++ s) ≡ some s
unfolding strip_prefix
strip_prefix-append [] s = refl
strip_prefix-append (c ∷ p) s = ground (arith, strip_prefix-append p s)

split_at_first-append :
    (p before after : Text)
    → Lacks 123 before
    → split_at_first (123 ∷ p) (before ++ (123 ∷ p ++ after)) ≡ some (before, after)
unfolding split_at_first strip_prefix
split_at_first-append p [] after h = rw (strip_prefix-append p after) refl
split_at_first-append p (c ∷ before) after (n, h) =
    ground (arith, split_at_first-append p before after h)

split_at_first-none : (p s : Text) → Lacks 123 s → split_at_first (123 ∷ p) s ≡ none
unfolding split_at_first strip_prefix
split_at_first-none p [] h = refl
split_at_first-none p (c ∷ s) (n, h) = ground (arith, split_at_first-none p s h)

expand-plain : (b m a v : Text) → Lacks 36 v → expand b m a v ≡ v
unfolding expand
expand-plain b m a [] h = refl
expand-plain b m a (c ∷ []) h = refl
expand-plain b m a (c ∷ d ∷ v) (n, h) =
    let e : (c == 36) ≡ false = ground arith in
    rw e (ap (λ s. c ∷ s) (expand-plain b m a (d ∷ v) h))

-- A variable is put in place of its name in braces, and the text around it stays, where no brace
-- opens before it and its value has no dollar sign; a text with no open brace stays whole.
replace_first_lem :
    (k v before after : Text)
    → Lacks 123 before
    → Lacks 36 v
    → (replace_first (braces k) v (before ++ (braces k ++ after)) ≡ before ++ v ++ after)
      × (replace_first (braces k) v before ≡ before)
unfolding replace_first
replace_first_lem k v before after h q = (
  rw
      (
        replace_first,
        split_at_first-append (k ++ 125 ∷ []) before after h,
        expand-plain before (braces k) after v q,
      )
      refl,
  rw (replace_first, split_at_first-none (k ++ 125 ∷ []) before h) refl,
)
