-- ===== src/Operator/Examples.antt =====
-- The theorems on operators at concrete inputs; upper-casing is of the ASCII letters.
use ovlive_platform.Prelude.{◌-◌, ◌≡◌, refl, ◌&&◌, some, [], ◌∷◌, leb, if◌then◌else◌, codes, Text}
use ovlive_platform.Operator.Defs.{
  trim_end, drop_group, clean_name, skip_space, trim, resolve_operator, known_or_made, closes_group,
  is_group, is_space,
}

abbrev upper_ascii : Text → Text
upper_ascii [] = []
upper_ascii (c ∷ s) = (if leb 97 c && leb c 122 then c - 32 else c) ∷ upper_ascii s

test_brand :
    resolve_operator upper_ascii [] (some (codes "allGo (Keolis)"))
    ≡ resolve_operator upper_ascii [] (some (codes "allGo"))
unfolding resolve_operator known_or_made clean_name trim trim_end skip_space is_space drop_group
    is_group closes_group
test_brand = refl
