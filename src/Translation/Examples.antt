-- ===== src/Translation/Examples.antt =====
-- The theorems on translations at a text with a variable.
use ovlive_platform.Prelude.Dict
use ovlive_platform.Prelude.{◌≡◌, refl, [], ◌∷◌, codes, text_eq}
use ovlive_platform.Prelude.Dict.{lookup}
use ovlive_platform.Translation.Defs.{dutch, dicts, texts, make_t}

test_view : make_t dutch (codes "hud.inView") ((codes "n", codes "12") ∷ []) ≡ codes "12 in beeld"
unfolding make_t dicts texts text_eq Dict.lookup
test_view = refl
