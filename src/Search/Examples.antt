-- ===== src/Search/Examples.antt =====
-- The theorem on the search at a query of two characters that is answered.
use ovlive_platform.Prelude.{ℕ, ◌≤◌, ◌≡◌, refl, [], ◌∷◌, length, codes}
use ovlive_platform.Search.Defs.{on_pause, look_up, SearchBox, new_search, on_results}
use ovlive_platform.Search.Runs.{pauses, Reach, start, edits, next, answers, results_of_query}
use ovlive_platform.Operator.Defs.{skip_space, trim_end, is_space, trim}

abbrev typed : SearchBox ℕ
typed = look_up (codes "50 ") new_search

abbrev asked : SearchBox ℕ
asked = on_pause (codes "50") typed

asked-Reach : Reach asked
unfolding look_up trim trim_end skip_space is_space
asked-Reach = next (next start (edits new_search (codes "50 "))) (pauses typed (codes "50") refl)

answered-Reach : Reach (on_results (codes "50") (7 ∷ []) 1 asked)
unfolding on_pause
answered-Reach = next asked-Reach (answers asked (codes "50") (7 ∷ []) 1 refl)

results_of_query_example :
    (codes "50" ≡ trim (on_results (codes "50") (7 ∷ []) 1 asked).query) × (2 ≤ length (codes "50"))
unfolding on_results
results_of_query_example = results_of_query (codes "50") (7 ∷ []) answered-Reach refl refl
