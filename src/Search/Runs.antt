-- ===== src/Search/Runs.antt =====
-- The runs of the search: the query is edited while timers fire and answers come in.
use ovlive_platform.Prelude.{
  ℕ, ◌≤◌, ◌≡◌, refl, ◌≢◌, ◌⊎◌, inr, true, false, none, some, List, arith, length, Text, inl,
  Option-cases,
}
use ovlive_platform.Search.Defs.{
  look_up, on_results, SearchBox, new_search, on_search_failed, on_pause,
}
use ovlive_platform.Operator.Defs.{trim}

module _ {V : Type 0} where
  pub data Step : SearchBox V → SearchBox V → Type 0 where
    edits : (s : SearchBox V) (query : Text) → Step s (look_up query s)
    pauses : (s : SearchBox V) (q : Text) → s.timer ≡ some q → Step s (on_pause q s)
    answers :
        (s : SearchBox V) (q : Text) (vs : List V) (total : ℕ)
        → s.request ≡ some q
        → Step s (on_results q vs total s)
    fails : (s : SearchBox V) (q : Text) → s.request ≡ some q → Step s (on_search_failed q s)

  pub data Reach : SearchBox V → Type 0 where
    start : Reach new_search
    next : {s t : SearchBox V} → Reach s → Step s t → Reach t

  pub record IsLooked (s : SearchBox V) : Type 0 where
    pub waits :
        (q : Text) → s.timer ≡ some q → (q ≡ trim s.query) × (2 ≤ length q) × (s.request ≡ none)
    pub asks : (q : Text) → s.request ≡ some q → (q ≡ trim s.query) × (2 ≤ length q)
    pub busy : s.searching ≡ true → (s.timer ≢ none) ⊎ (s.request ≢ none)
    pub idle : s.searching ≡ false → (s.timer ≡ none) × (s.request ≡ none)
    pub found :
        (q : Text) (vs : List V)
        → s.searching ≡ false
        → s.results ≡ some (q, vs)
        → (q ≡ trim s.query) × (2 ≤ length q)

  start-IsLooked : IsLooked new_search
  unfolding new_search
  start-IsLooked = record {
    waits = λ q e. absurd (ground arith);
    asks = λ q e. absurd (ground arith);
    busy = λ e. absurd (ground arith);
    idle = λ e. (refl, refl);
    found = λ q vs k e. absurd (ground arith);
  }

  Step-IsLooked : {s t : SearchBox V} → Step s t → IsLooked s → IsLooked t
  unfolding look_up on_pause on_results on_search_failed
  Step-IsLooked (edits s query) h = record {
    waits = λ q e. ground arith;
    asks = λ q e. ground arith;
    busy = λ e. ground arith;
    idle = λ e. ground arith;
    found = λ q vs k e. ground arith;
  }
  Step-IsLooked (pauses s p w) h = record {
    waits = λ q e. ground arith;
    asks = λ q e. ground (arith, h.waits p w);
    busy = λ e. inr (ground arith);
    idle = λ e. ground (arith, h.idle);
    found = λ q vs k e. ground (arith, h.idle);
  }
  Step-IsLooked (answers s p us total w) h = record {
    waits = λ q e. ground (arith, h.waits q);
    asks = λ q e. ground arith;
    busy = λ e. ground arith;
    idle = λ e. elim (Option-cases s.timer) [
      | inl out ↦ (out, refl)
      | inr (q, f) ↦ absurd (ground (arith, h.waits q f))
    ];
    found = λ q vs k e. ground (arith, h.asks p w);
  }
  Step-IsLooked (fails s p w) h = record {
    waits = λ q e. ground (arith, h.waits q);
    asks = λ q e. ground arith;
    busy = λ e. ground arith;
    idle = λ e. elim (Option-cases s.timer) [
      | inl out ↦ (out, refl)
      | inr (q, f) ↦ absurd (ground (arith, h.waits q f))
    ];
    found = λ q vs k e. ground (arith, h.asks p w);
  }

  pub Reach-IsLooked : {s : SearchBox V} → Reach s → IsLooked s
  Reach-IsLooked start = start-IsLooked
  Reach-IsLooked (next r st) = Step-IsLooked st (Reach-IsLooked r)

  -- In every run, whatever was typed meanwhile, results that are shown when the search is not busy
  -- are those for the text typed now, trimmed, which has at least two characters.
  pub results_of_query :
      {s : SearchBox V} (q : Text) (vs : List V)
      → Reach s
      → s.searching ≡ false
      → s.results ≡ some (q, vs)
      → (q ≡ trim s.query) × (2 ≤ length q)
  results_of_query q vs r k e = (Reach-IsLooked r).found q vs k e
