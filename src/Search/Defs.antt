-- ===== src/Search/Defs.antt =====
-- apps/mobile/hooks/useMapApp.ts: the effect on the query and the filters that looks vehicles up
-- after a pause. Its cleanup cancels the timer and aborts the request, so that at most the last
-- effect's are pending. Results are kept with the query that they were asked for; `V` is the type
-- of a result.
use ovlive_platform.Prelude.{
  ℕ, Bool, true, false, Option, none, some, List, [], if◌then◌else◌, ltb, length, Text,
}
use ovlive_platform.Operator.Defs.{trim}

pub record SearchBox (V : Type 0) : Type 0 where
  pub query : Text
  pub results : Option (Text × List V)
  pub result_total : ℕ
  pub searching : Bool
  -- The query of the pending timer, and that of the request in flight.
  pub timer : Option Text
  pub request : Option Text

abbrev pub min_query : ℕ
min_query = 2

module _ {V : Type 0} where
  unfoldable pub new_search : SearchBox V
  new_search = record {
    query = [];
    results = none;
    result_total = 0;
    searching = false;
    timer = none;
    request = none;
  }

  -- The effect, on a change of the query or of the filters.
  unfoldable pub look_up : Text → SearchBox V → SearchBox V
  look_up query s =
      let q = trim query in
      if ltb (length q) min_query
      then record {
        query = query;
        results = none;
        result_total = 0;
        searching = false;
        timer = none;
        request = none;
      }
      else record s { query = query; searching = true; timer = some q; request = none }

  -- The timer fires: the request is sent.
  unfoldable pub on_pause : Text → SearchBox V → SearchBox V
  on_pause q s = record s { timer = none; request = some q }

  -- The answer to the request in flight.
  unfoldable pub on_results : Text → List V → ℕ → SearchBox V → SearchBox V
  on_results q vehicles total s = record s {
    results = some (q, vehicles);
    result_total = total;
    searching = false;
    request = none;
  }

  -- Its failure, other than by being aborted.
  unfoldable pub on_search_failed : Text → SearchBox V → SearchBox V
  on_search_failed q s = record s {
    results = some (q, []);
    result_total = 0;
    searching = false;
    request = none;
  }
