-- ===== src/GraphTools/Search.antt =====
-- Searches by name and the votes on their results (`_is_noise_symbol`, `_filter_noise`, `search_symbols`,
-- `search_symbols_batch`, `submit_search_feedback`). The search of the index is a parameter.
use codegraph_mcp.Base.{
  Bool, Dict, List, Option, Str, [], false, if◌then◌else◌, keep, leb, length, max, member, min,
  nat_key, negsuc, none, not, pair_key, pos, put, short_name, some, str, str_key, strip, suc, take,
  zero, ℕ, ℤ, ◌&&◌, ◌*◌, ◌++◌, ◌-◌, ◌==◌, ◌||◌, ◌∷◌,
}

abbrev pub noise_names : List Str
noise_names =
    str "_"
    ∷ str "file_summary"
    ∷ str "module_exports"
    ∷ str "fn"
    ∷ str "let"
    ∷ str "match"
    ∷ str "if"
    ∷ str "Relation"
    ∷ []

-- `is_alnum` is the test of `str.isalnum` on one character, by the tables of Unicode.
unfoldable pub short_alnum : (ℕ → Bool) → Str → Bool
short_alnum is_alnum [] = false
short_alnum is_alnum (c ∷ s) = is_alnum c

unfoldable pub is_noise_symbol : (ℕ → Bool) → Str → Bool
unfolding short_alnum
is_noise_symbol is_alnum symbol_id =
    let name = short_name symbol_id in
    member name noise_names || (leb (length name) 1 && not (short_alnum is_alnum name))

unfoldable pub filter_noise : (ℕ → Bool) → List Str → List Str
unfolding is_noise_symbol
filter_noise is_alnum results = keep (λ r. not (is_noise_symbol is_alnum r)) results

pub data Found : Type 0 where
  empty_query : Found
  matches : List Str → Found

module _ (is_alnum : ℕ → Bool) (search : Str → ℕ → List Str) where
  -- A negative limit is 0 here.
  unfoldable pub search_symbols : Str → ℕ → Found
  search_symbols query limit =
      let n = max 1 (min limit 50) in
      if strip query == []
      then empty_query
      else matches (take n (filter_noise is_alnum (search query (max (n * 2) 50))))

  -- The results by query, and the queries without one, over the stripped queries that are not empty
  unfoldable pub resolve_queries :
      ℕ → List Str → Dict Str (List Str) → List Str → Dict Str (List Str) × List Str
  resolve_queries n [] results unresolved = (results, unresolved)
  resolve_queries n (q ∷ queries) results unresolved =
      let key = strip q in
      let hits = take n (filter_noise is_alnum (search key (max (n * 2) 30))) in
      if key == []
      then resolve_queries n queries results unresolved
      else resolve_queries n queries (put key hits results)
          (if length hits == 0 then unresolved ++ (key ∷ []) else unresolved)

  -- none for an empty list of queries; a limit of 0 is taken as 5.
  unfoldable pub search_symbols_batch : List Str → ℕ → Option (Dict Str (List Str) × List Str × ℕ)
  search_symbols_batch [] limit = none
  search_symbols_batch (q ∷ qs) limit =
      let n = max 1 (min (if limit == 0 then 5 else limit) 20) in
      let r = resolve_queries n (take 40 (q ∷ qs)) [] [] in some (r.0, r.1, length r.0 - 1)

-- A vote for the store: query, symbol, and the vote, with its reason
pub record Vote : Type 0 where
  pub query_text : Str
  pub symbol_id : Str
  pub feedback : ℤ
  pub reason : Option Str

pub data FeedbackReply : Type 0 where
  bad_feedback : FeedbackReply
  per_symbol query_level : Vote → FeedbackReply

-- What goes to record_feedback, the scores apart
unfoldable pub submit_search_feedback : Str → Str → ℤ → Str → FeedbackReply
submit_search_feedback query_text symbol_id feedback reason =
    let reported : Option Str = if reason == [] then none else some reason in
    let whole : Vote = record {
      query_text = query_text;
      symbol_id = str "_query_level:" ++ take 80 query_text;
      feedback = negsuc 0;
      reason = some (
          if reason == []
          then str "Query-level negative feedback (no specific symbol)"
          else str "Query-level negative feedback: " ++ reason);
    } in
    let vote : Vote = record {
      query_text = query_text;
      symbol_id = symbol_id;
      feedback = feedback;
      reason = reported;
    } in
    elim feedback [
      | pos zero ↦ query_level whole
      | pos (suc zero) ↦ if symbol_id == [] then query_level whole else per_symbol vote
      | pos (suc (suc n)) ↦ bad_feedback
      | negsuc zero ↦ if symbol_id == [] then query_level whole else per_symbol vote
      | negsuc (suc n) ↦ bad_feedback
    ]
