-- ===== src/Feedback/Reads.antt =====
-- The reads of backend/app/rag/reinforcement/feedback_store.py, and its table of query patterns.
use codegraph_mcp.Base.{
  Bool, List, Str, [], if◌then◌else◌, keep, leb, length, ltb, map, nat_key, neg_part, pair_key,
  pos_part, str_key, take, true, ℕ, ◌&&◌, ◌*◌, ◌++◌, ◌+◌, ◌==◌, ◌∷◌,
}
use codegraph_mcp.Feedback.{Fraction, Reinforcement, FeedbackStore, is_nonzero}

-- The expansions of a query that weigh more than 1.0, by falling weight, at most five.
unfoldable pub insert_term : Str × ℕ → List (Str × ℕ) → List (Str × ℕ)
insert_term t [] = t ∷ []
insert_term t (u ∷ us) = let rest = insert_term t us in if leb u.1 t.1 then t ∷ u ∷ us else u ∷ rest

unfoldable pub sorted_terms : List (Str × ℕ) → List (Str × ℕ)
sorted_terms [] = []
sorted_terms (t ∷ ts) = insert_term t (sorted_terms ts)

-- |boost_weight|, compared by cross multiplication
abbrev pub size_le : Fraction → Fraction → Bool
size_le f g =
    leb ((pos_part f.num + neg_part f.num) * g.den) ((pos_part g.num + neg_part g.num) * f.den)

unfoldable pub insert_adjusted :
    Str × Reinforcement → List (Str × Reinforcement) → List (Str × Reinforcement)
insert_adjusted r [] = r ∷ []
insert_adjusted r (s ∷ ss) =
    let rest = insert_adjusted r ss in
    if size_le s.1.boost_weight r.1.boost_weight then r ∷ s ∷ ss else s ∷ rest

unfoldable pub sorted_adjusted : List (Str × Reinforcement) → List (Str × Reinforcement)
sorted_adjusted [] = []
sorted_adjusted (r ∷ rs) = insert_adjusted r (sorted_adjusted rs)

pub record ReinforcementStats : Type 0 where
  pub total_feedback : ℕ
  pub boosted_symbols : ℕ
  pub penalized_symbols : ℕ
  pub query_expansions : ℕ
  pub query_expansion_rows_raw : ℕ
  pub top_adjusted_symbols : List (Str × Reinforcement)

-- A row of query_patterns
pub record QueryPattern : Type 0 where
  pub pattern_text : Str
  pub pattern_symbol : Str
  pub was_helpful : Bool

-- One INSERT for each helpful symbol
unfoldable pub record_query_pattern : Str → List Str → List QueryPattern → List QueryPattern
record_query_pattern query [] rows = rows
record_query_pattern query (s ∷ symbols) rows =
    record_query_pattern query symbols
      (rows ++ (record { pattern_text = query; pattern_symbol = s; was_helpful = true } ∷ []))

module _ {Score : Type 0} where
  unfoldable pub get_query_expansions : Str → FeedbackStore Score → List (Str × ℕ)
  get_query_expansions query s = take 5 (
      sorted_terms (
        map (λ e. (e.0.1, e.1.weight))
          (keep (λ e. e.0.0 == query && ltb 10 e.1.weight) s.query_expansion)))

  unfoldable pub get_reinforcement_stats : FeedbackStore Score → ReinforcementStats
  get_reinforcement_stats s = record {
    total_feedback = length s.search_feedback;
    boosted_symbols =
        length (keep (λ e. ltb 0 (pos_part e.1.boost_weight.num)) s.symbol_reinforcement);
    penalized_symbols =
        length (keep (λ e. ltb 0 (neg_part e.1.boost_weight.num)) s.symbol_reinforcement);
    query_expansions = length (keep (λ e. ltb 10 e.1.weight) s.query_expansion);
    query_expansion_rows_raw = length s.query_expansion;
    top_adjusted_symbols =
        take 10 (sorted_adjusted (keep (λ e. is_nonzero e.1.boost_weight) s.symbol_reinforcement));
  }
