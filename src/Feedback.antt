-- ===== src/Feedback.antt =====
-- backend/app/rag/reinforcement/feedback_store.py: votes on symbols, their boost weights, and the query
-- expansions. A weight is an exact fraction, the weight of an expansion is in tenths; the tables are
-- search_feedback, symbol_reinforcement and query_expansion, less the times.
pub mod Votes
pub mod Reads
use codegraph_mcp.Base.{
  ==_of_ne, ==_refl, All, All-append, All-get, All-keep, All-put, Bool, Bool-cases, Dict, IsBelow,
  IsDistinct, IsDistinct-append, IsSorted, Key, List, List-cases, Option, Option-cases, Str,
  Str-discrete, [], add, add-IsDistinct, any, ap, arith, diff, ends_with, eq_of_==, false, foldl,
  fun_ext, get, get-keep, get-map_values, get-pop, get-put, get_absent, get_or, has, has-put,
  if◌then◌else◌, inl, inr, insert_sorted, keep, keep-IsDistinct, keep-append, keys, keys-put,
  last_piece, leb, leb→le, length, length-append, length-keep-le, length-map, length-sorted,
  length-take-le, ltb, ltb→lt, map, map_values, max, member, member-add, member-append, member-diff,
  member-sorted, member-union, min, nat_key, neg_part, negsuc, none, not, pair_discrete, pair_key,
  pop, pos, pos_part, put, put-IsDistinct, refl, short_name, some, sorted, sorted-IsSorted,
  starts_with, str, str_key, str_leb, str_leb_total, str_leb_trans, sub_ℕ, subst, suc, sym, take,
  true, union, zero, ℕ, ℕ_discrete, ℤ, ◌%◌, ◌&&◌, ◌*◌, ◌++◌, ◌+◌, ◌-◌, ◌/◌, ◌<◌, ◌==◌, ◌||◌, ◌↔◌,
  ◌∙◌, ◌∷◌, ◌≡◌, ◌≢◌, ◌≤ℤ◌, ◌≤◌, ◌⊎◌,
}

-- A number num / den.
pub record Fraction : Type 0 where
  pub num : ℤ
  pub den : ℕ

abbrev pub zero_weight : Fraction
zero_weight = record { num = pos 0; den = 1 }

abbrev pub negative_weight : ℕ
negative_weight = 2

abbrev pub pseudo_symbol_names : List Str
pseudo_symbol_names =
    str "file_summary"
    ∷ str "module_exports"
    ∷ str "fn"
    ∷ str "let"
    ∷ str "match"
    ∷ str "if"
    ∷ str "_"
    ∷ str "Relation"
    ∷ []

unfoldable pub is_pseudo_symbol : Str → Bool
is_pseudo_symbol s = member (short_name s) pseudo_symbol_names

unfoldable pub compute_boost_weight : ℕ → ℕ → Fraction
compute_boost_weight positive negative =
    let neg = negative_weight * negative in
    let total = positive + neg in
    if leb total 0 then zero_weight else record { num = sub_ℕ positive neg; den = total + 5 }

-- The expression after ON CONFLICT DO UPDATE SET boost_weight in record_feedback, which asks for the number of
-- votes in place of `total`; the first INSERT of a symbol stores 0.0, see upsert_reinforcement.
unfoldable pub stored_weight : ℕ → ℕ → Fraction
stored_weight positive negative = if positive + negative == 0 then zero_weight else record {
  num = sub_ℕ positive (negative * negative_weight);
  den = positive + negative * negative_weight + 5;
}

pub record Reinforcement : Type 0 where
  pub positive_count : ℕ
  pub negative_count : ℕ
  pub boost_weight : Fraction

-- A row of search_feedback, for a type of scores.
pub record Vote (Score : Type 0) : Type 0 where
  pub query_text : Str
  pub symbol_id : Str
  pub original_score : Score
  pub is_up : Bool
  pub reason : Option Str

pub record Expansion : Type 0 where
  pub weight : ℕ
  pub hits : ℕ

pub record FeedbackStore (Score : Type 0) : Type 0 where
  pub search_feedback : List (Vote Score)
  pub symbol_reinforcement : Dict Str Reinforcement
  pub query_expansion : Dict (Str × Str) Expansion

abbrev pub one_if : Bool → ℕ
one_if b = if b then 1 else 0

-- INSERT ... ON CONFLICT (symbol_id) DO UPDATE: a first vote is stored with weight 0.
unfoldable pub upsert_reinforcement : Bool → Option Reinforcement → Reinforcement
upsert_reinforcement up none = record {
  positive_count = one_if up;
  negative_count = one_if (not up);
  boost_weight = zero_weight;
}
upsert_reinforcement up (some r) =
    let p = r.positive_count + one_if up in
    let n = r.negative_count + one_if (not up) in
    record { positive_count = p; negative_count = n; boost_weight = stored_weight p n }

-- INSERT ... ON CONFLICT (query_text, expansion_term) DO UPDATE
unfoldable pub upsert_expansion : Option Expansion → Expansion
upsert_expansion none = record { weight = 10; hits = 1 }
upsert_expansion (some e) = record { weight = min (e.weight + 1) 30; hits = e.hits + 1 }

module _ {Score : Type 0} where
  unfoldable pub record_feedback :
      Str → Str → Score → ℤ → Option Str → Bool → FeedbackStore Score → FeedbackStore Score
  record_feedback query symbol score feedback reason update_expansion s =
      let up = ltb 0 (pos_part feedback) in
      let term : Str × Str = (query, short_name symbol) in
      let vote : Vote Score = record {
        query_text = query;
        symbol_id = symbol;
        original_score = score;
        is_up = up;
        reason = reason;
      } in
      if is_pseudo_symbol symbol then s else record {
        search_feedback = s.search_feedback ++ (vote ∷ []);
        symbol_reinforcement =
            put symbol (upsert_reinforcement up (get symbol s.symbol_reinforcement))
              s.symbol_reinforcement;
        query_expansion =
            if up && update_expansion
            then put term (upsert_expansion (get term s.query_expansion)) s.query_expansion
            else s.query_expansion;
      }

-- The UPDATE of recompute_all_boost_weights, on one row and on all.
unfoldable pub recomputed : Reinforcement → Reinforcement
recomputed r = record r {
  boost_weight = record {
    num = sub_ℕ r.positive_count r.negative_count;
    den = r.positive_count + r.negative_count + 5;
  };
}

-- `boost_weight != 0.0`
abbrev pub is_nonzero : Fraction → Bool
is_nonzero f = elim f.num [ pos n ↦ not (n == 0) | negsuc n ↦ true ]

module _ {Score : Type 0} where
  unfoldable pub recompute_all_boost_weights : FeedbackStore Score → FeedbackStore Score × ℕ
  recompute_all_boost_weights s = (
    record s { symbol_reinforcement = map_values recomputed s.symbol_reinforcement },
    length s.symbol_reinforcement,
  )

  unfoldable pub get_boost_weights : FeedbackStore Score → Dict Str Fraction
  get_boost_weights s =
      keep (λ e. is_nonzero e.1) (map_values (λ r. r.boost_weight) s.symbol_reinforcement)
