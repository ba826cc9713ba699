-- ===== src/Tests/FeedbackTests.antt =====
-- Votes on two symbols, with ℕ for the scores.
use codegraph_mcp.Base.{
  Str-discrete, false, last_piece, member, nat_key, negsuc, none, pair_key, pos, refl, str, str_key,
  true, ℕ, ℕ_discrete, ◌*◌, ◌↔◌, ◌≡◌,
}
use codegraph_mcp.Feedback.{
  compute_boost_weight, stored_weight, FeedbackStore, record_feedback, recomputed, is_pseudo_symbol,
}
use codegraph_mcp.Feedback.Votes.{
  IsWeight, IsTally, empty_store, empty_store-IsTally, compute_boost_weight_lem,
  record_feedback-IsTally,
}

abbrev once : FeedbackStore ℕ
once = record_feedback (str "q") (str "a::run") 7 (pos 1) none true empty_store

abbrev twice : FeedbackStore ℕ
twice = record_feedback (str "q") (str "a::run") 7 (negsuc 0) none true once

pseudo_run :
    (is_pseudo_symbol (str "a::b::fn") ≡ true) × (is_pseudo_symbol (str "a::b::run") ≡ false)
unfolding is_pseudo_symbol last_piece member Str-discrete ℕ_discrete
pseudo_run = (refl, refl)

-- After one vote up and one down the stored weight is -1/8; recompute_all_boost_weights makes it 0/7.
recompute_run :
    (compute_boost_weight 1 1 ≡ record { num = negsuc 0; den = 8 })
    × ((recomputed (record {
      positive_count = 1;
      negative_count = 1;
      boost_weight = compute_boost_weight 1 1;
    })).boost_weight
        ≡ record { num = pos 0; den = 7 })
unfolding compute_boost_weight recomputed
recompute_run = (refl, refl)

compute_boost_weight_lem_example :
    IsWeight (compute_boost_weight 19 1)
    × (stored_weight 19 1 ≡ compute_boost_weight 19 1)
    × ((19 ≡ 2 * 1) ↔ ((compute_boost_weight 19 1).num ≡ pos 0))
compute_boost_weight_lem_example = compute_boost_weight_lem 19 1

record_feedback-IsTally_example : IsTally once
record_feedback-IsTally_example =
    record_feedback-IsTally (str "q") (str "a::run") 7 (pos 1) none true empty_store
      empty_store-IsTally
