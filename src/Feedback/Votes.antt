-- ===== src/Feedback/Votes.antt =====
-- Weights and votes.
use codegraph_mcp.Base.{
  ==_refl, All, All-get, All-put, Bool, Bool-cases, Dict, List, Option, Option-cases, Str, [],
  arith, eq_of_==, false, get, get-put, if◌then◌else◌, inl, inr, leb, ltb, nat_key, neg_part, none,
  not, pair_key, pos, pos_part, refl, short_name, some, str_key, subst, true, ℕ, ℤ, ◌&&◌, ◌*◌, ◌++◌,
  ◌+◌, ◌<◌, ◌==◌, ◌↔◌, ◌∷◌, ◌≡◌, ◌≤◌, ◌⊎◌,
}
use mathlib.Core.Option.{some-injective}
use codegraph_mcp.Feedback.{
  Fraction, zero_weight, compute_boost_weight, stored_weight, Reinforcement, Vote, Expansion,
  FeedbackStore, upsert_reinforcement, upsert_expansion, record_feedback, is_pseudo_symbol, one_if,
}

-- Between -1 and 1, both excluded.
abbrev pub IsWeight : Fraction → Type 0
IsWeight f = pos_part f.num + neg_part f.num < f.den

-- The computed weight of any numbers of votes lies between -1 and 1, the expression of ON CONFLICT DO UPDATE
-- gives the same for those numbers (it does not run at the first vote, which stores 0), and the computed weight
-- is 0 exactly for as many up votes as weighted down votes, none included.
pub compute_boost_weight_lem :
    (p n : ℕ)
    → IsWeight (compute_boost_weight p n)
      × (stored_weight p n ≡ compute_boost_weight p n)
      × ((p ≡ 2 * n) ↔ ((compute_boost_weight p n).num ≡ pos 0))
unfolding compute_boost_weight stored_weight
compute_boost_weight_lem p n = elim (Bool-cases (leb (p + 2 * n) 0)) [
  | inl e ↦ ground (arith, e)
  | inr e ↦ ground (arith, e)
]

-- A row agrees with its votes if its weight is the computed one, or 0 after a single vote.
abbrev pub IsAgreed : Reinforcement → Type 0
IsAgreed r =
    (1 ≤ r.positive_count + r.negative_count)
    × ((r.boost_weight ≡ compute_boost_weight r.positive_count r.negative_count)
        ⊎ ((r.positive_count + r.negative_count ≡ 1) × (r.boost_weight ≡ zero_weight)))

upsert-IsAgreed :
    (up : Bool) (o : Option Reinforcement)
    → ((r : Reinforcement) → o ≡ some r → IsAgreed r)
    → IsAgreed (upsert_reinforcement up o)
unfolding upsert_reinforcement
upsert-IsAgreed up none h = (ground arith, inr (ground arith, refl))
upsert-IsAgreed up (some r) h = (
  ground (arith, (h r refl).0),
  inl
      (compute_boost_weight_lem (r.positive_count + one_if up)
        (r.negative_count + one_if (not up))).1,
)

abbrev pub IsExpansionWeight : Expansion → Type 0
IsExpansionWeight e = (10 ≤ e.weight) × (e.weight ≤ 30)

upsert_expansion-IsBounded :
    (term : Str × Str) (d : Dict (Str × Str) Expansion)
    → All (λ e. IsExpansionWeight e.1) d
    → IsExpansionWeight (upsert_expansion (get term d))
unfolding upsert_expansion
upsert_expansion-IsBounded term d h = elim (Option-cases (get term d)) [
  | inl e ↦ ground (arith, e)
  | inr (x, e) ↦ ground (arith, e, All-get IsExpansionWeight term x d h e)
]

abbrev pub count_of : Bool → Option Reinforcement → ℕ
count_of up none = 0
count_of up (some r) = if up then r.positive_count else r.negative_count

module _ {Score : Type 0} where
  -- The votes of a symbol in the log: up, and down.
  abbrev pub votes : Bool → Str → List (Vote Score) → ℕ
  votes up s [] = 0
  votes up s (v ∷ vs) =
      (if v.symbol_id == s && (if up then v.is_up else not v.is_up) then 1 else 0) + votes up s vs

  -- The reinforcement table is the tally of the log, and its weights agree with the counts.
  pub record IsTally (s : FeedbackStore Score) : Type 0 where
    pub ups :
        (a : Str) → count_of true (get a s.symbol_reinforcement) ≡ votes true a s.search_feedback
    pub downs :
        (a : Str) → count_of false (get a s.symbol_reinforcement) ≡ votes false a s.search_feedback
    pub agreed : (a : Str) (r : Reinforcement) → get a s.symbol_reinforcement ≡ some r → IsAgreed r
    pub rankable : (a : Str) → is_pseudo_symbol a ≡ true → get a s.symbol_reinforcement ≡ none

  votes-append :
      (up : Bool) (a : Str) (xs : List (Vote Score)) (v : Vote Score)
      → votes up a (xs ++ (v ∷ [])) ≡ votes up a xs + votes up a (v ∷ [])
  votes-append up a [] v = ground arith
  votes-append up a (x ∷ xs) v = ground (arith, votes-append up a xs v)

  abbrev cast : Str → Str → Score → ℤ → Option Str → Vote Score
  cast query symbol score feedback reason = record {
    query_text = query;
    symbol_id = symbol;
    original_score = score;
    is_up = ltb 0 (pos_part feedback);
    reason = reason;
  }

  abbrev voted : ℤ → Str → FeedbackStore Score → Reinforcement
  voted feedback symbol s =
      upsert_reinforcement (ltb 0 (pos_part feedback)) (get symbol s.symbol_reinforcement)

  -- record_feedback keeps the table of reinforcements a tally of the logged votes: the counts of a symbol are
  -- its up votes and its down votes, its weight is the computed one, save that a symbol with one vote may
  -- weigh 0, and no pseudo symbol has a row.
  pub record_feedback-IsTally :
      (query symbol : Str) (score : Score) (feedback : ℤ) (reason : Option Str) (expand : Bool)
      (s : FeedbackStore Score)
      → IsTally s
      → IsTally (record_feedback query symbol score feedback reason expand s)
  unfolding record_feedback upsert_reinforcement
  record_feedback-IsTally query symbol score feedback reason expand s t =
      elim (Bool-cases (is_pseudo_symbol symbol)) [
        | inl e ↦ rw (record_feedback, e) t
        | inr e ↦
            rw (record_feedback, e)
              (record {
                ups = λ a. ground (
                  arith,
                  get-put symbol a (voted feedback symbol s) s.symbol_reinforcement,
                  votes-append true a s.search_feedback (cast query symbol score feedback reason),
                  t.ups a,
                  t.ups symbol,
                  eq_of_== a symbol,
                  eq_of_== symbol a,
                  ==_refl a,
                );
                downs = λ a. ground (
                  arith,
                  get-put symbol a (voted feedback symbol s) s.symbol_reinforcement,
                  votes-append false a s.search_feedback (cast query symbol score feedback reason),
                  t.downs a,
                  t.downs symbol,
                  eq_of_== a symbol,
                  eq_of_== symbol a,
                  ==_refl a,
                );
                agreed = λ a r h. elim (Bool-cases (a == symbol)) [
                  | inl f ↦
                      subst IsAgreed
                        (some-injective (voted feedback symbol s) r (
                          ground (
                            arith,
                            f,
                            h,
                            get-put symbol a (voted feedback symbol s) s.symbol_reinforcement,
                          )))
                        (upsert-IsAgreed (ltb 0 (pos_part feedback))
                          (get symbol s.symbol_reinforcement) (t.agreed symbol))
                  | inr f ↦ t.agreed a r (
                      ground (
                        arith,
                        f,
                        h,
                        get-put symbol a (voted feedback symbol s) s.symbol_reinforcement,
                      ))
                ];
                rankable = λ a h. ground (
                  arith,
                  h,
                  e,
                  t.rankable a,
                  eq_of_== a symbol,
                  get-put symbol a (voted feedback symbol s) s.symbol_reinforcement,
                );
              })
      ]

  abbrev pub empty_store : FeedbackStore Score
  empty_store = record { search_feedback = []; symbol_reinforcement = []; query_expansion = [] }

  pub empty_store-IsTally : IsTally empty_store
  unfolding get
  empty_store-IsTally = record {
    ups = λ a. refl;
    downs = λ a. refl;
    agreed = λ a r h. ground arith;
    rankable = λ a h. refl;
  }

  -- Every expansion weighs from 1.0 to 3.0.
  abbrev pub IsBounded : FeedbackStore Score → Type 0
  IsBounded s = All (λ e. IsExpansionWeight e.1) s.query_expansion

  -- However often a term is confirmed, record_feedback keeps the weights of all expansions from 1.0 to 3.0.
  pub record_feedback-IsBounded :
      (query symbol : Str) (score : Score) (feedback : ℤ) (reason : Option Str) (expand : Bool)
      (s : FeedbackStore Score)
      → IsBounded s
      → IsBounded (record_feedback query symbol score feedback reason expand s)
  unfolding record_feedback
  record_feedback-IsBounded query symbol score feedback reason expand s h =
      elim (Bool-cases (is_pseudo_symbol symbol)) [
        | inl e ↦ rw (record_feedback, e) h
        | inr e ↦
            rw (record_feedback, e)
              (elim (Bool-cases (ltb 0 (pos_part feedback) && expand)) [
                | inl f ↦ rw f (
                    All-put IsExpansionWeight (query, short_name symbol)
                      (upsert_expansion (get (query, short_name symbol) s.query_expansion))
                      s.query_expansion
                      (upsert_expansion-IsBounded (query, short_name symbol) s.query_expansion h) h)
                | inr f ↦ rw f h
              ])
      ]
