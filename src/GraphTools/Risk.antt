-- ===== src/GraphTools/Risk.antt =====
-- The risk of a change (`_compute_risk_score`, `_compute_risk_factors`).
use codegraph_mcp.Base.{
  All, Bool, List, Str, [], arith, false, if◌then◌else◌, length, ltb, nat_key, not, pair_key,
  str_key, true, ℕ, ℕ_discrete, ◌&&◌, ◌++◌, ◌+◌, ◌==◌, ◌||◌, ◌∷◌, ◌≡◌, ◌≤◌,
}

pub data Risk : Type 0 where
  low medium high critical : Risk

unfoldable pub same_risk : Risk → Risk → Bool
same_risk low low = true
same_risk medium medium = true
same_risk high high = true
same_risk critical critical = true
same_risk a b = false

unfoldable pub compute_risk_score : List Str → List Str → List Str → List Str → Risk
compute_risk_score upstream downstream used_by uses =
    let total = length upstream + length downstream + length used_by + length uses in
    let callers = length upstream + length used_by in
    if ltb 100 total || ltb 20 callers
    then critical
    else if ltb 40 total || ltb 10 callers
    then high
    else if ltb 10 total || ltb 3 callers
    then medium
    else low

-- A reason: the number of the callers or of the connections with the threshold that it passes, or low connectivity
pub data Reason : Type 0 where
  upstream_callers total_connections : ℕ → ℕ → Reason
  low_connectivity : ℕ → ℕ → Reason

pub record RiskFactors : Type 0 where
  pub score : Risk
  pub connections : ℕ
  pub callers : ℕ
  pub callees : ℕ
  pub reasons : List Reason

abbrev reason_if : Bool → Reason → List Reason
reason_if t r = if t then r ∷ [] else []

unfoldable pub compute_risk_factors : List Str → List Str → List Str → List Str → RiskFactors
unfolding compute_risk_score same_risk
compute_risk_factors upstream downstream used_by uses =
    let total = length upstream + length downstream + length used_by + length uses in
    let callers = length upstream + length used_by in
    let score = compute_risk_score upstream downstream used_by uses in
    let reasons =
      reason_if (ltb 20 callers) (upstream_callers callers 20)
      ++ (reason_if (ltb 100 total) (total_connections total 100)
          ++ (reason_if (ltb 10 callers && not (same_risk score critical))
                (upstream_callers callers 10)
              ++ (reason_if (ltb 40 total && not (same_risk score critical))
                    (total_connections total 40)
                  ++ (reason_if (ltb 3 callers && same_risk score medium)
                        (upstream_callers callers 3)
                      ++ reason_if (ltb 10 total && same_risk score medium)
                          (total_connections total 10))))) in
    record {
      score = score;
      connections = total;
      callers = callers;
      callees = length downstream + length uses;
      reasons = if length reasons == 0 then low_connectivity total callers ∷ [] else reasons;
    }

unfoldable pub rank : Risk → ℕ
rank low = 0
rank medium = 1
rank high = 2
rank critical = 3

-- The score that a reason alone stands for
unfoldable pub level_of : Reason → Risk
level_of (upstream_callers n t) = if t == 20 then critical else if t == 10 then high else medium
level_of (total_connections n t) = if t == 100 then critical else if t == 40 then high else medium
level_of (low_connectivity n c) = low

-- More connections in each of the four directions never lower the risk.
pub compute_risk_score_monotone :
    (a b c d e f g h : List Str)
    → length a ≤ length e
    → length b ≤ length f
    → length c ≤ length g
    → length d ≤ length h
    → rank (compute_risk_score a b c d) ≤ rank (compute_risk_score e f g h)
unfolding compute_risk_score rank
compute_risk_score_monotone a b c d e f g h p q r s = ground (arith, p, q, r, s)

-- There is always a reason, and each reason given stands for the very score given: no reason of another level is
-- among them.
pub compute_risk_factors-reasons :
    (a b c d : List Str)
    → (1 ≤ length (compute_risk_factors a b c d).reasons)
      × All
          (λ r. level_of r ≡ (compute_risk_factors a b c d).score)
          (compute_risk_factors a b c d).reasons
unfolding compute_risk_factors compute_risk_score same_risk level_of ℕ_discrete
compute_risk_factors-reasons a b c d = ground arith
