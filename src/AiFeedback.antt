-- ===== src/AiFeedback.antt =====
-- The quality gate of the feedback of agents (backend/app/rag/reinforcement/ai_feedback_store.py). Scores are in ten
-- thousandths, exact where the code rounds as floats do; the decision model is given by what judge_feedback and classify_feedback answer.
use codegraph_mcp.Base.{
  Bool, Call, List, Option, Str, [], false, if◌then◌else◌, leb, length, ltb, map, min, nat_key,
  none, not, pair_key, raised, returned, some, str, str_key, strip, true, ℕ, ◌&&◌, ◌*◌, ◌++◌, ◌+◌,
  ◌-◌, ◌==◌, ◌||◌, ◌∷◌,
}
use codegraph_mcp.SystemOne.{Judged, gate_feedback}

-- A row of the table, as far as the gate reads it: `malformed` stands for a text in tools_called or results_used that
-- is not JSON, `mentions` counts the results with a symbol or a file.
pub record FeedbackRow : Type 0 where
  pub malformed : Bool
  pub tools : ℕ
  pub mentions : ℕ
  pub suggestions : Str
  pub expected : Str
  pub rating : Option ℕ

abbrev points_if : Bool → ℕ → ℕ
points_if t n = if t then n else 0

unfoldable pub rating_points : FeedbackRow → ℕ
rating_points r = elim r.rating [
  | none ↦ 500
  | some n ↦
      if leb 1 n && leb n 5
      then 1000 + (if leb n 2 && ltb 0 r.mentions && not (r.suggestions == []) then 1000 else 0)
      else 0
]

unfoldable pub suggestion_points : Str → ℕ
suggestion_points s =
    if ltb 30 (length (strip s)) then 2000 else if ltb 10 (length (strip s)) then 1000 else 0

-- Whether one of the six checks has a complaint
unfoldable pub has_reasons : FeedbackRow → Bool
unfolding suggestion_points
has_reasons r =
    let bad_rating : Bool = elim r.rating [ none ↦ false | some n ↦ not (leb 1 n && leb n 5) ] in
    r.tools == 0
    || r.mentions == 0
    || suggestion_points r.suggestions == 0
    || not (ltb 20 (length (strip r.expected)))
    || bad_rating
    || ltb (length (r.suggestions ++ r.expected)) 50

-- The score; subtraction stops at 0, as `max(0.0, …)` does.
unfoldable pub quality_score : FeedbackRow → ℕ
unfolding rating_points suggestion_points
quality_score r =
    let size = length (r.suggestions ++ r.expected) in
    let points =
      (if ltb 0 r.tools then 1500 else 0)
      + min 2000 (500 * r.mentions)
      + suggestion_points r.suggestions
      + (if ltb 20 (length (strip r.expected)) then 1500 else 0)
      + rating_points r in
    min 10000 (if ltb 200 size then points + 1000 else if ltb size 50 then points - 500 else points)

-- A score with whether there is a reason to reject
pub record Verdict : Type 0 where
  pub score : ℕ
  pub reason : Bool

-- Text that is not JSON raises.
unfoldable pub evaluate_quality : FeedbackRow → Call Verdict
unfolding quality_score has_reasons
evaluate_quality r =
    if r.malformed
    then raised (str "JSONDecodeError")
    else returned
        (record { score = quality_score r; reason = leb (quality_score r) 5000 && has_reasons r })

-- The heuristic gate; where it raises too the score is 0.
unfoldable pub heuristic_verdict : FeedbackRow → Verdict
unfolding evaluate_quality
heuristic_verdict r = elim (evaluate_quality r) [
  | raised e ↦ record { score = 0; reason = true }
  | returned v ↦ v
]

-- `judged` is what judge_feedback gives, none without the model.
unfoldable pub gate_verdict : Call (Option Judged) → FeedbackRow → Verdict
unfolding heuristic_verdict
gate_verdict (raised e) r = heuristic_verdict r
gate_verdict (returned none) r = heuristic_verdict r
gate_verdict (returned (some j)) r = record {
  score = (gate_feedback j).score;
  reason = not (gate_feedback j).accepted;
}

pub data GateStatus : Type 0 where
  pending : GateStatus
  rejected : Bool → GateStatus
  accepted : Str → GateStatus

-- A row with what the loop meets at it: the decisions that wait, what judge_feedback gives, and the type that
-- classify_feedback gives
pub record Entry : Type 0 where
  pub row : FeedbackRow
  pub waiters : ℕ
  pub judged : Call (Option Judged)
  pub kind : Str

-- The verdict on one row: accepted with a score over 0.5, 5000 ten thousandths. The judgements of the model are whole
-- hundredths here, floats in the source.
unfoldable pub entry_status : Bool → Entry → GateStatus
unfolding gate_verdict
entry_status use_model e =
    let v = gate_verdict (if use_model then e.judged else returned none) e.row in
    if ltb 5000 v.score
    then accepted (if use_model then e.kind else str "ranking")
    else rejected v.reason

-- The loop: the status of each entry; from the first one at which a decision waits on all stay pending.
unfoldable pub evaluate_pending : Bool → List Entry → List GateStatus
unfolding entry_status
evaluate_pending use_model [] = []
evaluate_pending use_model (e ∷ es) =
    let rest = evaluate_pending use_model es in
    if use_model && ltb 0 e.waiters
    then map (λ x. pending) (e ∷ es)
    else entry_status use_model e ∷ rest

unfoldable pub is_accepted : GateStatus → Bool
is_accepted (accepted k) = true
is_accepted s = false

unfoldable pub is_rejected : GateStatus → Bool
is_rejected (rejected r) = true
is_rejected s = false

-- Whether the entry goes to the backlog of issues
unfoldable pub is_issue : GateStatus → Bool
is_issue (accepted k) = not (k == str "ranking")
is_issue s = false

-- A result that the feedback cites: its symbol, and whether it was helpful
pub record Cited : Type 0 where
  pub symbol_id : Str
  pub helpful : Option Bool

-- The cited symbols that the index lacks; `known` is has_symbol, true where the check raises.
unfoldable pub validate_results_used : (Str → Bool) → List Cited → List Str
validate_results_used known [] = []
validate_results_used known (c ∷ cs) =
    let rest = validate_results_used known cs in
    if c.symbol_id == [] || known c.symbol_id then rest else c.symbol_id ∷ rest
