-- ===== src/Tests/AiTests.antt =====
-- Entries of feedback at the gate.
use codegraph_mcp.Base.{
  Str-discrete, [], false, is_space, lstrip, nat_key, pair_key, refl, returned, rstrip, some, str,
  str_key, strip, true, ℕ_discrete, ◌≡◌,
}
use codegraph_mcp.SystemOne.{Judged, gate_feedback}
use codegraph_mcp.AiFeedback.{
  FeedbackRow, Entry, quality_score, rating_points, suggestion_points, entry_status, gate_verdict,
  rejected,
}

abbrev terse : FeedbackRow
terse = record {
  malformed = false;
  tools = 2;
  mentions = 5;
  suggestions = str "rank it";
  expected = [];
  rating = some 2;
}

-- 1500 for the tools, 2000 for the mentions, 2000 for the rating, less 500
terse_run : quality_score terse ≡ 5000
unfolding quality_score rating_points suggestion_points strip lstrip rstrip is_space Str-discrete
    ℕ_discrete
terse_run = refl

-- The gate passes it, and the score does not.
abbrev vague : Judged
vague = record { specific = 30; actionable = 50; consistent = 30 }

abbrev entry : Entry
entry = record { row = terse; waiters = 0; judged = returned (some vague); kind = str "ranking" }

vague_run : entry_status true entry ≡ rejected false
unfolding entry_status gate_verdict gate_feedback
vague_run = refl
