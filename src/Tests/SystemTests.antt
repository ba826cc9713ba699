-- ===== src/Tests/SystemTests.antt =====
-- The health checks, the recovery e-mail and the decision model on small inputs.
use codegraph_mcp.Base.{
  List, Str, Str-discrete, [], arith, false, get, is_space, length, lstrip, member, nat_key, none,
  not, pair_key, raised, refl, returned, rstrip, some, str, str_key, strip, true, ℕ_discrete, ◌&&◌,
  ◌↔◌, ◌∷◌, ◌≡◌, ◌≤◌,
}
use codegraph_mcp.Health.{
  HealthSettings, Outcomes, healthy, degraded, check_all_backends, check_readiness, row_ok,
  none_unhealthy, any_enabled, collect_ready, same_status, check_postgres, check_redis,
  check_weaviate, check_neo4j,
}
use codegraph_mcp.Health.Ready.{Answering, check_readiness-Answering}
use codegraph_mcp.PowerEvents.{Start, emails, boot_id_of}
use codegraph_mcp.PowerEvents.Once.{InBoot, AreBoots, starts, emails_bounded}
use codegraph_mcp.SystemOne.{
  Given, object, Response, error, fields, number, make_decision, classify_feedback, text,
  decision_reply, is_busy, is_truthy, model_busy, feedback_types, gate_feedback,
}
use codegraph_mcp.SystemOne.Answers.{
  is_valid, model_reply, make_decision-outcome, classify_feedback-member,
}
use codegraph_mcp.SystemOne.Lock
use codegraph_mcp.SystemOne.Lock.{
  Pc, decision_start, decision_waits, background_yields, background_waits, done, Model, Move, Step,
  Reach,
}
use codegraph_mcp.SystemOne.Priority.{Inv, Reach-Inv, tally, is_done, CanMove, no_deadlock}

abbrev only_postgres : HealthSettings
only_postgres = record {
  index_metadata_backend = str "postgres";
  semantic_index_backend = str "memory";
  graph_index_backend = str "memory";
}

abbrev no_redis : Outcomes
no_redis = record {
  select = returned (some ((str "ok", 1) ∷ []));
  ping = raised (str "refused");
  response = raised (str "refused");
  driver = raised (str "refused");
  single = raised (str "refused");
  close = raised (str "refused");
}

health_run :
    ((check_all_backends only_postgres no_redis).0 ≡ degraded)
    × (check_readiness only_postgres no_redis ≡ (true, (str "postgres", healthy) ∷ []))
unfolding check_all_backends check_readiness check_postgres check_redis check_weaviate check_neo4j
    row_ok none_unhealthy any_enabled collect_ready same_status Str-discrete get ℕ_discrete
health_run = (refl, refl)

check_readiness-Answering_example :
    ((check_readiness only_postgres no_redis).0 ≡ true) ↔ Answering only_postgres no_redis
check_readiness-Answering_example = check_readiness-Answering only_postgres no_redis

abbrev start : Start
start = record {
  proc_uptime = returned 100;
  proc_boot_id = returned (str "b1");
  write = returned tt;
  send = returned tt;
}

start-InBoot : InBoot (str "b1") start
unfolding boot_id_of strip lstrip rstrip is_space ℕ_discrete
start-InBoot = record { same = refl; writes = refl }

abbrev boots : List (Str × List Start)
boots = (str "b1", start ∷ start ∷ []) ∷ []

boots-AreBoots : AreBoots boots
unfolding Str-discrete
boots-AreBoots = (refl, ((start-InBoot, (start-InBoot, tt)), tt))

emails_bounded_example : emails (starts boots) none ≤ length boots
emails_bounded_example = emails_bounded boots none boots-AreBoots

abbrev question : Given
question = object ((str "risk", some (str "score")) ∷ [])

make_decision-outcome_example :
    ((make_decision (str "u") (str "PR") question false true (raised (str "down"))).1 ≡ false)
    × ((is_valid (str "PR") question && not false) ≡ true
        → (make_decision (str "u") (str "PR") question false true (raised (str "down"))).0
          ≡ model_reply (str "u") true (raised (str "down")))
    × ((is_valid (str "PR") question && not false) ≡ false
        → (e : Str) × ((make_decision
              (str "u")
              (str "PR")
              question
              false
              true
              (raised (str "down"))).0
            ≡ error e))
make_decision-outcome_example =
    make_decision-outcome (str "u") (str "PR") question false true (raised (str "down"))

-- The answer to a question named "__busy__" passes for the busy answer.
busy_run :
    decision_reply (some ((str "__busy__", fields ((str "noul", number 90) ∷ [])) ∷ []))
    ≡ model_busy
unfolding decision_reply is_busy is_truthy get Str-discrete ℕ_discrete
busy_run = refl

abbrev kind_bug : Response
kind_bug = record {
  status_code = 200;
  body = returned (some ((str "kind", fields ((str "choice", text (str "tool_bug")) ∷ [])) ∷ []));
}

classify_feedback-member_example :
    member (classify_feedback (str "u") (str "s") true (returned kind_bug)) feedback_types ≡ true
classify_feedback-member_example =
    classify_feedback-member (str "u") (str "s") true (returned kind_bug)

gate_run :
    (gate_feedback (record { specific = 99; actionable = 4; consistent = 90 })).accepted ≡ false
unfolding gate_feedback
gate_run = refl

-- A decision and a background call, the decision counted
abbrev two : Model
two = record { waiters = 1; lock = false; threads = decision_waits ∷ background_yields ∷ [] }

two-Reach : Reach two
unfolding Lock.is_start
two-Reach =
    Reach.later (Reach.begin (decision_start ∷ background_yields ∷ []) (refl, (refl, tt)))
      (Step.move [] (background_yields ∷ []) (Move.count 0 false))

Reach-Inv_example : Inv two
Reach-Inv_example = Reach-Inv two-Reach

no_deadlock_example : CanMove two
unfolding tally is_done
no_deadlock_example = no_deadlock two-Reach (omega arith)
