-- ===== src/SystemOne/Answers.antt =====
-- What the callers of the decision model get, whatever the model does.
use codegraph_mcp.Base.{
  Bool, Bool-cases, Call, Option, Option-cases, Str, Str-discrete, [], ap, arith, false, get,
  if◌then◌else◌, inl, inr, leb, length, ltb, member, nat_key, none, not, pair_key, refl, some, str,
  str_key, strip, true, ℕ_discrete, ◌&&◌, ◌++◌, ◌==◌, ◌↔◌, ◌∙◌, ◌∷◌, ◌≡◌, ◌≤◌,
}
use codegraph_mcp.SystemOne.{
  Questions, Given, not_json, not_object, object, Reply, error, answers, Answers, Response,
  busy_answers, is_busy, is_truthy, model_busy, model_unavailable, max_questions, max_state_chars,
  feedback_types, all_allowed, refused_question, read_answers, decide, choice_of, classify_choice,
  classify_feedback, decision_reply, make_decision, Value, text, number, other, Judged,
  gate_feedback,
}

-- A request that the model may see: a state of 1 to 2000 characters that is not blank, 1 to 8 questions, each of one
-- of the three types.
abbrev pub is_valid : Str → Given → Bool
is_valid state not_json = false
is_valid state not_object = false
is_valid state (object qs) =
    not (strip state == [])
    && leb (length state) max_state_chars
    && leb 1 (length qs)
    && leb (length qs) max_questions
    && all_allowed qs

-- What decide returns to a request that the model may see
abbrev pub model_answer : Str → Bool → Call Response → Option Answers
model_answer url acquired post =
    if url == [] then none else if acquired then read_answers post else some busy_answers

-- The reply to such a request
abbrev pub model_reply : Str → Bool → Call Response → Reply
model_reply url acquired post =
    if url == []
    then model_unavailable
    else if not acquired
    then model_busy
    else elim (read_answers post) [
      | none ↦ model_unavailable
      | some found ↦ if is_busy found then model_busy else answers found
    ]

busy_answers-is_busy : is_busy busy_answers ≡ true
unfolding is_busy is_truthy Str-discrete ℕ_discrete get
busy_answers-is_busy = refl

decision_reply-model_answer :
    (url : Str) (acquired : Bool) (post : Call Response)
    → decision_reply (model_answer url acquired post) ≡ model_reply url acquired post
unfolding decision_reply
decision_reply-model_answer url acquired post = elim (Bool-cases (url == [])) [
  | inl e ↦ ground (arith, e)
  | inr e ↦ elim (Bool-cases acquired) [
    | inr a ↦ ground (arith, e, a, busy_answers-is_busy)
    | inl a ↦ elim (Option-cases (read_answers post)) [
      | inl n ↦ ground (arith, e, a, n)
      | inr (found, n) ↦ ground (arith, e, a, n)
    ]
  ]
]

refused_question-none : (qs : Questions) → refused_question qs ≡ none → all_allowed qs ≡ true
unfolding refused_question all_allowed
refused_question-none [] h = refl
refused_question-none ((name, q) ∷ qs) h = ground (arith, h, refused_question-none qs)

refused_question-some :
    (qs : Questions) (name : Str) → refused_question qs ≡ some name → all_allowed qs ≡ false
unfolding refused_question all_allowed
refused_question-some [] name h = ground (arith, h)
refused_question-some ((a, q) ∷ qs) name h = ground (arith, h, refused_question-some qs name)

-- What decide does to a request that make_decision lets through
decide-valid :
    (url state : Str) (qs : Questions) (acquired : Bool) (post : Call Response)
    → is_valid state (object qs) ≡ true
    → decide url state qs acquired post ≡ model_answer url acquired post
unfolding decide
decide-valid url state qs acquired post v = ground (arith, v)

pub make_decision-valid :
    (url state : Str) (given : Given) (acquired : Bool) (post : Call Response)
    → is_valid state given ≡ true
    → make_decision url state given false acquired post
      ≡ (decision_reply (model_answer url acquired post), false)
unfolding make_decision
make_decision-valid url state not_json acquired post v = ground (arith, v)
make_decision-valid url state not_object acquired post v = ground (arith, v)
make_decision-valid url state (object qs) acquired post v =
    elim (Option-cases (refused_question qs)) [
      | inl e ↦ ground (arith, v, e, decide-valid url state qs acquired post v)
      | inr (name, e) ↦ ground (arith, v, refused_question-some qs name e)
    ]

abbrev IsRefused : Bool → Reply × Bool → Type 0
IsRefused lock r = (e : Str) × (r ≡ (error e, lock))

refused_question-IsRefused :
    (lock : Bool) (qs : Questions) (r : Reply)
    → (refused_question qs ≡ none → lock ≡ true)
    → IsRefused lock (elim (refused_question qs) [
      | some name ↦ (
        error (str "question '" ++ (name ++ str "' must have type noul, score, or choice")),
        lock,
      )
      | none ↦
          if lock
          then (error (str "decision model busy with another request"), true)
          else (r, false)
    ])
refused_question-IsRefused lock qs r h = elim (Option-cases (refused_question qs)) [
  | inl e ↦ rw (e, h e) (_, refl)
  | inr (name, e) ↦ rw e (_, refl)
]

all_allowed-none : (qs : Questions) → all_allowed qs ≡ true → refused_question qs ≡ none
unfolding refused_question all_allowed
all_allowed-none [] h = refl
all_allowed-none ((name, q) ∷ qs) h = ground (arith, h, all_allowed-none qs)

valid_of :
    (state : Str) (qs : Questions)
    → (strip state == []) ≡ false
    → ltb max_state_chars (length state) ≡ false
    → (length qs == 0) ≡ false
    → ltb max_questions (length qs) ≡ false
    → all_allowed qs ≡ true
    → is_valid state (object qs) ≡ true
valid_of state qs a b c d e = ground (arith, a, b, c, d, e)

make_decision-IsRefused :
    (url state : Str) (given : Given) (lock acquired : Bool) (post : Call Response)
    → (is_valid state given && not lock) ≡ false
    → IsRefused lock (make_decision url state given lock acquired post)
unfolding make_decision
make_decision-IsRefused url state not_json lock acquired post v = (_, refl)
make_decision-IsRefused url state not_object lock acquired post v =
    elim (Bool-cases (strip state == [])) [
      | inl a ↦ rw (make_decision, a) (_, refl)
      | inr a ↦ elim (Bool-cases (ltb max_state_chars (length state))) [
        | inl b ↦ rw (make_decision, a, b) (_, refl)
        | inr b ↦ rw (make_decision, a, b) (_, refl)
      ]
    ]
make_decision-IsRefused url state (object qs) lock acquired post v =
    elim (Bool-cases (strip state == [])) [
      | inl a ↦ rw (make_decision, a) (_, refl)
      | inr a ↦ elim (Bool-cases (ltb max_state_chars (length state))) [
        | inl b ↦ rw (make_decision, a, b) (_, refl)
        | inr b ↦ elim (Bool-cases (length qs == 0)) [
          | inl c ↦ rw (make_decision, a, b, c) (_, refl)
          | inr c ↦ elim (Bool-cases (ltb max_questions (length qs))) [
            | inl d ↦ rw (make_decision, a, b, c, d) (_, refl)
            | inr d ↦
                rw (make_decision, a, b, c, d)
                  (refused_question-IsRefused lock qs
                    (decision_reply (decide url state qs acquired post))
                    (λ e.
                      ground (arith, v, valid_of state qs a b c d (refused_question-none qs e))))
          ]
        ]
      ]
    ]

-- The tool make_decision leaves its lock as it met it. To a request that is not valid, or while the lock is held, it
-- answers an error. To any other request it answers that the model is unavailable without a service, busy without the
-- lock in time, and else with the answers that read_answers finds: unavailable if there are none, busy if the one under
-- "__busy__" counts as true, and otherwise the answers themselves.
pub make_decision-outcome :
    (url state : Str) (given : Given) (lock acquired : Bool) (post : Call Response)
    → ((make_decision url state given lock acquired post).1 ≡ lock)
      × ((is_valid state given && not lock) ≡ true
          → (make_decision url state given lock acquired post).0 ≡ model_reply url acquired post)
      × ((is_valid state given && not lock) ≡ false
          → (e : Str) × ((make_decision url state given lock acquired post).0 ≡ error e))
make_decision-outcome url state given true acquired post =
    let r = make_decision-IsRefused url state given true acquired post (ground arith) in
    (ap (λ p. p.1) r.1, λ v. absurd (ground (arith, v)), λ v. (r.0, ap (λ p. p.0) r.1))
make_decision-outcome url state given false acquired post =
    elim (Bool-cases (is_valid state given)) [
      | inl v ↦
          let e = make_decision-valid url state given acquired post v in
          (
            ap (λ p. p.1) e,
            λ w. ap (λ p. p.0) e ∙ decision_reply-model_answer url acquired post,
            λ w. absurd (ground (arith, v, w)),
          )
      | inr v ↦
          let r = make_decision-IsRefused url state given false acquired post (ground (arith, v)) in
          (ap (λ p. p.1) r.1, λ w. absurd (ground (arith, v, w)), λ w. (r.0, ap (λ p. p.0) r.1))
    ]

classify_default : member (str "ranking") feedback_types ≡ true
unfolding member Str-discrete
classify_default = refl

-- Every feedback entry gets one of the four types, whatever the model answers or fails to answer.
pub classify_feedback-member :
    (url state : Str) (acquired : Bool) (post : Call Response)
    → member (classify_feedback url state acquired post) feedback_types ≡ true
unfolding classify_feedback classify_choice
classify_feedback-member url state acquired post =
    go (choice_of (decide url state ((str "kind", some (str "choice")) ∷ []) acquired post))
  where
    go : (v : Option Value) → member (classify_choice v) feedback_types ≡ true
    go none = classify_default
    go (some (text t)) = elim (Bool-cases (member t feedback_types)) [
      | inl e ↦ rw (classify_choice, e) e
      | inr e ↦ rw (classify_choice, e) classify_default
    ]
    go (some (number n)) = classify_default
    go (some other) = classify_default

-- With judgements from 0 to 100 hundredths an entry is accepted exactly if its actionable one is 50 at least; its score
-- is at most 10000 ten thousandths, and that of an accepted one at least 1750.
pub gate_feedback-bounds :
    (j : Judged)
    → j.specific ≤ 100
    → j.actionable ≤ 100
    → j.consistent ≤ 100
    → (((gate_feedback j).accepted ≡ true) ↔ (50 ≤ j.actionable))
      × ((gate_feedback j).score ≤ 10000)
      × ((gate_feedback j).accepted ≡ true → 1750 ≤ (gate_feedback j).score)
unfolding gate_feedback
gate_feedback-bounds j a b c = ground (arith, a, b, c)
