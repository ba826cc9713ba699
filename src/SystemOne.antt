-- ===== src/SystemOne.antt =====
-- The client of the local decision model (backend/app/core/systemone.py) and the tool make_decision over it
-- (backend/app/mcp/tools/graph_read_tools.py). The HTTP call is given by its outcome.
pub mod Lock
pub mod Priority
pub mod Answers
use codegraph_mcp.Base.{
  ==_of_ne, ==_refl, All, All-append, All-get, All-keep, All-put, Bool, Bool-cases, Call, Dict,
  IsBelow, IsDistinct, IsDistinct-append, IsSorted, Key, List, List-cases, Option, Option-cases,
  Str, Str-discrete, [], add, add-IsDistinct, any, ap, arith, decimal, diff, digits, ends_with,
  eq_of_==, false, foldl, fun_ext, get, get-keep, get-map_values, get-pop, get-put, get_absent,
  get_or, has, has-put, if◌then◌else◌, inl, inr, insert_sorted, is_space, keep, keep-IsDistinct,
  keep-append, keys, keys-put, last_piece, leb, leb→le, length, length-append, length-keep-le,
  length-map, length-sorted, length-take-le, lstrip, ltb, ltb→lt, map, map_values, max, member,
  member-add, member-append, member-diff, member-sorted, member-union, min, nat_key, neg_part,
  negsuc, none, not, pair_discrete, pair_key, pop, pos, pos_part, put, put-IsDistinct, raised, refl,
  returned, rstrip, short_name, some, sorted, sorted-IsSorted, starts_with, str, str_key, str_leb,
  str_leb_total, str_leb_trans, strip, strip-strip, sub_ℕ, subst, suc, sym, take, true, union, zero,
  ℕ, ℕ_discrete, ℤ, ◌%◌, ◌&&◌, ◌*◌, ◌++◌, ◌+◌, ◌-◌, ◌/◌, ◌<◌, ◌==◌, ◌||◌, ◌↔◌, ◌∙◌, ◌∷◌, ◌≡◌, ◌≢◌,
  ◌≤ℤ◌, ◌≤◌, ◌⊎◌,
}

abbrev pub max_questions : ℕ
max_questions = 8

abbrev pub max_state_chars : ℕ
max_state_chars = 2000

abbrev pub allowed_types : List Str
allowed_types = str "noul" ∷ str "score" ∷ str "choice" ∷ []

abbrev pub feedback_types : List Str
feedback_types = str "ranking" ∷ str "search_gap" ∷ str "tool_bug" ∷ str "index_gap" ∷ []

-- A question: its type, or none for what is not an object or has no type; the rest goes to the model unread.
abbrev pub Questions : Type 0
Questions = Dict Str (Option Str)

-- A field of an answer: a number in hundredths, which is not negative, a text, or something else
pub data Value : Type 0 where
  number : ℕ → Value
  text : Str → Value
  other : Value

-- An answer: an object with fields, or another value of JSON that counts as true or as false
pub data Answer : Type 0 where
  fields : Dict Str Value → Answer
  truthy falsy : Answer

abbrev pub Answers : Type 0
Answers = Dict Str Answer

-- `{"__busy__": True}`, which decide returns among the answers
abbrev pub busy_answers : Answers
busy_answers = (str "__busy__", truthy) ∷ []

unfoldable pub is_truthy : Answer → Bool
is_truthy (fields []) = false
is_truthy (fields (f ∷ fs)) = true
is_truthy truthy = true
is_truthy falsy = false

-- `answers.get("__busy__")`
unfoldable pub is_busy : Answers → Bool
unfolding is_truthy
is_busy found = elim (get (str "__busy__") found) [ none ↦ false | some a ↦ is_truthy a ]

-- A response of the service: its status, and the answers of its body, an object, or what reading them raises
pub record Response : Type 0 where
  pub status_code : ℕ
  pub body : Call (Option Answers)

unfoldable pub is_allowed : Option Str → Bool
is_allowed none = false
is_allowed (some t) = member t allowed_types

unfoldable pub all_allowed : Questions → Bool
all_allowed [] = true
all_allowed ((name, q) ∷ qs) = is_allowed q && all_allowed qs

-- `raise_for_status`, then `response.json().get("answers") or None`
unfoldable pub read_answers : Call Response → Option Answers
read_answers (raised e) = none
read_answers (returned r) =
    let read : Option Answers = elim r.body [
      | raised e ↦ none
      | returned none ↦ none
      | returned (some []) ↦ none
      | returned (some (a ∷ found)) ↦ some (a ∷ found)
    ] in
    if leb 400 r.status_code then none else read

-- `acquired` is what the lock answers within 100 seconds.
unfoldable pub decide : Str → Str → Questions → Bool → Call Response → Option Answers
decide url state questions acquired post =
    if url == []
    then none
    else if strip state == []
    then none
    else if length questions == 0 || ltb max_questions (length questions)
    then none
    else if not (all_allowed questions)
    then none
    else if not acquired
    then some busy_answers
    else read_answers post

-- `(answers or {}).get("kind", {}).get("choice")`; what is no object raises, and is caught.
unfoldable pub choice_of : Option Answers → Option Value
choice_of none = none
choice_of (some found) = elim (get (str "kind") found) [
  | none ↦ none
  | some truthy ↦ none
  | some falsy ↦ none
  | some (fields fs) ↦ get (str "choice") fs
]

unfoldable pub classify_choice : Option Value → Str
classify_choice (some (text t)) = if member t feedback_types then t else str "ranking"
classify_choice v = str "ranking"

-- `state` is the text that `_build_state` and the two texts after it make.
unfoldable pub classify_feedback : Str → Str → Bool → Call Response → Str
classify_feedback url state acquired post =
    classify_choice
      (choice_of (decide url state ((str "kind", some (str "choice")) ∷ []) acquired post))

-- What the model says of an entry, in hundredths
pub record Judged : Type 0 where
  pub specific : ℕ
  pub actionable : ℕ
  pub consistent : ℕ

unfoldable pub noul_of : Answers → Str → Option ℕ
noul_of found key = elim (get key found) [
  | none ↦ none
  | some truthy ↦ none
  | some falsy ↦ none
  | some (fields fs) ↦ elim (get (str "noul") fs) [
    | some (number z) ↦ some z
    | some (text t) ↦ none
    | some other ↦ none
    | none ↦ none
  ]
]

unfoldable pub judged_of : Answers → Option Judged
judged_of found = elim (noul_of found (str "specific")) [
  | none ↦ none
  | some s ↦ elim (noul_of found (str "actionable")) [
    | none ↦ none
    | some a ↦ elim (noul_of found (str "consistent")) [
      | none ↦ none
      | some c ↦ some (record { specific = s; actionable = a; consistent = c })
    ]
  ]
]

-- An answer without answers has the default `{}`, an answer null raises as it has no `get`: both give none.
unfoldable pub judge_feedback : Str → Call Response → Option Judged
judge_feedback url (raised e) = none
judge_feedback url (returned r) =
    let read : Option Judged = elim r.body [
      | raised e ↦ none
      | returned none ↦ none
      | returned (some found) ↦ judged_of found
    ] in
    if url == [] || leb 400 r.status_code then none else read

-- The score in ten thousandths, exact where the code rounds as floats do, and whether the entry is accepted
pub record Gated : Type 0 where
  pub score : ℕ
  pub accepted : Bool

unfoldable pub gate_feedback : Judged → Gated
gate_feedback j =
    if ltb j.actionable 50
    then record { score = 100 * j.actionable; accepted = false }
    else record { score = 40 * j.specific + 35 * j.actionable + 25 * j.consistent; accepted = true }

-- The questions of a client: a text that is not JSON, what is not an object, or an object; a text that is JSON is
-- taken as what it stands for.
pub data Given : Type 0 where
  not_json not_object : Given
  object : Questions → Given

pub data Reply : Type 0 where
  error : Str → Reply
  answers : Answers → Reply

-- The first question that has none of the three types
unfoldable pub refused_question : Questions → Option Str
refused_question [] = none
refused_question ((name, q) ∷ qs) =
    let rest = refused_question qs in if is_allowed q then rest else some name

abbrev pub model_busy : Reply
model_busy = error (str "decision model busy with background feedback gating")

abbrev pub model_unavailable : Reply
model_unavailable = error (str "decision model unavailable (service down or timed out)")

-- An answer to a question of the name "__busy__" passes for the busy answer.
unfoldable pub decision_reply : Option Answers → Reply
unfolding is_busy
decision_reply none = model_unavailable
decision_reply (some found) = if is_busy found then model_busy else answers found

-- The reply with the lock after it; `lock` is _DECISION_LOCK, true while it is held. The state is the text made of
-- what is given, and the texts of the errors are shortened.
unfoldable pub make_decision : Str → Str → Given → Bool → Bool → Call Response → Reply × Bool
make_decision url state not_json lock acquired post =
    (error (str "questions: received a string that is not valid JSON"), lock)
make_decision url state not_object lock acquired post =
    if strip state == []
    then (error (str "state must be a non-empty string"), lock)
    else if ltb max_state_chars (length state)
    then (error (str "state too long"), lock)
    else (error (str "questions must be a non-empty object of named questions"), lock)
make_decision url state (object questions) lock acquired post =
    if strip state == []
    then (error (str "state must be a non-empty string"), lock)
    else if ltb max_state_chars (length state)
    then (error (str "state too long"), lock)
    else if length questions == 0
    then (error (str "questions must be a non-empty object of named questions"), lock)
    else if ltb max_questions (length questions)
    then (error (str "too many questions"), lock)
    else elim (refused_question questions) [
      | some name ↦ (
        error (str "question '" ++ (name ++ str "' must have type noul, score, or choice")),
        lock,
      )
      | none ↦
          if lock
          then (error (str "decision model busy with another request"), true)
          else (decision_reply (decide url state questions acquired post), false)
    ]
