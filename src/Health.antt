-- ===== src/Health.antt =====
-- The health checks of the backends (backend/app/core/health.py), what they call given by its outcome.
pub mod Ready
use codegraph_mcp.Base.{
  ==_of_ne, ==_refl, All, All-append, All-get, All-keep, All-put, Bool, Bool-cases, Call, Dict,
  IsBelow, IsDistinct, IsDistinct-append, IsSorted, Key, List, List-cases, Option, Option-cases,
  Str, Str-discrete, [], add, add-IsDistinct, any, ap, arith, decimal, diff, digits, ends_with,
  eq_of_==, false, foldl, fun_ext, get, get-keep, get-map_values, get-pop, get-put, get_absent,
  get_or, has, has-put, if◌then◌else◌, inl, inr, insert_sorted, is_space, keep, keep-IsDistinct,
  keep-append, keys, keys-put, last_piece, leb, leb→le, length, length-append, length-keep-le,
  length-map, length-sorted, length-take-le, lstrip, ltb, ltb→lt, map, map_values, max, member,
  member-add, member-append, member-diff, member-sorted, member-union, min, nat_key, neg_part,
  negsuc, none, not, pair_discrete, pair_key, pop, pos, pos_part, put, put-IsDistinct, raised, refl,
  returned, rstrip, short_name, some, sorted, sorted-IsSorted, starts_with, str, str_key, str_leb,
  str_leb_total, str_leb_trans, strip, strip-strip, sub_ℕ, subst, suc, sym, take, true, union, zero,
  ℕ, ℕ_discrete, ℤ, ◌%◌, ◌&&◌, ◌*◌, ◌++◌, ◌+◌, ◌-◌, ◌/◌, ◌<◌, ◌==◌, ◌||◌, ◌↔◌, ◌∙◌, ◌∷◌, ◌≡◌, ◌≢◌,
  ◌≤ℤ◌, ◌≤◌, ◌⊎◌,
}

pub data Status : Type 0 where
  healthy degraded unhealthy disabled : Status

unfoldable pub same_status : Status → Status → Bool
same_status healthy healthy = true
same_status degraded degraded = true
same_status unhealthy unhealthy = true
same_status disabled disabled = true
same_status a b = false

pub record BackendHealthResult : Type 0 where
  pub backend : Str
  pub status : Status
  pub detail : Str

-- The three settings that name a backend
pub record HealthSettings : Type 0 where
  pub index_metadata_backend : Str
  pub semantic_index_backend : Str
  pub graph_index_backend : Str

-- A row of an answer: none, or its columns
abbrev pub Row : Type 0
Row = Option (Dict Str ℕ)

abbrev pub result_of : Str → Status → Str → BackendHealthResult
result_of b s d = record { backend = b; status = s; detail = d }

-- `row and row.get("ok") == 1`
unfoldable pub row_ok : Row → Bool
row_ok none = false
row_ok (some d) = elim (get (str "ok") d) [ none ↦ false | some n ↦ n == 1 ]

-- `select` is the connection with the query up to its row.
unfoldable pub check_postgres : HealthSettings → Call Row → BackendHealthResult
check_postgres s select =
    if s.index_metadata_backend == str "postgres"
    then (elim select [
      | raised e ↦ result_of (str "postgres") unhealthy e
      | returned row ↦
          if row_ok row
          then result_of (str "postgres") healthy []
          else result_of (str "postgres") degraded (str "Query returned unexpected result")
    ])
    else result_of (str "postgres") disabled (str "Not configured as active backend")

unfoldable pub check_redis : Call Bool → BackendHealthResult
check_redis (raised e) = result_of (str "redis") unhealthy e
check_redis (returned true) = result_of (str "redis") healthy []
check_redis (returned false) = result_of (str "redis") unhealthy (str "PING returned False")

-- `response` is the status code of the ready endpoint.
unfoldable pub check_weaviate : HealthSettings → Call ℕ → BackendHealthResult
check_weaviate s response =
    if s.semantic_index_backend == str "weaviate"
    then (elim response [
      | raised e ↦ result_of (str "weaviate") unhealthy e
      | returned code ↦
          if code == 200
          then result_of (str "weaviate") healthy []
          else result_of (str "weaviate") unhealthy (str "Ready endpoint returned " ++ decimal code)
    ])
    else result_of (str "weaviate") disabled (str "Not configured as active backend")

-- `record and record["ok"] == 1`, where a record that has columns but no "ok" raises KeyError
unfoldable pub record_ok : Row → Call Bool
record_ok none = returned false
record_ok (some []) = returned false
record_ok (some (c ∷ cs)) = elim (get (str "ok") (c ∷ cs)) [
  | none ↦ raised (str "'ok'")
  | some n ↦ returned (n == 1)
]

unfoldable pub neo4j_answer : Call Bool → BackendHealthResult
neo4j_answer (raised e) = result_of (str "neo4j") unhealthy e
neo4j_answer (returned true) = result_of (str "neo4j") healthy []
neo4j_answer (returned false) =
    result_of (str "neo4j") degraded (str "Query returned unexpected result")

-- The session, and then the close of the driver in `finally`: what it raises takes the place of the answer.
unfoldable pub neo4j_session : Call Row → Call (Unit {0}) → BackendHealthResult
neo4j_session single (raised e) = neo4j_answer (raised e)
neo4j_session (raised e) (returned u) = neo4j_answer (raised e)
neo4j_session (returned row) (returned u) = neo4j_answer (record_ok row)

unfoldable pub check_neo4j :
    HealthSettings → Call (Unit {0}) → Call Row → Call (Unit {0}) → BackendHealthResult
check_neo4j s driver single close =
    if s.graph_index_backend == str "neo4j"
    then (elim driver [
      | raised e ↦ neo4j_answer (raised e)
      | returned u ↦ neo4j_session single close
    ])
    else result_of (str "neo4j") disabled (str "Not configured as active backend")

-- The loop over the checks: false from an unhealthy one on
unfoldable pub none_unhealthy : Bool → List BackendHealthResult → Bool
none_unhealthy acc [] = acc
none_unhealthy acc (c ∷ cs) =
    none_unhealthy (if same_status c.status unhealthy then false else acc) cs

unfoldable pub any_enabled : List BackendHealthResult → Bool
any_enabled [] = false
any_enabled (c ∷ cs) = not (same_status c.status disabled) || any_enabled cs

-- What the four checks meet
pub record Outcomes : Type 0 where
  pub select : Call Row
  pub ping : Call Bool
  pub response : Call ℕ
  pub driver : Call (Unit {0})
  pub single : Call Row
  pub close : Call (Unit {0})

unfoldable pub check_all_backends : HealthSettings → Outcomes → Status × List BackendHealthResult
check_all_backends s o =
    let checks =
      check_postgres s o.select
      ∷ check_redis o.ping
      ∷ check_weaviate s o.response
      ∷ check_neo4j s o.driver o.single o.close
      ∷ [] in
    let overall = if none_unhealthy true checks then healthy else degraded in
    (if any_enabled checks then overall else healthy, checks)

-- The loop of the readiness check
unfoldable pub collect_ready :
    Bool → List (Str × Status) → List BackendHealthResult → Bool × List (Str × Status)
collect_ready ready acc [] = (ready, acc)
collect_ready ready acc (c ∷ cs) =
    let skipped = collect_ready ready acc cs in
    let met =
      collect_ready (if same_status c.status healthy then ready else false)
        (acc ++ ((c.backend, c.status) ∷ [])) cs in
    if same_status c.status disabled then skipped else met

unfoldable pub check_readiness : HealthSettings → Outcomes → Bool × List (Str × Status)
check_readiness s o = collect_ready true [] (
    check_postgres s o.select
    ∷ check_weaviate s o.response
    ∷ check_neo4j s o.driver o.single o.close
    ∷ [])
