-- ===== src/RateLimit.antt =====
-- backend/app/core/rate_limit.py: the limits on requests and on bodies. Times are ticks, 60 to the window
-- of `tick` each second; int() on a header is the parameter `parse_int`.
pub mod Window
pub mod Bodies
use codegraph_mcp.Base.{
  ==_of_ne, ==_refl, All, All-append, All-keep, Bool, Bool-cases, Dict, IsBelow, IsDistinct,
  IsDistinct-append, IsSorted, Key, List, List-cases, Option, Option-cases, Str, Str-discrete, [],
  add, add-IsDistinct, any, ap, arith, diff, eq_of_==, false, foldl, fun_ext, get, get-keep,
  get-map_values, get-pop, get-put, get_absent, get_or, has, has-put, if◌then◌else◌, inl, inr,
  insert_sorted, keep, keep-IsDistinct, keep-append, keys, keys-put, leb, leb→le, length,
  length-append, length-keep-le, length-map, length-sorted, length-take-le, ltb, ltb→lt, map,
  map_values, max, member, member-add, member-append, member-diff, member-sorted, member-union, min,
  nat_key, neg_part, negsuc, none, not, pair_discrete, pair_key, pop, pos, pos_part, put,
  put-IsDistinct, refl, some, sorted, sorted-IsSorted, starts_with, str, str_key, str_leb,
  str_leb_total, str_leb_trans, sub_ℕ, subst, suc, sym, take, true, union, zero, ℕ, ℕ_discrete, ℤ,
  ◌%◌, ◌&&◌, ◌*◌, ◌++◌, ◌+◌, ◌-◌, ◌/◌, ◌<◌, ◌==◌, ◌||◌, ◌↔◌, ◌∙◌, ◌∷◌, ◌≡◌, ◌≢◌, ◌≤ℤ◌, ◌≤◌, ◌⊎◌,
}

-- `while window and window[0] < now - 60: window.popleft()`; `sec` is the ticks of a second.
unfoldable pub expire : ℕ → ℕ → List ℕ → List ℕ
expire sec now [] = []
expire sec now (t ∷ ts) =
    let rest = expire sec now ts in if ltb (t + 60 * sec) now then rest else t ∷ ts

-- The window, whether the request is allowed, and `limit - len(window)`.
unfoldable pub check_window : ℕ → ℕ → ℕ → List ℕ → List ℕ × Bool × ℤ
check_window sec limit now window =
    let live = expire sec now window in
    if leb limit (length live)
    then (live, false, sub_ℕ limit (length live))
    else (live ++ (now ∷ []), true, sub_ℕ limit (length (live ++ (now ∷ []))))

-- `_counts`, a defaultdict from a name to its window
abbrev pub Counts : Type 0
Counts = Dict Str (List ℕ)

unfoldable pub check_rate : ℕ → Str → ℕ → ℕ → Counts → Counts × Bool × ℤ
check_rate sec client limit now counts =
    let r = check_window sec limit now (get_or client [] counts) in
    (put client r.0 counts, r.1, r.2)

abbrev pub rate_limit_default : ℕ
rate_limit_default = 100

abbrev pub rate_limit_mutate : ℕ
rate_limit_mutate = 20

abbrev pub rate_limit_index : ℕ
rate_limit_index = 5

abbrev pub max_body_bytes : ℕ
max_body_bytes = 10 * 1024 * 1024

abbrev pub mutate_paths : List Str
mutate_paths =
    str "/api/feedback"
    ∷ str "/api/index/ingest"
    ∷ str "/api/index/digest"
    ∷ str "/api/index/notify"
    ∷ []

abbrev pub index_paths : List Str
index_paths =
    str "/api/index/repository" ∷ str "/api/index/semantic/rebuild" ∷ str "/api/index/replay" ∷ []

pub record Request : Type 0 where
  pub method : Str
  pub path : Str
  pub client : Option Str
  pub content_length : Option Str

pub data Response : Type 0 where
  passed : Response
  passed_with : ℤ → Response
  too_large : Response
  limited : Str → Response

-- The class of a path: the prefix of its windows' names, its limit and its refusal.
pub record PathClass : Type 0 where
  pub prefix : Str
  pub limit : ℕ
  pub detail : Str

unfoldable pub class_of : Str → PathClass
class_of p =
    if any (λ q. starts_with q p) index_paths
    then record {
      prefix = str "index:";
      limit = rate_limit_index;
      detail = str "Rate limit exceeded for index/admin operations";
    }
    else if any (λ q. starts_with q p) mutate_paths
    then record {
      prefix = str "mutate:";
      limit = rate_limit_mutate;
      detail = str "Rate limit exceeded for mutation operations";
    }
    else record {
      prefix = str "default:";
      limit = rate_limit_default;
      detail = str "Rate limit exceeded";
    }

abbrev pub client_ip : Request → Str
client_ip r = elim r.client [ none ↦ str "unknown" | some host ↦ host ]

abbrev pub window_name : Request → Str
window_name r = (class_of r.path).prefix ++ client_ip r

unfoldable pub is_local : Str → Request → Bool
is_local environment r =
    (client_ip r == str "testclient" || client_ip r == str "127.0.0.1")
    && environment == str "local"

-- `cl > 10 MiB`; a header that is no number is ignored.
unfoldable pub is_oversize : (Str → Option ℤ) → Request → Bool
is_oversize parse_int r = elim r.content_length [
  | none ↦ false
  | some text ↦ elim (parse_int text) [ none ↦ false | some cl ↦ ltb max_body_bytes (pos_part cl) ]
]

unfoldable pub dispatch : ℕ → (Str → Option ℤ) → Str → ℕ → Request → Counts → Counts × Response
dispatch sec parse_int environment now r counts =
    if r.method == str "OPTIONS"
    then (counts, passed)
    else if is_local environment r
    then (counts, passed)
    else if is_oversize parse_int r
    then (counts, too_large)
    else let kind = class_of r.path in
      let checked = check_rate sec (window_name r) kind.limit now counts in
      if checked.1 then (checked.0, passed_with checked.2) else (checked.0, limited kind.detail)

-- BodySizeLimitMiddleware: the messages that `receive` gives, in order.
pub data Message : Type 0 where
  http_request : List ℕ → Bool → Message
  other_message : Message

pub data Outcome : Type 0 where
  -- The application runs on what is left of the stream,
  forwarded : List Message → Outcome
  -- on the whole body in one message,
  replayed : List ℕ → Outcome
  -- or 413 is sent.
  refused_413 : Outcome
  -- The stream has not ended.
  waiting : Outcome

unfoldable pub buffer : List ℕ → List Message → Outcome
buffer body [] = waiting
buffer body (other_message ∷ ms) = forwarded ms
buffer body (http_request chunk more ∷ ms) =
    let rest = buffer (body ++ chunk) ms in
    if ltb max_body_bytes (length (body ++ chunk))
    then refused_413
    else if more
    then rest
    else replayed (body ++ chunk)

-- Only an HTTP request with a method that has a body is buffered.
unfoldable pub limit_body : Str → Str → List Message → Outcome
limit_body kind method ms =
    if not (kind == str "http")
      || method == str "GET"
      || method == str "HEAD"
      || method == str "OPTIONS"
    then forwarded ms
    else buffer [] ms
