-- ===== src/JsonRpc.antt =====
-- JSON-RPC over HTTP (backend/app/mcp/readonly_server.py, `_handle_mcp`). The tools and the prompts are parameters, and
-- JSON values are of any type.
pub mod Replies
use codegraph_mcp.Base.{
  ==_of_ne, ==_refl, All, All-append, All-get, All-keep, All-put, Bool, Bool-cases, Call,
  Call-cases, Dict, IsBelow, IsDistinct, IsDistinct-append, IsSorted, Key, List, List-cases, Option,
  Option-cases, Str, Str-discrete, [], add, add-IsDistinct, any, ap, arith, compare_digest,
  compare_digest-eq, contains, decimal, diff, digits, ends_with, eq_of_==, false, foldl, fun_ext,
  get, get-keep, get-map_values, get-pop, get-put, get_absent, get_or, has, has-put, if◌then◌else◌,
  inl, inr, insert_sorted, is_ascii, is_space, keep, keep-IsDistinct, keep-append, keys, keys-put,
  last_piece, leb, leb→le, length, length-append, length-keep-le, length-map, length-sorted,
  length-take-le, lstrip, ltb, ltb→lt, map, map_values, max, member, member-add, member-append,
  member-diff, member-sorted, member-union, min, nat_key, neg_part, negsuc, none, not,
  pair_discrete, pair_key, pop, pos, pos_part, put, put-IsDistinct, raised, refl, returned, rstrip,
  short_name, some, sorted, sorted-IsSorted, starts_with, str, str_key, str_leb, str_leb_total,
  str_leb_trans, strip, strip-strip, sub_ℕ, subst, suc, sym, take, true, union, unseen, unseen-le,
  unseen_drops, zero, ℕ, ℕ_discrete, ℤ, ◌%◌, ◌&&◌, ◌*◌, ◌++◌, ◌+◌, ◌-◌, ◌/◌, ◌<◌, ◌==◌, ◌||◌, ◌↔◌,
  ◌∙◌, ◌∷◌, ◌≡◌, ◌≢◌, ◌≤ℤ◌, ◌≤◌, ◌⊎◌,
}

-- The arguments: absent, an object, or another value, which counts as false (null, 0, [] and the like) or as true
pub data Arguments {ℓ} (J : Type ℓ) : Type ℓ where
  absent falsy_other truthy_other : Arguments J
  given : J → Arguments J

-- A field that is looked up in a table of texts: a text; absent, null, a number or a Boolean, which no table has; or
-- a list or an object, which cannot be hashed.
pub data Field : Type 0 where
  text : Str → Field
  scalar unhashable : Field

-- The parameters: an object with the fields that are read, or another value; parameters that are absent are an object
-- without fields.
pub record Fields {ℓ} (J : Type ℓ) : Type ℓ where
  pub protocol_version : Field
  pub name : Field
  pub arguments : Arguments J

-- A prompt: whether it has a message of type text, and its messages with the arguments put in, or what that raises;
-- no arguments are `{}`, and a missing placeholder leaves the text as it is.
pub record Prompt {ℓ} (J : Type ℓ) : Type ℓ where
  pub has_text : Bool
  pub render : Option J → Call J

pub data Params {ℓ} (J : Type ℓ) : Type ℓ where
  no_object : Params J
  fields : Fields J → Params J

-- The method, empty where it is absent or no text
pub record Rpc {ℓ} (J : Type ℓ) : Type ℓ where
  pub id : Option J
  pub method : Str
  pub params : Params J

pub data Body {ℓ} (J : Type ℓ) : Type ℓ where
  no_json scalar_or_list : Body J
  call : Rpc J → Body J

pub data Payload {ℓ} (J : Type ℓ) : Type ℓ where
  initialized : Str → Payload J
  tool_names prompt_names : List Str → Payload J
  tool_text : J → Payload J
  unknown_tool : Field → Payload J
  tool_failure : Str → Payload J
  messages : J → Payload J
  pong : Payload J

-- A reply: an HTTP status without a result, an exception that is not handled, a result as an event stream or plain,
-- or an error, which always goes as an event stream
pub data Reply {ℓ} (J : Type ℓ) : Type ℓ where
  accepted_202 parse_error_400 invalid_request_400 unhandled : Reply J
  result : Bool → J → Payload J → Reply J
  error : J → ℤ → Reply J

abbrev pub protocol_version : Str
protocol_version = str "2024-11-05"

abbrev pub supported_versions : List Str
supported_versions = str "2024-11-05" ∷ str "2025-03-26" ∷ str "2025-06-18" ∷ []

-- `in` raises for what cannot be hashed.
unfoldable pub negotiate : Field → Call Str
negotiate (text v) = returned (if member v supported_versions then v else protocol_version)
negotiate scalar = returned protocol_version
negotiate unhashable = raised (str "unhashable type")

-- The text of a prompt is formatted with `args.items()`, which what is no object does not have.
unfoldable pub rendered {ℓ} : {J : Type ℓ} → Prompt J → Arguments J → Call J
rendered p absent = p.render none
rendered p falsy_other = p.render none
rendered p truthy_other =
    if p.has_text then raised (str "object has no attribute 'items'") else p.render none
rendered p (given j) = p.render (some j)

-- A tool takes its arguments, none where they are absent.
module _ {ℓ} {J : Type ℓ} (tools : Dict Str (Option J → Call J))
    (prompts : Dict Str (Prompt J)) where
  unfoldable pub run_tool : Bool → J → Field → Option J → Reply J
  run_tool sse id unhashable a = unhandled
  run_tool sse id scalar a = result sse id (unknown_tool scalar)
  run_tool sse id (text name) a = elim (get name tools) [
    | none ↦ result sse id (unknown_tool (text name))
    | some handler ↦ elim (handler a) [
      | raised e ↦ result sse id (tool_failure e)
      | returned j ↦ result sse id (tool_text j)
    ]
  ]

  unfoldable pub call_tool : Bool → J → Fields J → Reply J
  unfolding run_tool
  call_tool sse id f = elim f.arguments [
    | absent ↦ run_tool sse id f.name none
    | given j ↦ run_tool sse id f.name (some j)
    | falsy_other ↦ error id (negsuc 32601)
    | truthy_other ↦ error id (negsuc 32601)
  ]

  -- What the rendering of a prompt raises is not caught.
  unfoldable pub get_prompt : Bool → J → Fields J → Reply J
  unfolding rendered
  get_prompt sse id f = elim f.name [
    | unhashable ↦ unhandled
    | scalar ↦ error id (negsuc 32601)
    | text name ↦ elim (get name prompts) [
      | none ↦ error id (negsuc 32601)
      | some p ↦ elim (rendered p f.arguments) [
        | raised e ↦ unhandled
        | returned j ↦ result sse id (messages j)
      ]
    ]
  ]

  unfoldable pub initialize : Bool → J → Fields J → Reply J
  unfolding negotiate
  initialize sse id f = elim (negotiate f.protocol_version) [
    | raised e ↦ unhandled
    | returned v ↦ result sse id (initialized v)
  ]

  -- `params.get` of what is no object raises.
  unfoldable pub with_fields : (Fields J → Reply J) → Params J → Reply J
  with_fields f no_object = unhandled
  with_fields f (fields x) = f x

  unfoldable pub dispatch : Bool → J → Rpc J → Reply J
  unfolding initialize
  dispatch sse id r =
      if r.method == str "initialize"
      then with_fields (initialize sse id) r.params
      else if r.method == str "tools/list"
      then result sse id (tool_names (keys tools))
      else if r.method == str "tools/call"
      then with_fields (call_tool sse id) r.params
      else if r.method == str "prompts/list"
      then result sse id (prompt_names (keys prompts))
      else if r.method == str "prompts/get"
      then with_fields (get_prompt sse id) r.params
      else if r.method == str "ping"
      then result sse id pong
      else error id (negsuc 32600)

  -- `accept` is the header Accept, empty without one.
  unfoldable pub handle_mcp : Str → Body J → Reply J
  unfolding contains
  handle_mcp accept no_json = parse_error_400
  handle_mcp accept scalar_or_list = invalid_request_400
  handle_mcp accept (call r) = elim r.id [
    | none ↦ accepted_202
    | some id ↦ dispatch (contains (str "text/event-stream") accept) id r
  ]
