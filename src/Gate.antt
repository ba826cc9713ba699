-- ===== src/Gate.antt =====
-- BearerTokenAuthMiddleware of backend/app/mcp/readonly_server.py, over the client keys and the token
-- buckets. Wall times are ticks, `sec` of them to a second.
pub mod Lockout
pub mod Access
use codegraph_mcp.Base.{
  ==_of_ne, ==_refl, All, All-append, All-get, All-keep, All-put, Bool, Bool-cases, Call,
  Call-cases, Dict, IsBelow, IsDistinct, IsDistinct-append, IsSorted, Key, List, List-cases, Option,
  Option-cases, Str, Str-discrete, [], add, add-IsDistinct, any, ap, arith, compare_digest,
  compare_digest-eq, contains, decimal, diff, digits, ends_with, eq_of_==, false, foldl, fun_ext,
  get, get-keep, get-map_values, get-pop, get-put, get_absent, get_or, has, has-put, if◌then◌else◌,
  inl, inr, insert_sorted, is_ascii, keep, keep-IsDistinct, keep-append, keys, keys-put, last_piece,
  leb, leb→le, length, length-append, length-keep-le, length-map, length-sorted, length-take-le,
  lstrip, ltb, ltb→lt, map, map_values, max, member, member-add, member-append, member-diff,
  member-sorted, member-union, min, nat_key, neg_part, negsuc, none, not, pair_discrete, pair_key,
  pop, pos, pos_part, put, put-IsDistinct, raised, refl, returned, rstrip, short_name, some, sorted,
  sorted-IsSorted, starts_with, str, str_key, str_leb, str_leb_total, str_leb_trans, strip,
  strip-strip, sub_ℕ, subst, suc, sym, take, true, union, unseen, unseen-le, unseen_drops, zero, ℕ,
  ℕ_discrete, ℤ, ◌%◌, ◌&&◌, ◌*◌, ◌++◌, ◌+◌, ◌-◌, ◌/◌, ◌<◌, ◌==◌, ◌||◌, ◌↔◌, ◌∙◌, ◌∷◌, ◌≡◌, ◌≢◌,
  ◌≤ℤ◌, ◌≤◌, ◌⊎◌,
}
use codegraph_mcp.ClientTokens.{User, Keyring, resolve_user_token}
use codegraph_mcp.TokenBucket.Registry.{Registry, take_tokens}

-- The readings of the clocks in one request, and what the settings store answers, none where it raises.
pub record Moment : Type 0 where
  pub wall : ℕ
  pub monotonic : ℕ
  pub store_clock : ℕ
  pub sweep_at : ℕ
  pub made_at : ℕ
  pub taken_at : ℕ
  pub stored_capacity : Option ℕ
  pub stored_refill : Option ℕ

pub record Gate : Type 0 where
  pub failed_attempts : Dict Str (List ℕ)
  pub keys : Keyring
  pub buckets : Registry
  pub settings_cached_at : ℕ
  pub settings_shape : ℕ × ℕ

pub record Request : Type 0 where
  pub path : Str
  pub method : Str
  pub client : Option Str
  pub forwarded_for : Str
  pub authorization : Str

pub record Settings : Type 0 where
  pub auth_token : Str
  pub environment : Str

pub data Reply : Type 0 where
  -- The request goes on, for a user if one of the client keys is used.
  admitted : Option User → Reply
  not_configured : Reply
  locked_out : Reply
  slowed_down : ℕ → Reply
  unauthorized : Reply
  -- An exception that is not handled, status 500
  unhandled : Reply

-- The whitespace of ASCII, that `strip` takes away
abbrev pub is_space : ℕ → Bool
is_space c = c == 32 || (leb 9 c && leb c 13) || (leb 28 c && leb c 31)

unfoldable pub strip_left : Str → Str
strip_left [] = []
strip_left (c ∷ cs) = if is_space c then strip_left cs else c ∷ cs

unfoldable pub strip_right : Str → Str
strip_right [] = []
strip_right (c ∷ cs) =
    let rest = strip_right cs in if is_space c && rest == [] then [] else c ∷ rest

-- `text.split(",")[0]`
unfoldable pub before_comma : Str → Str
before_comma [] = []
before_comma (c ∷ cs) = if c == 44 then [] else c ∷ before_comma cs

abbrev pub drop : ℕ → Str → Str
drop zero s = s
drop (suc n) [] = []
drop (suc n) (c ∷ cs) = drop n cs

-- `auth[7:]` after "Bearer ", else ""
unfoldable pub bearer : Str → Str
bearer auth = if starts_with (str "Bearer ") auth then drop 7 auth else []

abbrev pub max_attempts : ℕ
max_attempts = 5

abbrev pub window_sec : ℕ
window_sec = 60

abbrev pub lockout_sec : ℕ
lockout_sec = 300

-- The attempts of the last `span` seconds
unfoldable pub within : ℕ → ℕ → ℕ → List ℕ → List ℕ
within sec span now = keep (λ t. ltb now (t + span * sec))

unfoldable pub is_rate_limited : ℕ → ℕ → List ℕ → List ℕ × Bool
is_rate_limited sec now attempts =
    let kept = within sec lockout_sec now attempts in
    (kept, leb max_attempts (length (within sec window_sec now kept)))

-- The shape of the buckets, from the settings store at most every 30 seconds.
unfoldable pub current_bucket_shape : ℕ → ℕ → ℕ → Moment → Gate → Gate × (ℕ × ℕ)
current_bucket_shape sec capacity refill t g =
    let stored : ℕ × ℕ = elim t.stored_capacity [
      | none ↦ (capacity, refill)
      | some c ↦ elim t.stored_refill [ none ↦ (c, refill) | some r ↦ (c, r) ]
    ] in
    if ltb t.monotonic (g.settings_cached_at + 30 * sec)
    then (g, g.settings_shape)
    else (record g { settings_cached_at = t.monotonic; settings_shape = stored }, stored)

-- `trusted` is _is_trusted_proxy, a test of the address by the module ipaddress.
unfoldable pub client_key : (Str → Bool) → Request → Str
client_key trusted r =
    let peer : Str = elim r.client [ none ↦ str "unknown" | some host ↦ host ] in
    if not (r.forwarded_for == []) && trusted peer
    then strip_right (strip_left (before_comma r.forwarded_for))
    else peer

-- SHA-256, str(int), the addresses of proxies, the units of a token and of the clocks, and the default shape.
module _ (digest : Str → Str) (show : ℕ → Str) (trusted : Str → Bool)
    (unit sec capacity refill : ℕ) where
  abbrev pub identity : Option User → Str → Str
  identity none client = str "mcp-ip-" ++ client
  identity (some u) client = str "mcp-user-" ++ show u.user_id

  -- An authenticated request: tool calls take a token.
  unfoldable pub admit : Moment → Request → Str → Option User → Gate → Gate × Reply
  admit t r client user g =
      let shaped = current_bucket_shape sec capacity refill t g in
      let taken =
        take_tokens unit sec (str "mcp:" ++ identity user client) shaped.1.0 shaped.1.1 1 t.sweep_at
          t.made_at t.taken_at shaped.0.buckets in
      let next = record shaped.0 { buckets = taken.0 } in
      if not (r.method == str "POST" && ends_with (str "/mcp") r.path)
      then (g, admitted user)
      else if taken.1
      then (next, admitted user)
      else (next, slowed_down taken.2)

  -- The user of a key that is not the shared token, with the keyring after the lookup.
  unfoldable pub user_of : Moment → Settings → Str → Gate → Gate × Call (Option User)
  user_of t config provided g =
      let found = resolve_user_token digest sec provided t.monotonic t.store_clock g.keys in
      let looked : Gate × Call (Option User) = elim (compare_digest provided config.auth_token) [
        | raised e ↦ (g, raised e)
        | returned true ↦ (g, returned none)
        | returned false ↦ (record g { keys = found.0 }, returned found.1)
      ] in
      if provided == [] then (g, returned none) else looked

  unfoldable pub record_failure : ℕ → Str → Gate → Gate
  record_failure now client g = record g {
    failed_attempts =
        put client (get_or client [] g.failed_attempts ++ (now ∷ [])) g.failed_attempts;
  }

  -- The part of dispatch behind the lockout
  unfoldable pub authenticate : Moment → Settings → Request → Str → Gate → Gate × Reply
  authenticate t config r client g =
      let provided = bearer r.authorization in
      let looked = user_of t config provided g in
      let judge : Option User → Gate × Reply = λ user.
        elim (compare_digest provided config.auth_token) [
          | raised e ↦ (looked.0, unhandled)
          | returned true ↦ admit t r client user looked.0
          | returned false ↦ elim user [
            | some u ↦ admit t r client (some u) looked.0
            | none ↦ (record_failure t.wall client looked.0, unauthorized)
          ]
        ] in
      elim looked.1 [ raised e ↦ (looked.0, unhandled) | returned user ↦ judge user ]

  unfoldable pub dispatch : Moment → Settings → Request → Gate → Gate × Reply
  dispatch t config r g =
      let client = client_key trusted r in
      let limited = is_rate_limited sec t.wall (get_or client [] g.failed_attempts) in
      let pruned = record g { failed_attempts = put client limited.0 g.failed_attempts } in
      if r.path == str "/health"
      then (g, admitted none)
      else if config.auth_token == []
      then (if config.environment == str "local" then (g, admitted none) else (g, not_configured))
      else if limited.1
      then (pruned, locked_out)
      else authenticate t config r client pruned
