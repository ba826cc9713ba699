-- ===== src/ApiAuth.antt =====
-- AuthMiddleware of backend/app/core/auth.py, over the client keys.
pub mod Access
use codegraph_mcp.Base.{
  ==_of_ne, ==_refl, All, All-append, All-get, All-keep, All-put, Bool, Bool-cases, Call,
  Call-cases, Dict, IsBelow, IsDistinct, IsDistinct-append, IsSorted, Key, List, List-cases, Option,
  Option-cases, Str, Str-discrete, [], add, add-IsDistinct, any, ap, arith, compare_digest,
  compare_digest-eq, contains, decimal, diff, digits, ends_with, eq_of_==, false, foldl, fun_ext,
  get, get-keep, get-map_values, get-pop, get-put, get_absent, get_or, has, has-put, if◌then◌else◌,
  inl, inr, insert_sorted, is_ascii, is_space, keep, keep-IsDistinct, keep-append, keys, keys-put,
  last_piece, leb, leb→le, length, length-append, length-keep-le, length-map, length-sorted,
  length-take-le, lstrip, ltb, ltb→lt, map, map_values, max, member, member-add, member-append,
  member-diff, member-sorted, member-union, min, nat_key, neg_part, negsuc, none, not,
  pair_discrete, pair_key, pop, pos, pos_part, put, put-IsDistinct, raised, refl, returned, rstrip,
  short_name, some, sorted, sorted-IsSorted, starts_with, str, str_key, str_leb, str_leb_total,
  str_leb_trans, strip, strip-strip, sub_ℕ, subst, suc, sym, take, true, union, unseen, unseen-le,
  unseen_drops, zero, ℕ, ℕ_discrete, ℤ, ◌%◌, ◌&&◌, ◌*◌, ◌++◌, ◌+◌, ◌-◌, ◌/◌, ◌<◌, ◌==◌, ◌||◌, ◌↔◌,
  ◌∙◌, ◌∷◌, ◌≡◌, ◌≢◌, ◌≤ℤ◌, ◌≤◌, ◌⊎◌,
}
use codegraph_mcp.ClientTokens.{User, Keyring, resolve_user_token}
use codegraph_mcp.Gate.{bearer, Settings}

abbrev pub public_paths : List Str
public_paths = str "/health" ∷ str "/" ∷ str "/docs" ∷ str "/openapi.json" ∷ str "/redoc" ∷ []

abbrev pub public_prefixes : List Str
public_prefixes = str "/assets/" ∷ []

abbrev pub self_authed_prefixes : List Str
self_authed_prefixes = str "/api/admin/" ∷ []

pub data ApiReply : Type 0 where
  passed : ApiReply
  not_configured : ApiReply
  unauthorized : ApiReply
  -- An exception that is not handled, status 500
  unhandled : ApiReply

-- A path that needs no credential of this middleware
unfoldable pub is_open : Str → Bool
is_open path =
    member path public_paths
    || any (λ p. starts_with p path) public_prefixes
    || any (λ p. starts_with p path) self_authed_prefixes
    || not (starts_with (str "/api/") path)

module _ (digest : Str → Str) where
  -- Whether the credential is good, or what comparing it raises, and the keyring after it is looked up.
  unfoldable pub check_credential : ℕ → Str → Str → ℕ → ℕ → Keyring → Keyring × Call Bool
  check_credential sec token provided now clock k =
      let found = resolve_user_token digest sec provided now clock k in
      let checked : Keyring × Call Bool = elim (compare_digest provided token) [
        | raised e ↦ (k, raised e)
        | returned true ↦ (k, returned true)
        | returned false ↦ elim found.1 [
          | none ↦ (found.0, returned false)
          | some u ↦ (found.0, returned true)
        ]
      ] in
      if provided == [] then (k, returned false) else checked

  unfoldable pub dispatch : ℕ → Settings → Str → Str → ℕ → ℕ → Keyring → Keyring × ApiReply
  dispatch sec config path authorization now clock k =
      let checked = check_credential sec config.auth_token (bearer authorization) now clock k in
      let reply : ApiReply = elim checked.1 [
        | raised e ↦ unhandled
        | returned ok ↦ if ok then passed else unauthorized
      ] in
      if config.auth_token == []
      then (if config.environment == str "local" then (k, passed) else (k, not_configured))
      else if is_open path
      then (k, passed)
      else (checked.0, reply)
