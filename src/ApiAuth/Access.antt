-- ===== src/ApiAuth/Access.antt =====
-- Who passes.
use codegraph_mcp.Base.{
  Bool, Call, Option, Str, [], false, if◌then◌else◌, is_ascii, nat_key, none, not, pair_key, raised,
  returned, some, starts_with, str, str_key, true, ◌&&◌, ◌==◌, ◌||◌,
}
use codegraph_mcp.ClientTokens.{User, Keyring, is_plausible}
use codegraph_mcp.ClientTokens.Keys.{holder}
use codegraph_mcp.ApiAuth.{ApiReply, passed, unauthorized, unhandled}

abbrev pub is_some : Option User → Bool
is_some none = false
is_some (some u) = true

-- The only paths that need a credential: those under /api/ that are not under /api/admin/
abbrev pub is_guarded : Str → Bool
is_guarded path = starts_with (str "/api/") path && not (starts_with (str "/api/admin/") path)

module _ (digest : Str → Str) where
  -- What a credential gets: nothing opens the API but the token and the active keys of users, and comparing
  -- a credential with the token raises unless both are ASCII.
  abbrev pub verdict : Str → Str → Keyring → ApiReply
  verdict token provided k =
      if provided == []
      then unauthorized
      else if not (is_ascii provided && is_ascii token)
      then unhandled
      else if provided == token
          || (is_plausible provided && is_some (holder (digest provided) k.store))
      then passed
      else unauthorized

  abbrev reply_of : Call Bool → ApiReply
  reply_of c = elim c [ raised e ↦ unhandled | returned ok ↦ if ok then passed else unauthorized ]
