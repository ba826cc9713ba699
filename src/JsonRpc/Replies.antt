-- ===== src/JsonRpc/Replies.antt =====
-- The reply to a request carries its id, unless an exception is not handled.
use codegraph_mcp.Base.{
  Bool, Call, Dict, Str, false, get, if◌then◌else◌, nat_key, none, pair_key, raised, returned, some,
  str, str_key, true, ℤ, ◌&&◌, ◌==◌, ◌||◌, ◌≡◌, ◌⊎◌,
}
use codegraph_mcp.JsonRpc.{
  Arguments, absent, falsy_other, truthy_other, given, Field, text, scalar, unhashable, fields,
  no_object, Params, Prompt, Payload, Reply, unhandled, result, error, rendered,
}

abbrev pub is_raised {ℓ} : {A : Type ℓ} → Call A → Bool
is_raised (raised e) = true
is_raised (returned a) = false

abbrev pub is_unhashable : Field → Bool
is_unhashable unhashable = true
is_unhashable scalar = false
is_unhashable (text t) = false

module _ {ℓ} {J : Type ℓ} where
  -- A result with the id in the form that is asked for, or an error with the id
  abbrev pub RepliesTo : Bool → J → Reply J → Type ℓ
  RepliesTo sse id x =
      ((p : Payload J) × (x ≡ result sse id p)) ⊎ ((code : ℤ) × (x ≡ error id code))

  -- The arguments are absent or an object.
  abbrev pub has_object : Arguments J → Bool
  has_object absent = true
  has_object falsy_other = false
  has_object truthy_other = false
  has_object (given j) = true

  -- The name is that of a prompt whose rendering with the arguments raises.
  abbrev pub is_unrenderable : Dict Str (Prompt J) → Field → Arguments J → Bool
  is_unrenderable prompts unhashable a = false
  is_unrenderable prompts scalar a = false
  is_unrenderable prompts (text name) a = elim (get name prompts) [
    | none ↦ false
    | some p ↦ is_raised (rendered p a)
  ]

  -- The requests that end in an exception
  abbrev pub raises : Dict Str (Prompt J) → Str → Params J → Bool
  raises prompts method p =
      if method == str "initialize"
      then elim p [ no_object ↦ true | fields f ↦ is_unhashable f.protocol_version ]
      else if method == str "tools/list"
      then false
      else if method == str "tools/call"
      then elim p [ no_object ↦ true | fields f ↦ has_object f.arguments && is_unhashable f.name ]
      else if method == str "prompts/list"
      then false
      else if method == str "prompts/get"
      then elim p [
        | no_object ↦ true
        | fields f ↦ is_unhashable f.name || is_unrenderable prompts f.name f.arguments
      ]
      else false

  -- An exception exactly where one is due, and else a reply
  Agrees : Bool → J → Bool → Reply J → Type ℓ
  Agrees sse id b x = (b ≡ true → x ≡ unhandled) × (b ≡ false → RepliesTo sse id x)
