-- ===== src/ClientTokens.antt =====
-- backend/app/core/client_tokens.py: InMemoryClientTokenRepository and the module functions over it.
-- SHA-256 is the parameter `digest`; the random token and the times are arguments.
pub mod Keys
pub mod Cache
pub mod Table
use codegraph_mcp.Base.{
  ==_of_ne, ==_refl, All, All-append, All-keep, Bool, Bool-cases, Dict, IsBelow, IsDistinct,
  IsDistinct-append, IsSorted, Key, List, List-cases, Option, Option-cases, Str, Str-discrete, [],
  add, add-IsDistinct, any, ap, arith, diff, eq_of_==, false, foldl, fun_ext, get, get-keep,
  get-map_values, get-pop, get-put, get_absent, get_or, has, has-put, if◌then◌else◌, inl, inr,
  insert_sorted, keep, keep-IsDistinct, keep-append, keys, keys-put, leb, leb→le, length,
  length-append, length-keep-le, length-map, length-sorted, length-take-le, ltb, ltb→lt, map,
  map_values, max, member, member-add, member-append, member-diff, member-sorted, member-union, min,
  nat_key, neg_part, negsuc, none, not, pair_discrete, pair_key, pop, pos, pos_part, put,
  put-IsDistinct, refl, some, sorted, sorted-IsSorted, starts_with, str, str_key, str_leb,
  str_leb_total, str_leb_trans, sub_ℕ, subst, suc, sym, take, true, union, zero, ℕ, ℕ_discrete, ℤ,
  ◌%◌, ◌&&◌, ◌*◌, ◌++◌, ◌+◌, ◌-◌, ◌/◌, ◌<◌, ◌==◌, ◌||◌, ◌↔◌, ◌∙◌, ◌∷◌, ◌≡◌, ◌≢◌, ◌≤ℤ◌, ◌≤◌, ◌⊎◌,
}

pub record KeyRow : Type 0 where
  pub key_id : ℕ
  pub user_name : Str
  pub user_email : Str
  pub token_hash : Str
  pub token_prefix : Str
  pub is_active : Bool
  pub created_at : ℕ
  pub last_used_at : Option ℕ

pub record KeyStore : Type 0 where
  pub rows : Dict ℕ KeyRow
  pub by_hash : Dict Str ℕ
  pub next_id : ℕ

abbrev pub empty_store : KeyStore
empty_store = record { rows = []; by_hash = []; next_id = 1 }

-- The user of a key, as `resolve` returns it.
pub record User : Type 0 where
  pub user_id : ℕ
  pub name : Str
  pub email : Str

-- A row without its token_hash, as `list` returns it.
pub record KeyView : Type 0 where
  pub view_id : ℕ
  pub view_name : Str
  pub view_email : Str
  pub view_prefix : Str
  pub view_active : Bool
  pub view_created_at : ℕ
  pub view_last_used_at : Option ℕ

abbrev pub view : KeyRow → KeyView
view r = record {
  view_id = r.key_id;
  view_name = r.user_name;
  view_email = r.user_email;
  view_prefix = r.token_prefix;
  view_active = r.is_active;
  view_created_at = r.created_at;
  view_last_used_at = r.last_used_at;
}

-- The stable sort of `list` by id.
unfoldable pub insert_by_id : KeyRow → List KeyRow → List KeyRow
insert_by_id r [] = r ∷ []
insert_by_id r (s ∷ ss) =
    let rest = insert_by_id r ss in if leb r.key_id s.key_id then r ∷ s ∷ ss else s ∷ rest

unfoldable pub sorted_by_id : List KeyRow → List KeyRow
sorted_by_id [] = []
sorted_by_id (r ∷ rs) = insert_by_id r (sorted_by_id rs)

unfoldable pub list : KeyStore → List KeyView
list s = map view (sorted_by_id (map (λ e. e.1) s.rows))

unfoldable pub revoke : ℕ → KeyStore → KeyStore × Bool
revoke i s = elim (get i s.rows) [
  | none ↦ (s, false)
  | some r ↦ (record s { rows = put i (record r { is_active = false }) s.rows }, true)
]

-- `self._rows.get(key_id) if key_id else None`: id 0 counts as no id.
abbrev pub row_of : Str → KeyStore → Option KeyRow
row_of hash s = elim (get hash s.by_hash) [
  | none ↦ none
  | some i ↦ if i == 0 then none else get i s.rows
]

abbrev pub user : KeyRow → User
user r = record { user_id = r.key_id; name = r.user_name; email = r.user_email }

-- The row found in the dict is the object that is stamped: under its own key.
unfoldable pub stamp_used : Str → ℕ → KeyRow → KeyStore → KeyStore
stamp_used hash now r s = elim (get hash s.by_hash) [
  | none ↦ s
  | some i ↦ record s { rows = put i (record r { last_used_at = some now }) s.rows }
]

-- The store and the negative cache, a dict from a digest to its expiry.
pub record Keyring : Type 0 where
  pub store : KeyStore
  pub refused : Dict Str ℕ

-- 4096 entries, more than which are swept.
abbrev pub cache_limit : ℕ
cache_limit = 4096

-- An entry lasts 60 seconds, of `sec` ticks each.
abbrev pub remember : ℕ → Str → ℕ → Dict Str ℕ → Dict Str ℕ
remember sec probe now cache =
    let added = put probe (now + 60 * sec) cache in
    if ltb cache_limit (length added) then keep (λ e. ltb now e.1) added else added

-- `expiry and now < expiry`
abbrev pub is_refused : Str → ℕ → Dict Str ℕ → Bool
is_refused probe now cache = elim (get probe cache) [
  | none ↦ false
  | some expiry ↦ not (expiry == 0) && ltb now expiry
]

abbrev pub is_plausible : Str → Bool
is_plausible token = not (ltb (length token) 8) && not (ltb 256 (length token))

-- What is left of resolve_user_token when the store has answered.
unfoldable pub answered : ℕ → Str → ℕ → Keyring → KeyStore × Option User → Keyring × Option User
answered sec probe now k (s, some u) = (record k { store = s }, some u)
answered sec probe now k (s, none) =
    (record { store = s; refused = remember sec probe now k.refused }, none)

module _ (digest : Str → Str) where
  -- `token` is the generated key, 'cgu_' and 32 random bytes as text.
  unfoldable pub create : Str → Str → Str → ℕ → KeyStore → KeyStore × KeyRow
  create token name email now s =
      let row : KeyRow = record {
        key_id = s.next_id;
        user_name = name;
        user_email = email;
        token_hash = digest token;
        token_prefix = take 12 token;
        is_active = true;
        created_at = now;
        last_used_at = none;
      } in
      (
        record {
          rows = put s.next_id row s.rows;
          by_hash = put (digest token) s.next_id s.by_hash;
          next_id = s.next_id + 1;
        },
        row,
      )

  unfoldable pub resolve : Str → ℕ → KeyStore → KeyStore × Option User
  resolve [] now s = (s, none)
  resolve (c ∷ cs) now s =
      let hash = digest (c ∷ cs) in
      elim (row_of hash s) [
        | none ↦ (s, none)
        | some r ↦
            if not r.is_active || not (r.token_hash == hash)
            then (s, none)
            else (stamp_used hash now r s, some (user r))
      ]

  -- `now` is the monotonic clock of the cache, of `sec` ticks to a second, `clock` the wall clock of the store.
  unfoldable pub resolve_user_token : ℕ → Str → ℕ → ℕ → Keyring → Keyring × Option User
  resolve_user_token sec token now clock k =
      if not (is_plausible token)
      then (k, none)
      else if is_refused (digest token) now k.refused
      then (k, none)
      else answered sec (digest token) now k (resolve token clock k.store)
