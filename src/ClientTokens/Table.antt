-- ===== src/ClientTokens/Table.antt =====
-- PostgresClientTokenRepository of backend/app/core/client_tokens.py: the table client_tokens as the list
-- of its rows, with the next value of the serial id.
use codegraph_mcp.Base.{
  Bool, Bool-cases, List, Option, Option-cases, Str, [], any, arith, false, if◌then◌else◌, inl, inr,
  map, nat_key, none, not, pair_key, refl, some, str_key, take, true, ℕ, ◌++◌, ◌+◌, ◌==◌, ◌||◌, ◌∷◌,
  ◌≡◌,
}
use codegraph_mcp.Builds.{select_one, update_rows}
use codegraph_mcp.ClientTokens.{KeyRow, KeyView, User, view, sorted_by_id}
use codegraph_mcp.ClientTokens.Keys.{user_if_valid}

pub record KeyTable : Type 0 where
  pub key_rows : List KeyRow
  pub serial : ℕ

abbrev pub has_hash : Str → KeyRow → Bool
has_hash h r = r.token_hash == h

-- UPDATE client_tokens SET active = FALSE WHERE id = ...; whether a row was changed.
unfoldable pub revoke_row : ℕ → KeyTable → KeyTable × Bool
revoke_row i t = (
  record t {
    key_rows = update_rows (λ r. r.key_id == i) (λ r. record r { is_active = false }) t.key_rows;
  },
  any (λ r. r.key_id == i) t.key_rows,
)

-- SELECT ... ORDER BY id
unfoldable pub list_rows : KeyTable → List KeyView
list_rows t = map view (sorted_by_id t.key_rows)

-- The user that a digest gives, of an active row with that very digest.
unfoldable pub table_holder : Str → KeyTable → Option User
table_holder h t = user_if_valid h (select_one (has_hash h) t.key_rows)

module _ (digest : Str → Str) where
  -- The column token_hash is unique: a second row with the digest is refused, though the serial moves on.
  unfoldable pub insert_row : Str → Str → Str → ℕ → KeyTable → KeyTable × Option KeyRow
  insert_row token name email now t =
      let row : KeyRow = record {
        key_id = t.serial;
        user_name = name;
        user_email = email;
        token_hash = digest token;
        token_prefix = take 12 token;
        is_active = true;
        created_at = now;
        last_used_at = none;
      } in
      elim (select_one (has_hash (digest token)) t.key_rows) [
        | some _ ↦ (record t { serial = t.serial + 1 }, none)
        | none ↦ (record { key_rows = t.key_rows ++ (row ∷ []); serial = t.serial + 1 }, some row)
      ]

  -- `up` says whether the store can be reached: an exception rejects the token.
  unfoldable pub resolve_row : Bool → Str → ℕ → KeyTable → KeyTable × Option User
  resolve_row up token now t =
      let h = digest token in
      if token == [] || not up then (t, none) else elim (table_holder h t) [
        | none ↦ (t, none)
        | some u ↦ (
          record t {
            key_rows =
                update_rows (λ r. r.key_id == u.user_id) (λ r. record r { last_used_at = some now })
                  t.key_rows;
          },
          some u,
        )
      ]

select_one-updated :
    (h : Str) (p : KeyRow → Bool) (f : KeyRow → KeyRow)
    → ((r : KeyRow) → (f r).token_hash ≡ r.token_hash)
    → (rows : List KeyRow)
    → select_one (has_hash h) (update_rows p f rows) ≡ (elim (select_one (has_hash h) rows) [
      | none ↦ none
      | some r ↦ some (if p r then f r else r)
    ])
unfolding select_one update_rows
select_one-updated h p f same [] = refl
select_one-updated h p f same (r ∷ rows) = elim (Bool-cases (p r)) [
  | inl e ↦ ground (arith, e, same r, select_one-updated h p f same rows)
  | inr e ↦ ground (arith, e, same r, select_one-updated h p f same rows)
]

-- A digest whose row has the revoked id gives no user from then on; all others give the user they gave.
pub table_holder-revoke_row :
    (h : Str) (i : ℕ) (t : KeyTable)
    → table_holder h (revoke_row i t).0 ≡ (elim (select_one (has_hash h) t.key_rows) [
      | none ↦ none
      | some r ↦ if r.key_id == i then none else table_holder h t
    ])
unfolding table_holder revoke_row
table_holder-revoke_row h i t = elim (Option-cases (select_one (has_hash h) t.key_rows)) [
  | inl e ↦ ground (
    arith,
    e,
    select_one-updated h (λ r. r.key_id == i) (λ r. record r { is_active = false }) (λ r. refl)
        t.key_rows,
  )
  | inr (r, e) ↦ ground (
    arith,
    e,
    select_one-updated h (λ r. r.key_id == i) (λ r. record r { is_active = false }) (λ r. refl)
        t.key_rows,
  )
]
