-- ===== src/ClientTokens/Keys.antt =====
-- The user that holds a digest, and what each operation does to it.
use codegraph_mcp.Base.{
  Bool, Option, Option-cases, Str, [], arith, eq_of_==, false, get, get-put, if◌then◌else◌, inl,
  inr, nat_key, none, not, pair_key, refl, some, str_key, ℕ, ◌<◌, ◌==◌, ◌||◌, ◌∷◌, ◌≡◌,
}
use codegraph_mcp.ClientTokens.{
  KeyRow, KeyStore, User, empty_store, create, revoke, resolve, row_of, user, stamp_used,
}

-- Ids start at 1, and the index holds only ids that are given out.
pub record IsStore (s : KeyStore) : Type 0 where
  pub positive : 0 < s.next_id
  pub below : (h : Str) (i : ℕ) → get h s.by_hash ≡ some i → i < s.next_id

-- The abstract view: the user whose active key has the digest.
abbrev pub user_if_valid : Str → Option KeyRow → Option User
user_if_valid h none = none
user_if_valid h (some r) =
    if not r.is_active || not (r.token_hash == h) then none else some (user r)

abbrev pub holder : Str → KeyStore → Option User
holder h s = user_if_valid h (row_of h s)

pub empty_store-IsStore : IsStore empty_store
unfolding get
empty_store-IsStore = record { positive = omega arith; below = λ h i e. ground arith }

abbrev pub is_id : ℕ → Option ℕ → Bool
is_id i none = false
is_id i (some j) = i == j

-- A key that is revoked has no holder from then on, and all other keys keep theirs.
pub holder-revoke :
    (h : Str) (i : ℕ) (s : KeyStore)
    → holder h (revoke i s).0 ≡ (if is_id i (get h s.by_hash) then none else holder h s)
unfolding revoke
holder-revoke h i s = elim (Option-cases (get h s.by_hash)) [
  | inl g ↦ elim (Option-cases (get i s.rows)) [
    | inl e ↦ ground (arith, e, g)
    | inr (r, e) ↦ ground (arith, e, g)
  ]
  | inr (j, g) ↦ elim (Option-cases (get i s.rows)) [
    | inl e ↦ ground (arith, e, g, eq_of_== i j)
    | inr (r, e) ↦ ground (
      arith,
      e,
      g,
      get-put i j (record r { is_active = false }) s.rows,
      eq_of_== i j,
      eq_of_== j i,
    )
  ]
]

-- Stamping the row of a digest changes no holder.
pub holder-stamp_used :
    (h g : Str) (now : ℕ) (r : KeyRow) (s : KeyStore)
    → row_of g s ≡ some r
    → holder h (stamp_used g now r s) ≡ holder h s
unfolding stamp_used
holder-stamp_used h g now r s e = elim (Option-cases (get g s.by_hash)) [
  | inl f ↦ ground (arith, f, e)
  | inr (i, f) ↦ elim (Option-cases (get h s.by_hash)) [
    | inl q ↦ ground (arith, e, f, q)
    | inr (j, q) ↦ ground (
      arith,
      e,
      f,
      q,
      eq_of_== i j,
      eq_of_== j i,
      get-put i j (record r { last_used_at = some now }) s.rows,
    )
  ]
]

module _ (digest : Str → Str) where
  abbrev row : Str → Str → Str → ℕ → KeyStore → KeyRow
  row token name email now s = (create digest token name email now s).1

  pub create-IsStore :
      (token name email : Str) (now : ℕ) (s : KeyStore)
      → IsStore s
      → IsStore (create digest token name email now s).0
  unfolding create
  create-IsStore token name email now s w = record {
    positive = omega arith;
    below = λ h i e. ground (arith, get-put (digest token) h s.next_id s.by_hash, w.below h i, e);
  }

  -- `resolve` returns the holder of the token's digest.
  pub resolve-holder :
      (c : ℕ) (cs : Str) (now : ℕ) (s : KeyStore)
      → (resolve digest (c ∷ cs) now s).1 ≡ holder (digest (c ∷ cs)) s
  unfolding resolve
  resolve-holder c cs now s = ground arith

  -- In a store whose ids are all below the next one, a new key has its user as holder; no other key's
  -- holder changes.
  pub holder-create :
      (h token name email : Str) (now : ℕ) (s : KeyStore)
      → IsStore s
      → holder h (create digest token name email now s).0 ≡ (
          if h == digest token
          then some (record { user_id = s.next_id; name = name; email = email })
          else holder h s)
  unfolding create
  holder-create h token name email now s w = elim (Option-cases (get h s.by_hash)) [
    | inl g ↦ ground (
      arith,
      g,
      get-put (digest token) h s.next_id s.by_hash,
      w.positive,
      get-put s.next_id s.next_id (row token name email now s) s.rows,
    )
    | inr (j, g) ↦ ground (
      arith,
      g,
      get-put (digest token) h s.next_id s.by_hash,
      w.positive,
      w.below h j g,
      get-put s.next_id s.next_id (row token name email now s) s.rows,
      get-put s.next_id j (row token name email now s) s.rows,
    )
  ]

  -- Resolving a key changes no holder.
  pub holder-resolve :
      (h token : Str) (now : ℕ) (s : KeyStore)
      → holder h (resolve digest token now s).0 ≡ holder h s
  unfolding resolve
  holder-resolve h [] now s = refl
  holder-resolve h (c ∷ cs) now s = elim (Option-cases (row_of (digest (c ∷ cs)) s)) [
    | inl e ↦ ground (arith, e)
    | inr (r, e) ↦ ground (arith, e, holder-stamp_used h (digest (c ∷ cs)) now r s e)
  ]
