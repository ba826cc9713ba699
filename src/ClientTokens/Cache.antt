-- ===== src/ClientTokens/Cache.antt =====
-- The negative cache of resolve_user_token.
use codegraph_mcp.Base.{
  All, All-keep, Bool-cases, Dict, Option, Str, [], arith, eq_of_==, get, if◌then◌else◌, inl, inr,
  length, ltb, nat_key, none, pair_key, put, refl, some, str_key, subst, sym, true, ℕ, ◌*◌, ◌+◌,
  ◌==◌, ◌∙◌, ◌∷◌, ◌≡◌,
}
use codegraph_mcp.ClientTokens.{
  KeyStore, User, resolve, Keyring, resolve_user_token, remember, answered, is_refused,
  is_plausible, cache_limit,
}
use codegraph_mcp.ClientTokens.Keys.{holder, resolve-holder, holder-resolve}

-- Every cached digest has no holder.
abbrev pub IsKeyring : Keyring → Type 0
IsKeyring k = All (λ e. holder e.0 k.store ≡ none) k.refused

All-put :
    (P : Str → Type 0) (h : Str) (n : ℕ) (d : Dict Str ℕ)
    → P h
    → All (λ e. P e.0) d
    → All (λ e. P e.0) (put h n d)
unfolding put
All-put P h n [] p a = (p, tt)
All-put P h n ((g, m) ∷ d) p a = elim (Bool-cases (h == g)) [
  | inl e ↦ rw e a
  | inr e ↦ rw e (a.0, All-put P h n d p a.1)
]

refused-none :
    (h : Str) (now : ℕ) (k : Keyring)
    → IsKeyring k
    → is_refused h now k.refused ≡ true
    → holder h k.store ≡ none
unfolding get
refused-none h now k all e = go k.refused all e
  where
    go :
        (d : Dict Str ℕ)
        → All (λ e. holder e.0 k.store ≡ none) d
        → is_refused h now d ≡ true
        → holder h k.store ≡ none
    go [] a e = ground arith
    go ((g, m) ∷ d) a e = elim (Bool-cases (h == g)) [
      | inl f ↦ subst (λ x. holder x k.store ≡ none) (sym (eq_of_== h g f)) a.0
      | inr f ↦ go d a.1 (ground (arith, e, f))
    ]

remember-refused :
    (sec : ℕ) (P : Str → Type 0) (h : Str) (now : ℕ) (d : Dict Str ℕ)
    → P h
    → All (λ e. P e.0) d
    → All (λ e. P e.0) (remember sec h now d)
remember-refused sec P h now d p a =
    elim (Bool-cases (ltb cache_limit (length (put h (now + 60 * sec) d)))) [
      | inl e ↦ rw e (
          All-keep (λ e. P e.0) (λ e. ltb now e.1) (put h (now + 60 * sec) d)
            (All-put P h (now + 60 * sec) d p a))
      | inr e ↦ rw e (All-put P h (now + 60 * sec) d p a)
    ]

moved :
    (s t : KeyStore) (d : Dict Str ℕ)
    → ((h : Str) → holder h t ≡ holder h s)
    → All (λ e. holder e.0 s ≡ none) d
    → All (λ e. holder e.0 t ≡ none) d
moved s t [] same a = tt
moved s t (e ∷ d) same a = (same e.0 ∙ a.0, moved s t d same a.1)

answered-IsKeyring :
    (sec : ℕ) (probe : Str) (now : ℕ) (k : Keyring) (found : KeyStore × Option User)
    → IsKeyring k
    → ((h : Str) → holder h found.0 ≡ holder h k.store)
    → found.1 ≡ holder probe k.store
    → IsKeyring (answered sec probe now k found).0
      × ((h : Str) → holder h (answered sec probe now k found).0.store ≡ holder h k.store)
unfolding answered
answered-IsKeyring sec probe now k (s, some u) w same e = (moved k.store s k.refused same w, same)
answered-IsKeyring sec probe now k (s, none) w same e = (
  remember-refused sec (λ h. holder h s ≡ none) probe now k.refused (same probe ∙ sym e)
      (moved k.store s k.refused same w),
  same,
)

module _ (digest : Str → Str) where
  -- With a cache that holds only unheld digests, resolve_user_token answers as the store does, for a
  -- token of 8 to 256 characters, and None for all others: the cache hides no key.
  pub resolve_user_token-holder :
      (sec : ℕ) (token : Str) (now clock : ℕ) (k : Keyring)
      → IsKeyring k
      → (resolve_user_token digest sec token now clock k).1
        ≡ (if is_plausible token then holder (digest token) k.store else none)
  unfolding resolve_user_token answered
  resolve_user_token-holder sec [] now clock k w = ground arith
  resolve_user_token-holder sec (c ∷ cs) now clock k w = elim (Bool-cases (is_plausible (c ∷ cs))) [
    | inr e ↦ ground (arith, e)
    | inl e ↦ elim (Bool-cases (is_refused (digest (c ∷ cs)) now k.refused)) [
      | inl f ↦ ground (arith, e, f, refused-none (digest (c ∷ cs)) now k w f)
      | inr f ↦ ground (arith, e, f, resolve-holder digest c cs clock k.store)
    ]
  ]

  -- resolve_user_token keeps the cache one of unheld digests, and changes no holder.
  pub resolve_user_token-IsKeyring :
      (sec : ℕ) (token : Str) (now clock : ℕ) (k : Keyring)
      → IsKeyring k
      → IsKeyring (resolve_user_token digest sec token now clock k).0
        × ((h : Str)
            → holder h (resolve_user_token digest sec token now clock k).0.store ≡ holder h k.store)
  unfolding resolve_user_token
  resolve_user_token-IsKeyring sec [] now clock k w = (w, λ h. refl)
  resolve_user_token-IsKeyring sec (c ∷ cs) now clock k w =
      elim (Bool-cases (is_plausible (c ∷ cs))) [
        | inr e ↦ rw e (w, λ h. refl)
        | inl e ↦ rw e (elim (Bool-cases (is_refused (digest (c ∷ cs)) now k.refused)) [
          | inl f ↦ rw f (w, λ h. refl)
          | inr f ↦ rw f (
              answered-IsKeyring sec (digest (c ∷ cs)) now k (resolve digest (c ∷ cs) clock k.store)
                w (λ h. holder-resolve digest h (c ∷ cs) clock k.store)
                (resolve-holder digest c cs clock k.store))
        ])
      ]
