-- ===== src/Snapshot/Rows.antt =====
-- Rows replaced by pair, and kept once by key.
use codegraph_mcp.Base.{
  ==_refl, All, Bool, Bool-cases, IsDistinct, IsDistinct-append, Key, List, [], add, ap, arith,
  false, if◌then◌else◌, inl, inr, keep, keep-append, map, member, member-add, nat_key, not,
  pair_key, refl, str_key, true, ◌&&◌, ◌++◌, ◌==◌, ◌∙◌, ◌∷◌, ◌≡◌,
}
use mathlib.Core.Path.{ap₂}
use mathlib.Core.List.{append-nil, map-append}
use codegraph_mcp.Snapshot.{unique, replace_rows}

module _ {ℓ κ} {A : Type ℓ} {K : Type κ} ⦃k : Key K⦄ (key : A → K) where
  -- `unique` keeps each new key once.
  member-unique :
      (a : K) (seen : List K) (xs : List A)
      → member a (map key (unique key seen xs)) ≡ (member a (map key xs) && not (member a seen))
  unfolding unique member
  member-unique a seen [] = refl
  member-unique a seen (x ∷ xs) = elim (Bool-cases (member (key x) seen)) [
    | inl e ↦ rw e (ground (arith, member-unique a seen xs))
    | inr e ↦
        rw e (ground (arith, member-unique a (add (key x) seen) xs, member-add a (key x) seen))
  ]

  unique-IsDistinct_from : (seen : List K) (xs : List A) → IsDistinct (map key (unique key seen xs))
  unfolding unique
  unique-IsDistinct_from seen [] = tt
  unique-IsDistinct_from seen (x ∷ xs) = elim (Bool-cases (member (key x) seen)) [
    | inl e ↦ rw e (unique-IsDistinct_from seen xs)
    | inr e ↦ rw e (
      ground (
        arith,
        member-unique (key x) (add (key x) seen) xs,
        member-add (key x) (key x) seen,
        ==_refl (key x),
      ),
      unique-IsDistinct_from (add (key x) seen) xs,
    )
  ]

  pub unique-keys :
      (xs : List A)
      → IsDistinct (map key (unique key [] xs))
        × ((a : K) → member a (map key (unique key [] xs)) ≡ member a (map key xs))
  unfolding member
  unique-keys xs = (unique-IsDistinct_from [] xs, λ a. ground (arith, member-unique a [] xs))

  -- The rows with one pair.
  abbrev pub rows_at : K → List A → List A
  rows_at p = keep (λ x. key x == p)

  rows_at-keep :
      (p : K) (q : K → Bool) (xs : List A)
      → rows_at p (keep (λ x. q (key x)) xs) ≡ (if q p then rows_at p xs else [])
  rows_at-keep p q [] = ground arith
  rows_at-keep p q (x ∷ xs) = ground (arith, rows_at-keep p q xs)

  pub rows_at-replace_rows :
      (p : K) (removed : List K) (modified old fresh : List A)
      → rows_at p (replace_rows key removed modified old fresh)
        ≡ (if not (member p removed) && not (member p (map key modified))
            then rows_at p old
            else [])
          ++ rows_at p fresh
  unfolding replace_rows
  rows_at-replace_rows p removed modified old fresh =
      let q = λ (a : K). not (member a removed) && not (member a (map key modified)) in
      keep-append (λ x. key x == p) (keep (λ x. q (key x)) old) fresh
      ∙ ap (λ l. l ++ rows_at p fresh) (rows_at-keep p q old)

  keep_idem : (q : A → Bool) (xs : List A) → keep q (keep q xs) ≡ keep q xs
  keep_idem q [] = refl
  keep_idem q (x ∷ xs) = ground (arith, keep_idem q xs)

  keep-none : (q : A → Bool) (xs : List A) → All (λ x. q x ≡ false) xs → keep q xs ≡ []
  keep-none q [] h = refl
  keep-none q (x ∷ xs) h = ground (arith, keep-none q xs h.1)

  dropped :
      (removed : List K) (modified fresh : List A)
      → ((a : K) → member a (map key fresh) ≡ true → member a (map key modified) ≡ true)
      → All
          (λ x. (not (member (key x) removed) && not (member (key x) (map key modified))) ≡ false)
          fresh
  unfolding member
  dropped removed modified [] h = tt
  dropped removed modified (x ∷ xs) h = (
    ground (arith, h (key x), ==_refl (key x)),
    dropped removed modified xs (λ a m. h a (ground arith)),
  )

  -- A second replacement by the same rows changes nothing.
  pub replace_rows_idem :
      (removed : List K) (modified old fresh : List A)
      → ((a : K) → member a (map key fresh) ≡ true → member a (map key modified) ≡ true)
      → replace_rows key removed modified (replace_rows key removed modified old fresh) fresh
        ≡ replace_rows key removed modified old fresh
  unfolding replace_rows
  replace_rows_idem removed modified old fresh h =
      let q = λ (x : A). not (member (key x) removed) && not (member (key x) (map key modified)) in
      ap (λ l. l ++ fresh)
        (keep-append q (keep q old) fresh
          ∙ ap₂ (λ l r. l ++ r) (keep_idem q old)
              (keep-none q fresh (dropped removed modified fresh h))
          ∙ append-nil (keep q old))

-- Rows kept once by `key`, and replaced by a `pair` that the key determines.
module _ {ℓ κ} {A : Type ℓ} {K P : Type κ} ⦃k : Key K⦄ ⦃p : Key P⦄ (key : A → K)
    (proj : K → P) where
  abbrev pub pair_of : A → P
  pair_of x = proj (key x)

  -- A pair of a row that is kept is the pair of a row.
  pub pairs-unique :
      (a : P) (seen : List K) (xs : List A)
      → member a (map pair_of (unique key seen xs)) ≡ true
      → member a (map pair_of xs) ≡ true
  unfolding unique member
  pairs-unique a seen [] h = h
  pairs-unique a seen (x ∷ xs) h = elim (Bool-cases (member (key x) seen)) [
    | inl e ↦ ground (arith, e, pairs-unique a seen xs)
    | inr e ↦ ground (arith, e, pairs-unique a (add (key x) seen) xs)
  ]

  no_rows_at : (a : P) (xs : List A) → member a (map pair_of xs) ≡ false → rows_at pair_of a xs ≡ []
  unfolding member
  no_rows_at a [] h = refl
  no_rows_at a (x ∷ xs) h = ground (arith, no_rows_at a xs)

  -- What one pair holds after a replacement by the rows that `unique` keeps.
  pub rows_at-update :
      (a : P) (removed : List P) (modified old : List A)
      → rows_at pair_of a (replace_rows pair_of removed modified old (unique key [] modified)) ≡ (
          if member a (map pair_of modified)
          then rows_at pair_of a (unique key [] modified)
          else if member a removed
          then []
          else rows_at pair_of a old)
  rows_at-update a removed modified old = ground (
    arith,
    rows_at-replace_rows pair_of a removed modified old (unique key [] modified),
    no_rows_at a (unique key [] modified),
    pairs-unique a [] modified,
    append-nil (rows_at pair_of a old),
  )

  key-absent :
      (c : K) (q : P → Bool) (xs : List A)
      → q (proj c) ≡ false
      → member c (map key (keep (λ x. q (pair_of x)) xs)) ≡ false
  unfolding member
  key-absent c q [] h = refl
  key-absent c q (x ∷ xs) h = ground (arith, key-absent c q xs)

  absent-keep :
      (c : K) (q : A → Bool) (xs : List A)
      → member c (map key xs) ≡ false
      → member c (map key (keep q xs)) ≡ false
  unfolding member
  absent-keep c q [] h = refl
  absent-keep c q (x ∷ xs) h = ground (arith, absent-keep c q xs)

  keys-keep-IsDistinct :
      (q : A → Bool) (xs : List A) → IsDistinct (map key xs) → IsDistinct (map key (keep q xs))
  keys-keep-IsDistinct q [] h = tt
  keys-keep-IsDistinct q (x ∷ xs) h =
      ground (arith, keys-keep-IsDistinct q xs h.1, absent-keep (key x) q xs h.0)

  pairs_of_keys :
      (c : K) (xs : List A) → member c (map key xs) ≡ true → member (proj c) (map pair_of xs) ≡ true
  unfolding member
  pairs_of_keys c [] h = h
  pairs_of_keys c (x ∷ xs) h = ground (arith, pairs_of_keys c xs)

  -- No key stands twice after the update, if none did before.
  pub replace_rows-IsDistinct :
      (removed : List P) (modified old : List A)
      → IsDistinct (map key old)
      → IsDistinct (map key (replace_rows pair_of removed modified old (unique key [] modified)))
  unfolding replace_rows
  replace_rows-IsDistinct removed modified old h =
      let fresh = unique key [] modified in
      let q = λ (a : P). not (member a removed) && not (member a (map pair_of modified)) in
      let kept = keep (λ x. q (pair_of x)) old in
      let once = unique-keys key modified in
      rw (map-append key kept fresh) (
        IsDistinct-append (map key kept) (map key fresh)
          (keys-keep-IsDistinct (λ x. q (pair_of x)) old h) once.0
          (λ c m. ground (arith, key-absent c q old, once.1 c, pairs_of_keys c modified)))
