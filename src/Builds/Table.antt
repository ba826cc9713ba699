-- ===== src/Builds/Table.antt =====
-- Updates of the rows that satisfy a condition.
use codegraph_mcp.Base.{
  ==_refl, Bool, Bool-cases, IsDistinct, List, Option, Str, [], arith, eq_of_==, false,
  if◌then◌else◌, inl, inr, keep, length, map, member, nat_key, none, pair_key, refl, some, str_key,
  true, ◌&&◌, ◌∷◌, ◌≡◌, ◌≤◌,
}
use codegraph_mcp.Builds.{Build, has_id, is_active, select_one, update_rows}

module _ {ℓ} {A : Type ℓ} where
  -- An update that keeps a test keeps what the test keeps, updated.
  pub keep-update_rows :
      (p q : A → Bool) (f : A → A)
      → ((x : A) → q (f x) ≡ q x)
      → (xs : List A) → keep q (update_rows p f xs) ≡ update_rows p f (keep q xs)
  unfolding update_rows
  keep-update_rows p q f h [] = refl
  keep-update_rows p q f h (x ∷ xs) = ground (arith, h x, keep-update_rows p q f h xs)

  pub map-update_rows {κ} :
      {B : Type κ} (g : A → B) (p : A → Bool) (f : A → A)
      → ((x : A) → g (f x) ≡ g x)
      → (xs : List A) → map g (update_rows p f xs) ≡ map g xs
  unfolding update_rows
  map-update_rows g p f h [] = refl
  map-update_rows g p f h (x ∷ xs) = ground (arith, h x, map-update_rows g p f h xs)

  pub select_one-some : (p : A → Bool) (xs : List A) (x : A) → select_one p xs ≡ some x → p x ≡ true
  unfolding select_one
  select_one-some p [] x h = ground arith
  select_one-some p (y ∷ ys) x h = ground (arith, select_one-some p ys x)

module _ {Score : Type 0} where
  abbrev pub ids : List (Build Score) → List Str
  ids rows = map (λ b. b.build_id) rows

  abbrev pub actives : List (Build Score) → List (Build Score)
  actives rows = keep is_active rows

  -- No two rows have one id.
  abbrev pub IsTable : List (Build Score) → Type 0
  IsTable rows = IsDistinct (ids rows)

  pub absent_rows :
      (i : Str) (rows : List (Build Score))
      → member i (ids rows) ≡ false
      → keep (has_id i) rows ≡ []
  unfolding member
  absent_rows i [] h = refl
  absent_rows i (b ∷ rows) h =
      ground (arith, absent_rows i rows, eq_of_== i b.build_id, eq_of_== b.build_id i, ==_refl i)

  -- At most one row has an id.
  pub rows_with_id :
      (i : Str) (rows : List (Build Score))
      → IsTable rows
      → length (keep (has_id i) rows) ≡ (if member i (ids rows) then 1 else 0)
  unfolding member
  rows_with_id i [] h = refl
  rows_with_id i (b ∷ rows) h =
      ground
        (arith, rows_with_id i rows h.1, eq_of_== i b.build_id, eq_of_== b.build_id i, ==_refl i)

  pub get_build-select :
      (i : Str) (rows : List (Build Score)) (b : Build Score)
      → IsTable rows
      → select_one (has_id i) rows ≡ some b
      → keep (has_id i) rows ≡ b ∷ []
  unfolding select_one
  get_build-select i [] b t h = ground arith
  get_build-select i (c ∷ rows) b t h = elim (Bool-cases (has_id i c)) [
    | inl e ↦ ground (arith, absent_rows i rows, eq_of_== c.build_id i, t.0)
    | inr e ↦ ground (arith, get_build-select i rows b t.1)
  ]

module _ {ℓ} {A : Type ℓ} where
  abbrev pub update_one : (A → Bool) → (A → A) → Option A → Option A
  update_one p f none = none
  update_one p f (some x) = some (if p x then f x else x)

  -- Reading after an update, when the update keeps the condition of the reading.
  pub select_one-update_rows :
      (p q : A → Bool) (f : A → A)
      → ((x : A) → p (f x) ≡ p x)
      → (xs : List A) → select_one p (update_rows q f xs) ≡ update_one q f (select_one p xs)
  unfolding select_one update_rows
  select_one-update_rows p q f h [] = refl
  select_one-update_rows p q f h (x ∷ xs) = elim (Bool-cases (q x)) [
    | inl e ↦ ground (arith, e, h x, select_one-update_rows p q f h xs)
    | inr e ↦ ground (arith, e, h x, select_one-update_rows p q f h xs)
  ]

  pub select_one-counts :
      (p q : A → Bool) (xs : List A) (x : A)
      → select_one p xs ≡ some x
      → q x ≡ true
      → 1 ≤ length (keep (λ y. q y && p y) xs)
  unfolding select_one
  select_one-counts p q [] x h e = ground arith
  select_one-counts p q (y ∷ ys) x h e = ground (arith, select_one-counts p q ys x)

  pub length-keep-update_rows :
      (q p : A → Bool) (f : A → A)
      → ((x : A) → q (f x) ≡ q x)
      → (xs : List A) → length (keep q (update_rows p f xs)) ≡ length (keep q xs)
  unfolding update_rows
  length-keep-update_rows q p f h [] = refl
  length-keep-update_rows q p f h (x ∷ xs) = ground (arith, h x, length-keep-update_rows q p f h xs)
