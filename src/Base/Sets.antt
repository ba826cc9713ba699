-- ===== src/Base/Sets.antt =====
-- A Python set, as a list without repetitions; `member` is `in`.
use Prim.Native.Nat.{ℕ, ◌+◌, ◌≤◌, ◌<◌}
use mathlib.Core.Path.{◌≡◌, refl}
use mathlib.Core.Bool.{Bool, true, false, not, ◌&&◌, ◌||◌}
use mathlib.Core.List.{List, [], ◌∷◌, ◌++◌}
use mathlib.Core.Logic.{inl, inr}
use native.Mathlib.Omega.{arith}
use codegraph_mcp.Base.Tests.{Key, ◌==◌, if◌then◌else◌, ==_refl, Bool-cases}
use codegraph_mcp.Base.Lists.{keep, length}

module _ {ℓ} {K : Type ℓ} ⦃k : Key K⦄ where
  unfoldable pub member : K → List K → Bool
  member a [] = false
  member a (x ∷ xs) = a == x || member a xs

  -- `s.add(a)`
  unfoldable pub add : K → List K → List K
  unfolding member
  add a s = if member a s then s else s ++ a ∷ []

  -- `s.update(xs)`
  unfoldable pub union : List K → List K → List K
  unfolding add
  union s [] = s
  union s (x ∷ xs) = union (add x s) xs

  -- `s -= gone`
  unfoldable pub diff : List K → List K → List K
  unfolding member
  diff s gone = keep (λ x. not (member x gone)) s

  pub member-append : (a : K) (xs ys : List K) → member a (xs ++ ys) ≡ (member a xs || member a ys)
  unfolding member
  member-append a [] ys = refl
  member-append a (x ∷ xs) ys = ground (arith, member-append a xs ys)

  pub member-add : (a x : K) (s : List K) → member a (add x s) ≡ (a == x || member a s)
  unfolding add
  member-add a x s = ground (arith, member-append a s (x ∷ []))

  pub member-union : (a : K) (s xs : List K) → member a (union s xs) ≡ (member a s || member a xs)
  unfolding union member
  member-union a s [] = ground arith
  member-union a s (x ∷ xs) = ground (arith, member-union a (add x s) xs, member-add a x s)

  pub member-diff :
      (a : K) (s gone : List K) → member a (diff s gone) ≡ (member a s && not (member a gone))
  unfolding diff
  member-diff a [] gone = refl
  member-diff a (x ∷ s) gone = ground (arith, member-diff a s gone)

  -- No element stands twice.
  abbrev pub IsDistinct : List K → Type 0
  IsDistinct [] = Unit
  IsDistinct (x ∷ xs) = (member x xs ≡ false) × IsDistinct xs

  pub IsDistinct-append :
      (xs ys : List K)
      → IsDistinct xs
      → IsDistinct ys
      → ((a : K) → member a xs ≡ true → member a ys ≡ false)
      → IsDistinct (xs ++ ys)
  unfolding member
  IsDistinct-append [] ys dx dy apart = dy
  IsDistinct-append (x ∷ xs) ys dx dy apart = (
    ground (arith, member-append x xs ys, apart x, ==_refl x),
    IsDistinct-append xs ys dx.1 dy (λ a m. apart a (ground arith)),
  )

  pub add-IsDistinct : (a : K) (s : List K) → IsDistinct s → IsDistinct (add a s)
  unfolding add member
  add-IsDistinct a s h = elim (Bool-cases (member a s)) [
    | inl e ↦ rw e h
    | inr e ↦ rw e (IsDistinct-append s (a ∷ []) h (refl, tt) (λ b m. ground arith))
  ]

module _ {ℓ} {K : Type ℓ} ⦃k : Key K⦄ where
  -- How many entries of a universe are not in the set
  unfoldable pub unseen : List K → List K → ℕ
  unseen [] s = 0
  unseen (x ∷ xs) s = (if member x s then 0 else 1) + unseen xs s

  pub unseen-le : (xs s : List K) → unseen xs s ≤ length xs
  unfolding unseen
  unseen-le [] s = omega arith
  unseen-le (x ∷ xs) s = ground (arith, unseen-le xs s)

  unseen_mono : (v : K) (xs s : List K) → unseen xs (add v s) ≤ unseen xs s
  unfolding unseen
  unseen_mono v [] s = omega arith
  unseen_mono v (x ∷ xs) s = ground (arith, member-add x v s, unseen_mono v xs s)

  pub unseen_drops :
      (v : K) (xs s : List K)
      → member v xs ≡ true
      → member v s ≡ false
      → unseen xs (add v s) < unseen xs s
  unfolding unseen member
  unseen_drops v [] s h k = absurd (ground arith)
  unseen_drops v (x ∷ xs) s h k =
      ground (arith, member-add x v s, unseen_drops v xs s, unseen_mono v xs s)
