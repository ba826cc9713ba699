-- ===== src/Base/Sort.antt =====
-- `sorted` on a list of str.
use Prim.Native.Nat.{suc}
use mathlib.Core.Path.{◌≡◌, refl}
use mathlib.Core.Bool.{true, false, ◌||◌}
use mathlib.Core.Logic.{inl, inr}
use mathlib.Core.List.{List, [], ◌∷◌}
use native.Mathlib.Omega.{arith}
use codegraph_mcp.Base.Tests.{◌==◌, if◌then◌else◌, Bool-cases}
use codegraph_mcp.Base.Lists.{length}
use codegraph_mcp.Base.Sets.{member}
use codegraph_mcp.Base.Text.{Str, str_key, str_leb}

unfoldable pub insert_sorted : Str → List Str → List Str
insert_sorted x [] = x ∷ []
insert_sorted x (y ∷ ys) = if str_leb x y then x ∷ y ∷ ys else y ∷ insert_sorted x ys

unfoldable pub sorted : List Str → List Str
unfolding insert_sorted str_leb
sorted [] = []
sorted (x ∷ xs) = insert_sorted x (sorted xs)

member-insert_sorted :
    (a x : Str) (ys : List Str) → member a (insert_sorted x ys) ≡ (a == x || member a ys)
unfolding insert_sorted member
member-insert_sorted a x [] = refl
member-insert_sorted a x (y ∷ ys) = ground (arith, member-insert_sorted a x ys)

pub member-sorted : (a : Str) (xs : List Str) → member a (sorted xs) ≡ member a xs
unfolding member sorted
member-sorted a [] = refl
member-sorted a (x ∷ xs) = ground (arith, member-insert_sorted a x (sorted xs), member-sorted a xs)

length-insert_sorted : (x : Str) (ys : List Str) → length (insert_sorted x ys) ≡ suc (length ys)
unfolding insert_sorted
length-insert_sorted x [] = refl
length-insert_sorted x (y ∷ ys) = ground (arith, length-insert_sorted x ys)

pub length-sorted : (xs : List Str) → length (sorted xs) ≡ length xs
unfolding sorted
length-sorted [] = refl
length-sorted (x ∷ xs) = ground (arith, length-insert_sorted x (sorted xs), length-sorted xs)

-- The order of str is total and transitive.
pub str_leb_total : (a b : Str) → str_leb a b ≡ false → str_leb b a ≡ true
unfolding str_leb
str_leb_total [] b h = ground arith
str_leb_total (x ∷ a) [] h = refl
str_leb_total (x ∷ a) (y ∷ b) h = ground (arith, str_leb_total a b)

pub str_leb_trans : (a b c : Str) → str_leb a b ≡ true → str_leb b c ≡ true → str_leb a c ≡ true
unfolding str_leb
str_leb_trans [] b c h k = refl
str_leb_trans (x ∷ a) [] c h k = absurd (ground arith)
str_leb_trans (x ∷ a) (y ∷ b) [] h k = k
str_leb_trans (x ∷ a) (y ∷ b) (z ∷ c) h k = ground (arith, str_leb_trans a b c)

-- Every member comes before all members that follow it.
abbrev pub IsBelow : Str → List Str → Type 0
IsBelow x [] = Unit
IsBelow x (y ∷ ys) = (str_leb x y ≡ true) × IsBelow x ys

abbrev pub IsSorted : List Str → Type 0
IsSorted [] = Unit
IsSorted (x ∷ xs) = IsBelow x xs × IsSorted xs

IsBelow-trans : (x y : Str) (zs : List Str) → str_leb x y ≡ true → IsBelow y zs → IsBelow x zs
IsBelow-trans x y [] h b = tt
IsBelow-trans x y (z ∷ zs) h b = (str_leb_trans x y z h b.0, IsBelow-trans x y zs h b.1)

IsBelow-insert_sorted :
    (x y : Str) (zs : List Str) → str_leb x y ≡ true → IsBelow x zs → IsBelow x (insert_sorted y zs)
unfolding insert_sorted
IsBelow-insert_sorted x y [] h b = (h, tt)
IsBelow-insert_sorted x y (z ∷ zs) h b = elim (Bool-cases (str_leb y z)) [
  | inl e ↦ rw e (h, b)
  | inr e ↦ rw e (b.0, IsBelow-insert_sorted x y zs h b.1)
]

insert_sorted-IsSorted : (x : Str) (ys : List Str) → IsSorted ys → IsSorted (insert_sorted x ys)
unfolding insert_sorted
insert_sorted-IsSorted x [] s = (tt, tt)
insert_sorted-IsSorted x (y ∷ ys) s = elim (Bool-cases (str_leb x y)) [
  | inl e ↦ rw e ((e, IsBelow-trans x y ys e s.0), s)
  | inr e ↦
      rw e (IsBelow-insert_sorted y x ys (str_leb_total x y e) s.0, insert_sorted-IsSorted x ys s.1)
]

pub sorted-IsSorted : (xs : List Str) → IsSorted (sorted xs)
unfolding sorted
sorted-IsSorted [] = tt
sorted-IsSorted (x ∷ xs) = insert_sorted-IsSorted x (sorted xs) (sorted-IsSorted xs)
