-- ===== src/GraphTools/Content/Pages.antt =====
-- The pages of a symbol.
use codegraph_mcp.Base.{
  List, Str, [], ap, arith, nat_key, pair_key, refl, str_key, suc, sym, take, zero, ℕ, ◌++◌, ◌+◌,
  ◌-◌, ◌<◌, ◌∙◌, ◌∷◌, ◌≡◌, ◌≤◌,
}
use codegraph_mcp.GraphTools.Content.{skip, slice, page_lines}

suc_add : (a b : ℕ) → suc a + b ≡ suc (a + b)
suc_add a b = omega arith

skip_nothing : (a : ℕ) → skip a [] ≡ []
unfolding skip
skip_nothing zero = refl
skip_nothing (suc a) = refl

skip-skip : (a b : ℕ) (ls : List Str) → skip b (skip a ls) ≡ skip (a + b) ls
unfolding skip
skip-skip zero b ls = ground arith
skip-skip (suc a) b [] = skip_nothing b ∙ sym (skip_nothing (suc a + b))
skip-skip (suc a) b (l ∷ ls) = rw (suc_add a b) (skip-skip a b ls)

take_nothing : (a : ℕ) → ◌≡◌ {A = List Str} (take a []) []
take_nothing zero = refl
take_nothing (suc a) = refl

take-append : (a b : ℕ) (ls : List Str) → take a ls ++ take b (skip a ls) ≡ take (a + b) ls
unfolding skip
take-append zero b ls = ground arith
take-append (suc a) b [] = take_nothing b ∙ sym (take_nothing (suc a + b))
take-append (suc a) b (l ∷ ls) = rw (suc_add a b) (ap (λ r. l ∷ r) (take-append a b ls))

-- Pages tile: the page from `lo` to `mid` and the page from the line after `mid` to `hi` are together the page from
-- `lo` to `hi`, for lines from the start of the symbol on.
pub page_lines-append :
    (start lo mid hi : ℕ) (ls : List Str)
    → start ≤ lo
    → lo ≤ mid
    → mid < hi
    → page_lines start ls lo mid ++ page_lines start ls (mid + 1) hi ≡ page_lines start ls lo hi
unfolding page_lines slice
page_lines-append start lo mid hi ls a b c =
    let n = mid - start + 1 - (lo - start) in
    let k = hi - start + 1 - (mid + 1 - start) in
    let at : (mid + 1 - start) ≡ (lo - start) + n = omega (arith, a, b) in
    let all : (hi - start + 1 - (lo - start)) ≡ n + k = omega (arith, a, b, c) in
    rw (all, sym (take-append n k (skip (lo - start) ls)), skip-skip (lo - start) n ls, sym at) refl
