-- ===== src/DiffParser/Disjoint.antt =====
-- Added, deleted and renamed symbols keep apart.
use codegraph_mcp.Base.{
  Bool-cases, Dict, List, Str, [], ap, arith, diff, eq_of_==, false, get, has, has-put, inl, inr,
  keep, map, member, member-diff, member-sorted, nat_key, pair_key, put, refl, str_key, sym, true,
  ◌&&◌, ◌==◌, ◌||◌, ◌∙◌, ◌∷◌, ◌≡◌,
}
use codegraph_mcp.DiffParser.{Patterns, scan_start, scan_lines}
use codegraph_mcp.DiffParser.Classify.{
  KindPatterns, renames_by_file, all_renames, to_dict, extract_symbols_from_diff,
}

member-keep-member :
    (a : Str) (xs ys : List Str)
    → member a (keep (λ n. member n ys) xs) ≡ (member a xs && member a ys)
unfolding member
member-keep-member a [] ys = refl
member-keep-member a (x ∷ xs) ys = elim (Bool-cases (a == x)) [
  | inl e ↦ ground (arith, e, ap (λ t. member t ys) (eq_of_== a x e), member-keep-member a xs ys)
  | inr e ↦ ground (arith, e, member-keep-member a xs ys)
]

has-to_dict :
    (a : Str) (renames d : Dict Str Str)
    → has a (to_dict renames d) ≡ (member a (map (λ e. e.0) renames) || has a d)
unfolding to_dict member
has-to_dict a [] d = refl
has-to_dict a ((old, name) ∷ rest) d =
    ground (arith, has-to_dict a rest (put old name d), has-put old a name d)

-- Taking the common ones and some more from two lists leaves nothing common.
diff_apart :
    (a : Str) (xs ys us vs : List Str)
    → member a (diff (diff xs (keep (λ n. member n ys) xs)) us) ≡ true
    → member a (diff (diff ys (keep (λ n. member n ys) xs)) vs) ≡ false
diff_apart a xs ys us vs h =
    let both = keep (λ n. member n ys) xs in
    ground (
      arith,
      h,
      member-diff a (diff xs both) us,
      member-diff a xs both,
      member-diff a (diff ys both) vs,
      member-diff a ys both,
      member-keep-member a xs ys,
    )

nothing_has : (a : Str) → has {V = Str} a [] ≡ false
unfolding has get
nothing_has a = refl

diff_gone : (a : Str) (xs us : List Str) → member a us ≡ true → member a (diff xs us) ≡ false
diff_gone a xs us h = ground (arith, h, member-diff a xs us)

-- No symbol of the diff is both added and deleted, and no old name of a rename counts as
-- deleted.
pub extract_symbols_from_diff-disjoint :
    (p : Patterns) (k : KindPatterns) (lines : List Str) (a : Str)
    → (member a (extract_symbols_from_diff p k lines).added_symbols ≡ true
        → member a (extract_symbols_from_diff p k lines).deleted_symbols ≡ false)
      × (has a (extract_symbols_from_diff p k lines).renamed_symbols ≡ true
          → member a (extract_symbols_from_diff p k lines).deleted_symbols ≡ false)
unfolding extract_symbols_from_diff
extract_symbols_from_diff-disjoint p k lines a =
    let s = scan_lines p lines scan_start in
    let both = keep (λ n. member n s.deleted) s.added in
    let renames = all_renames (renames_by_file p s both s.deleted_by_file) in
    let added = diff (diff s.added both) (map (λ e. e.1) renames) in
    let gone = diff (diff s.deleted both) (map (λ e. e.0) renames) in
    (
      λ h.
          member-sorted a gone
          ∙ diff_apart a s.added s.deleted (map (λ e. e.1) renames) (map (λ e. e.0) renames)
              (sym (member-sorted a added) ∙ h),
      λ h.
          member-sorted a gone
          ∙ diff_gone a (diff s.deleted both) (map (λ e. e.0) renames)
              (ground (arith, h, has-to_dict a renames [], nothing_has a)),
    )
