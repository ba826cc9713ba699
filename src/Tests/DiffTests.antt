-- ===== src/Tests/DiffTests.antt =====
-- A diff that renames one function of a file and adds another.
use codegraph_mcp.Base.{
  List, Str, Str-discrete, [], add, contains, diff, ends_with, false, get, get_or, has,
  insert_sorted, is_space, lstrip, member, nat_key, none, pair_discrete, pair_key, put, refl,
  rstrip, some, sorted, starts_with, str, str_key, str_leb, strip, true, union, ℕ_discrete, ◌∷◌,
  ◌≡◌,
}
use codegraph_mcp.DiffParser.{
  Patterns, after, is_signed, rest_of, rename_to, new_file, declare, by_file, mark_body, add_line,
  delete_line, hunk_line, step, scan_lines,
}
use codegraph_mcp.DiffParser.Classify.{
  KindPatterns, extract_symbols_from_diff, same_lists, split_on, name_tie, ratio_of, pair_before,
  insert_pair, pairs_with, pairs_of, choose, renames_by_file, all_renames, to_dict,
}
use codegraph_mcp.DiffParser.Resolved.{
  file_to_module, join_pieces, changed_modules, in_changed_module, diff_scoped, resolve_names,
  resolve_diff_symbols,
}
use codegraph_mcp.DiffParser.Disjoint.{extract_symbols_from_diff-disjoint}

-- Functions alone, declared by `fn` and their name
abbrev patterns : Patterns
patterns = record {
  declared = λ l. elim (after (str "fn ") l) [ none ↦ [] | some name ↦ name ∷ [] ];
  hunk_fn = λ l. none;
  mentions_fn = λ f l. contains f l;
  similar = λ a b. 0;
}

abbrev kinds : KindPatterns
kinds = record {
  signature = λ l. none;
  field = λ l. none;
  is_trait_impl = λ l. false;
  is_struct = λ l. false;
  is_enum = λ l. false;
  is_trait = λ l. false;
}

abbrev diff_lines : List Str
diff_lines =
    str "--- a/x.rs"
    ∷ str "+++ b/x.rs"
    ∷ str "@@ -1 +1 @@"
    ∷ str "-fn a_b"
    ∷ str "+fn b_a"
    ∷ str "+fn c"
    ∷ []

diff_run :
    ((extract_symbols_from_diff patterns kinds diff_lines).added_symbols ≡ str "c" ∷ [])
    × ((extract_symbols_from_diff patterns kinds diff_lines).deleted_symbols ≡ [])
    × ((extract_symbols_from_diff patterns kinds diff_lines).renamed_symbols
        ≡ (str "a_b", str "b_a") ∷ [])
unfolding extract_symbols_from_diff scan_lines step hunk_line mark_body add_line delete_line declare
    by_file rename_to new_file after is_signed rest_of renames_by_file pairs_of pairs_with ratio_of
    name_tie split_on same_lists insert_pair pair_before choose all_renames to_dict Str-discrete
    ℕ_discrete pair_discrete member add union diff get get_or has put sorted insert_sorted str_leb
    ends_with strip lstrip rstrip is_space
diff_run = (refl, refl, refl)

extract_symbols_from_diff-disjoint_example :
    (member (str "c") (extract_symbols_from_diff patterns kinds diff_lines).added_symbols ≡ true
      → member (str "c") (extract_symbols_from_diff patterns kinds diff_lines).deleted_symbols
        ≡ false)
    × (has (str "c") (extract_symbols_from_diff patterns kinds diff_lines).renamed_symbols ≡ true
        → member (str "c") (extract_symbols_from_diff patterns kinds diff_lines).deleted_symbols
          ≡ false)
extract_symbols_from_diff-disjoint_example =
    extract_symbols_from_diff-disjoint patterns kinds diff_lines (str "c")

module_run : file_to_module (str "crates/au/src/x.rs") ≡ str "crates::au::x"
unfolding file_to_module join_pieces split_on ends_with Str-discrete ℕ_discrete
module_run = refl

-- Of two symbols of the new name the one in the module of the file counts.
resolve_run :
    (resolve_diff_symbols
      (λ q n. str "y::c" ∷ str "x::c" ∷ [])
      (str "x.rs" ∷ [])
      (extract_symbols_from_diff patterns kinds diff_lines)).changed
    ≡ (str "c", str "x::c") ∷ []
unfolding resolve_diff_symbols resolve_names diff_scoped in_changed_module changed_modules
    file_to_module join_pieces starts_with diff_run
resolve_run = refl
