-- ===== src/DiffParser/Classify.antt =====
-- The kinds of change and the renames of a diff (`_classify_change` and the end of `extract_symbols_from_diff`).
use codegraph_mcp.Base.{
  Bool, Dict, List, Option, Str, [], add, contains, diff, false, get_or, if◌then◌else◌, keep,
  length, ltb, map, max, member, nat_key, none, not, pair_key, put, some, sorted, str_key, str_leb,
  true, union, ℕ, ◌&&◌, ◌++◌, ◌==◌, ◌||◌, ◌∷◌,
}
use codegraph_mcp.DiffParser.{Patterns, Scan, scan_start, scan_lines}

pub data ChangeType : Type 0 where
  new signature_change body_only trait_impl struct_field deleted : ChangeType
  renamed : Str → ChangeType

pub data SymbolType : Type 0 where
  function struct enum trait impl unknown : SymbolType

-- What the other regular expressions find in a line: the text of a signature of a function, the name of a field, and
-- whether there is an implementation of a trait, a struct, an enum or a trait
pub record KindPatterns : Type 0 where
  pub signature : Str → Option Str
  pub field : Str → Option Str
  pub is_trait_impl : Str → Bool
  pub is_struct : Str → Bool
  pub is_enum : Str → Bool
  pub is_trait : Str → Bool

unfoldable pub any_line : (Str → Bool) → List Str → Bool
any_line t [] = false
any_line t (l ∷ ls) = t l || any_line t ls

-- What a pattern finds in the lines that pass a test
unfoldable pub found_in : (Str → Option Str) → (Str → Bool) → List Str → List Str
found_in f t [] = []
found_in f t (l ∷ ls) =
    let rest = found_in f t ls in
    let more : List Str = elim (f l) [ none ↦ rest | some x ↦ x ∷ rest ] in
    if t l then more else rest

unfoldable pub same_lists : List Str → List Str → Bool
same_lists [] [] = true
same_lists [] (y ∷ b) = false
same_lists (x ∷ a) [] = false
same_lists (x ∷ a) (y ∷ b) = x == y && same_lists a b

-- `struct` is symbol_type == "struct"; the texts of the details are left out.
unfoldable pub classify_change :
    Patterns → KindPatterns → Str → Bool → List Str → List Str → ChangeType
unfolding any_line found_in same_lists
classify_change p k name is_struct_type added_lines deleted_lines =
    let named : Str → Bool = λ l. contains name l in
    let declares : Str → Bool = λ l. not (length (p.declared l) == 0) && contains name l in
    let added_sigs = found_in k.signature named added_lines in
    let deleted_sigs = found_in k.signature named deleted_lines in
    let added_decl = any_line declares added_lines in
    let deleted_decl = any_line declares deleted_lines in
    let unnamed : Str → Bool = λ l. not (contains name l) in
    let fields = found_in k.field unnamed added_lines ++ found_in k.field unnamed deleted_lines in
    let signed = not (length added_sigs == 0) && not (length deleted_sigs == 0) in
    if any_line k.is_trait_impl added_lines || any_line k.is_trait_impl deleted_lines
    then trait_impl
    else if added_decl && not deleted_decl
    then new
    else if deleted_decl && not added_decl
    then deleted
    else if signed && not (same_lists added_sigs deleted_sigs)
    then signature_change
    else if is_struct_type && not (length fields == 0)
    then struct_field
    else body_only

-- The type of a symbol, from the first line that has its name in a declaration of a struct, an enum or a trait
unfoldable pub symbol_type_of : KindPatterns → Str → List Str → SymbolType
symbol_type_of k name [] = function
symbol_type_of k name (l ∷ ls) =
    let rest = symbol_type_of k name ls in
    if k.is_struct l && contains name l
    then struct
    else if k.is_enum l && contains name l
    then enum
    else if k.is_trait l && contains name l
    then trait
    else rest

-- `s.split(sep)` of one character; `piece` is the piece so far.
unfoldable pub split_on : ℕ → List ℕ → Str → List Str
split_on sep piece [] = piece ∷ []
split_on sep piece (c ∷ s) =
    let cut = split_on sep [] s in
    let grown = split_on sep (piece ++ (c ∷ [])) s in if c == sep then piece ∷ cut else grown

unfoldable pub name_tie : Str → Str → Bool
unfolding split_on same_lists
name_tie d a = same_lists (sorted (split_on 95 [] d)) (sorted (split_on 95 [] a))

-- A candidate: its ratio, the old name and the new one
abbrev pub Pair : Type 0
Pair = ℕ × (Str × Str)

unfoldable pub ratio_of : Patterns → Dict (Str × Str) Str → Str → Str → Str → ℕ
unfolding name_tie
ratio_of p decls file d a =
    let ratio = p.similar (get_or (file, d) d decls) (get_or (file, a) a decls) in
    if name_tie d a then max ratio 750 else ratio

-- Whether a pair stands before another in `sorted(pairs, reverse=True)`
unfoldable pub pair_before : Pair → Pair → Bool
pair_before x y =
    if x.0 == y.0
    then (if x.1.0 == y.1.0 then str_leb y.1.1 x.1.1 else str_leb y.1.0 x.1.0)
    else ltb y.0 x.0

unfoldable pub insert_pair : Pair → List Pair → List Pair
unfolding pair_before
insert_pair x [] = x ∷ []
insert_pair x (y ∷ ys) =
    let rest = insert_pair x ys in if pair_before x y then x ∷ y ∷ ys else y ∷ rest

unfoldable pub pairs_with :
    Patterns → Dict (Str × Str) Str → Str → Str → List Str → List Pair → List Pair
unfolding ratio_of insert_pair
pairs_with p decls file d [] pairs = pairs
pairs_with p decls file d (a ∷ names) pairs =
    let rest = pairs_with p decls file d names pairs in
    let ratio = ratio_of p decls file d a in
    if ltb 550 ratio then insert_pair (ratio, (d, a)) rest else rest

unfoldable pub pairs_of : Patterns → Dict (Str × Str) Str → Str → List Str → List Str → List Pair
unfolding pairs_with
pairs_of p decls file [] names = []
pairs_of p decls file (d ∷ ds) names =
    pairs_with p decls file d names (pairs_of p decls file ds names)

-- The greedy choice: the renames, each name once
unfoldable pub choose : List Pair → List Str → List Str → Dict Str Str
choose [] used_d used_a = []
choose ((r, (d, a)) ∷ pairs) used_d used_a =
    let skipped = choose pairs used_d used_a in
    let taken = choose pairs (add d used_d) (add a used_a) in
    if member d used_d || member a used_a then skipped else (d, a) ∷ taken

-- The renames of every file
unfoldable pub renames_by_file :
    Patterns → Scan → List Str → Dict Str (List Str) → Dict Str (Dict Str Str)
unfolding pairs_of choose
renames_by_file p s modified [] = []
renames_by_file p s modified ((file, names) ∷ files) =
    let olds = diff names modified in
    let news = diff (get_or file [] s.added_by_file) modified in
    let rest = renames_by_file p s modified files in
    let found = choose (pairs_of p s.decl_lines file olds news) [] [] in
    if length olds == 0 || length news == 0 || length found == 0 then rest else (file, found) ∷ rest

unfoldable pub all_renames : Dict Str (Dict Str Str) → Dict Str Str
all_renames [] = []
all_renames ((file, d) ∷ files) = d ++ all_renames files

pub record Extraction : Type 0 where
  pub added_symbols : List Str
  pub modified_symbols : List Str
  pub deleted_symbols : List Str
  pub renamed_symbols : Dict Str Str
  pub renamed_files : Dict Str Str
  pub change_details : Dict Str ChangeType

unfoldable pub all_lines : Dict Str (List Str) → List Str
all_lines [] = []
all_lines ((file, ls) ∷ d) = ls ++ all_lines d

unfoldable pub is_struct_symbol : SymbolType → Bool
is_struct_symbol struct = true
is_struct_symbol t = false

unfoldable pub details_of :
    Patterns
    → KindPatterns
    → List Str
    → List Str
    → List Str
    → Dict Str ChangeType
    → Dict Str ChangeType
unfolding classify_change symbol_type_of is_struct_symbol
details_of p k added_lines deleted_lines [] details = details
details_of p k added_lines deleted_lines (n ∷ names) details =
    let t = symbol_type_of k n (added_lines ++ deleted_lines) in
    details_of p k added_lines deleted_lines names
      (put n (classify_change p k n (is_struct_symbol t) added_lines deleted_lines) details)

unfoldable pub set_deleted : List Str → Dict Str ChangeType → Dict Str ChangeType
set_deleted [] details = details
set_deleted (n ∷ names) details = set_deleted names (put n deleted details)

unfoldable pub set_renamed : Dict Str Str → Dict Str ChangeType → Dict Str ChangeType
set_renamed [] details = details
set_renamed ((old, name) ∷ rest) details = set_renamed rest (put old (renamed name) details)

unfoldable pub to_dict : Dict Str Str → Dict Str Str → Dict Str Str
to_dict [] d = d
to_dict ((old, name) ∷ rest) d = to_dict rest (put old name d)

-- From the lines of the diff; the list of its files is left out.
unfoldable pub extract_symbols_from_diff : Patterns → KindPatterns → List Str → Extraction
unfolding renames_by_file all_renames all_lines details_of set_deleted set_renamed to_dict
extract_symbols_from_diff p k lines =
    let s = scan_lines p lines scan_start in
    let both = keep (λ n. member n s.deleted) s.added in
    let renames = all_renames (renames_by_file p s both s.deleted_by_file) in
    let added = diff (diff s.added both) (map (λ e. e.1) renames) in
    let gone = diff (diff s.deleted both) (map (λ e. e.0) renames) in
    let modified = union both s.body_modified in
    let new_lines = all_lines s.added_lines in
    let old_lines = all_lines s.deleted_lines in
    record {
      added_symbols = sorted added;
      modified_symbols = sorted modified;
      deleted_symbols = sorted gone;
      renamed_symbols = to_dict renames [];
      renamed_files = s.renamed_files;
      change_details =
          set_renamed renames
            (set_deleted gone (details_of p k new_lines old_lines (union added modified) []));
    }
