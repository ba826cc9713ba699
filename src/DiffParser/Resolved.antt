-- ===== src/DiffParser/Resolved.antt =====
-- The symbols of a diff in the index (`resolve_diff_symbols`). The search of the index is a parameter.
use codegraph_mcp.Base.{
  Bool, Dict, List, Str, [], ends_with, false, get_or, if◌then◌else◌, keep, keys, length, map,
  nat_key, not, pair_key, put, starts_with, str, str_key, take, union, ℕ, ◌&&◌, ◌*◌, ◌++◌, ◌+◌, ◌-◌,
  ◌==◌, ◌||◌, ◌∷◌,
}
use codegraph_mcp.DiffParser.Classify.{
  Extraction, ChangeType, new, signature_change, body_only, trait_impl, struct_field, deleted,
  renamed, split_on,
}

-- `"::".join(pieces)`
unfoldable pub join_pieces : List Str → Str
join_pieces [] = []
join_pieces (p ∷ []) = p
join_pieces (p ∷ q ∷ ps) = p ++ (58 ∷ 58 ∷ join_pieces (q ∷ ps))

unfoldable pub file_to_module : Str → Str
unfolding join_pieces
file_to_module f =
    let stem = if ends_with (str ".rs") f then take (length f - 3) f else f in
    join_pieces (keep (λ p. not (p == str "src")) (split_on 47 [] stem))

-- The modules of the files of the diff that are in Rust, and of those renamed
unfoldable pub changed_modules : List Str → List Str
unfolding file_to_module
changed_modules files = union [] (map file_to_module (keep (ends_with (str ".rs")) files))

unfoldable pub in_changed_module : List Str → Str → Bool
in_changed_module [] symbol = false
in_changed_module (m ∷ modules) symbol =
    symbol == m || starts_with (m ++ str "::") symbol || in_changed_module modules symbol

-- Names with their symbols in the index, and the names that it lacks
pub record Resolution : Type 0 where
  pub changed : Dict Str Str
  pub new_names : List Str
  pub gone : Dict Str Str
  pub moved : Dict Str Str
  pub unknown_moved : List Str

-- `search` gives the symbols of a name, of which at most the given number are asked for.
module _ (search : Str → ℕ → List Str) where
  unfoldable pub diff_scoped : List Str → Str → ℕ → List Str
  unfolding in_changed_module
  diff_scoped modules name limit =
      let results = search name (limit * 4) in
      let scoped = keep (in_changed_module modules) results in
      let fallback = not (length modules == 0) && length scoped == 0 in
      take limit (if fallback then take limit results else scoped)

  -- The symbols of each name with the name, and the names without one
  unfoldable pub resolve_names : List Str → ℕ → List Str → Dict Str Str × List Str
  unfolding diff_scoped
  resolve_names modules limit [] = ([], [])
  resolve_names modules limit (n ∷ names) =
      let rest = resolve_names modules limit names in
      let found = diff_scoped modules n limit in
      if length found == 0
      then (rest.0, n ∷ rest.1)
      else (map (λ i. (n, i)) found ++ rest.0, rest.1)

  -- `files` are the files of the diff.
  unfoldable pub resolve_diff_symbols : List Str → Extraction → Resolution
  unfolding changed_modules
  resolve_diff_symbols files e =
      let modules = changed_modules (files ++ keys e.renamed_files) in
      let names = resolve_names modules 5 (union e.added_symbols e.modified_symbols) in
      let gone = resolve_names modules 3 e.deleted_symbols in
      let moved = resolve_names modules 3 (keys e.renamed_symbols) in
      record {
        changed = names.0;
        new_names = names.1;
        gone = gone.0;
        moved = moved.0;
        unknown_moved = moved.1;
      }

-- The count of the kinds, each by a number
unfoldable pub kind_number : ChangeType → ℕ
kind_number new = 0
kind_number signature_change = 1
kind_number body_only = 2
kind_number trait_impl = 3
kind_number struct_field = 4
kind_number deleted = 5
kind_number (renamed n) = 6

unfoldable pub count_change_types : List ChangeType → Dict ℕ ℕ → Dict ℕ ℕ
unfolding kind_number
count_change_types [] counts = counts
count_change_types (t ∷ ts) counts =
    count_change_types ts (put (kind_number t) (get_or (kind_number t) 0 counts + 1) counts)
