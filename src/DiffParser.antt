-- ===== src/DiffParser.antt =====
-- Symbols of a git diff (backend/app/rag/diff_parser.py). The regular expressions and the ratio of difflib are
-- parameters.
pub mod Classify
pub mod Disjoint
pub mod Resolved
use codegraph_mcp.Base.{
  ==_of_ne, ==_refl, All, All-append, All-get, All-keep, All-put, Bool, Bool-cases, Call,
  Call-cases, Dict, IsBelow, IsDistinct, IsDistinct-append, IsSorted, Key, List, List-cases, Option,
  Option-cases, Str, Str-discrete, [], add, add-IsDistinct, any, ap, arith, contains, decimal, diff,
  digits, ends_with, eq_of_==, false, foldl, fun_ext, get, get-keep, get-map_values, get-pop,
  get-put, get_absent, get_or, has, has-put, if◌then◌else◌, inl, inr, insert_sorted, is_space, keep,
  keep-IsDistinct, keep-append, keys, keys-put, last_piece, leb, leb→le, length, length-append,
  length-keep-le, length-map, length-sorted, length-take-le, lstrip, ltb, ltb→lt, map, map_values,
  max, member, member-add, member-append, member-diff, member-sorted, member-union, min, nat_key,
  neg_part, negsuc, none, not, pair_discrete, pair_key, pop, pos, pos_part, put, put-IsDistinct,
  raised, refl, returned, rstrip, short_name, some, sorted, sorted-IsSorted, starts_with, str,
  str_key, str_leb, str_leb_total, str_leb_trans, strip, strip-strip, sub_ℕ, subst, suc, sym, take,
  true, union, unseen, unseen-le, unseen_drops, zero, ℕ, ℕ_discrete, ℤ, ◌%◌, ◌&&◌, ◌*◌, ◌++◌, ◌+◌,
  ◌-◌, ◌/◌, ◌<◌, ◌==◌, ◌||◌, ◌↔◌, ◌∙◌, ◌∷◌, ◌≡◌, ◌≢◌, ◌≤ℤ◌, ◌≤◌, ◌⊎◌,
}

-- What the regular expressions find in a line: the names that it declares, in the order of the four patterns; the
-- name of the function in a hunk header; and whether it has `fn` with the name. `similar` is the ratio in per mille.
pub record Patterns : Type 0 where
  pub declared : Str → List Str
  pub hunk_fn : Str → Option Str
  pub mentions_fn : Str → Str → Bool
  pub similar : Str → Str → ℕ

-- The state of the loop over the lines; a file that is not known is the empty text.
pub record Scan : Type 0 where
  pub current_file : Str
  pub in_hunk : Bool
  pub hunk_context : Option Str
  pub pending_rename : Str
  pub renamed_files : Dict Str Str
  pub body_modified : List Str
  pub added : List Str
  pub deleted : List Str
  pub added_by_file : Dict Str (List Str)
  pub deleted_by_file : Dict Str (List Str)
  pub decl_lines : Dict (Str × Str) Str
  pub added_lines : Dict Str (List Str)
  pub deleted_lines : Dict Str (List Str)

abbrev pub scan_start : Scan
scan_start = record {
  current_file = [];
  in_hunk = false;
  hunk_context = none;
  pending_rename = [];
  renamed_files = [];
  body_modified = [];
  added = [];
  deleted = [];
  added_by_file = [];
  deleted_by_file = [];
  decl_lines = [];
  added_lines = [];
  deleted_lines = [];
}

-- What follows a prefix, none where the line does not start with it
unfoldable pub after : Str → Str → Option Str
after [] s = some s
after (c ∷ p) [] = none
after (c ∷ p) (d ∷ s) = let rest = after p s in if c == d then rest else none

-- A sign that does not stand twice at the start of the line
unfoldable pub is_signed : ℕ → Str → Bool
is_signed sign [] = false
is_signed sign (c ∷ []) = c == sign
is_signed sign (c ∷ d ∷ s) = c == sign && not (d == sign)

unfoldable pub rest_of : Str → Str
rest_of [] = []
rest_of (c ∷ s) = s

unfoldable pub rename_to : Str → Scan → Scan
rename_to path s = record s {
  renamed_files =
      if s.pending_rename == [] then s.renamed_files else put s.pending_rename path s.renamed_files;
  pending_rename = [];
}

unfoldable pub new_file : Str → Scan → Scan
new_file path s =
    let moved =
      not (s.pending_rename == [])
      && not (path == str "/dev/null")
      && not (s.pending_rename == path)
      && ends_with (str ".rs") s.pending_rename in
    record s {
      renamed_files = if moved then put s.pending_rename path s.renamed_files else s.renamed_files;
      pending_rename = [];
      current_file = path;
      in_hunk = false;
    }

-- The names that a changed line declares
unfoldable pub declare : Str → Str → List Str → Dict (Str × Str) Str → Dict (Str × Str) Str
declare file line [] decls = decls
declare file line (n ∷ ns) decls =
    declare file line ns (if has (file, n) decls then decls else put (file, n) (strip line) decls)

unfoldable pub by_file : Str → List Str → Dict Str (List Str) → Dict Str (List Str)
by_file file [] d = d
by_file file (n ∷ ns) d = put file (union (get_or file [] d) (n ∷ ns)) d

module _ (p : Patterns) where
  unfoldable pub mark_body : Str → Scan → Scan
  mark_body line s = elim s.hunk_context [
    | none ↦ s
    | some f ↦
        if (is_signed 43 line || is_signed 45 line) && not (p.mentions_fn f line)
        then record s { body_modified = add f s.body_modified }
        else s
  ]

  unfoldable pub add_line : Str → Scan → Scan
  unfolding declare by_file
  add_line line s =
      let names = p.declared line in
      record s {
        added_lines =
            put s.current_file (get_or s.current_file [] s.added_lines ++ (line ∷ []))
              s.added_lines;
        added = union s.added names;
        added_by_file = by_file s.current_file names s.added_by_file;
        decl_lines = declare s.current_file line names s.decl_lines;
      }

  unfoldable pub delete_line : Str → Scan → Scan
  unfolding declare by_file
  delete_line line s =
      let names = p.declared line in
      record s {
        deleted_lines =
            put s.current_file (get_or s.current_file [] s.deleted_lines ++ (line ∷ []))
              s.deleted_lines;
        deleted = union s.deleted names;
        deleted_by_file = by_file s.current_file names s.deleted_by_file;
        decl_lines = declare s.current_file line names s.decl_lines;
      }

  -- A line of a hunk
  unfoldable pub hunk_line : Str → Scan → Scan
  unfolding mark_body add_line delete_line
  hunk_line line s =
      let marked = mark_body line s in
      if not s.in_hunk
      then s
      else if not (s.current_file == []) && not (ends_with (str ".rs") s.current_file)
      then s
      else if is_signed 43 line
      then add_line (rest_of line) marked
      else if is_signed 45 line
      then delete_line (rest_of line) marked
      else marked

  -- One line: the headers in the order of the code, then the lines of a hunk
  unfoldable pub step : Str → Scan → Scan
  unfolding hunk_line rename_to new_file
  step line s = elim (after (str "--- a/") line) [
    | some path ↦ record s { pending_rename = path }
    | none ↦ elim (after (str "rename from ") line) [
      | some path ↦ record s { pending_rename = path }
      | none ↦ elim (after (str "rename to ") line) [
        | some path ↦ rename_to path s
        | none ↦ elim (after (str "+++ /dev/null") line) [
          | some rest ↦ record s {
            current_file = s.pending_rename;
            pending_rename = [];
            in_hunk = false;
          }
          | none ↦ elim (after (str "+++ b/") line) [
            | some path ↦ new_file path s
            | none ↦ elim (after (str "@@") line) [
              | some rest ↦ record s { in_hunk = true; hunk_context = p.hunk_fn line }
              | none ↦ hunk_line line s
            ]
          ]
        ]
      ]
    ]
  ]

  unfoldable pub scan_lines : List Str → Scan → Scan
  unfolding step
  scan_lines [] s = s
  scan_lines (l ∷ ls) s = scan_lines ls (step l s)
