-- ===== src/Resolve.antt =====
-- backend/app/rag/indexing_service.py: the index of short names and the resolution of a name to symbols.
pub mod Names
use codegraph_mcp.Base.{
  ==_of_ne, ==_refl, All, All-append, All-get, All-keep, All-put, Bool, Bool-cases, Dict, IsBelow,
  IsDistinct, IsDistinct-append, IsSorted, Key, List, List-cases, Option, Option-cases, Str,
  Str-discrete, [], add, add-IsDistinct, any, ap, arith, diff, ends_with, eq_of_==, false, foldl,
  fun_ext, get, get-keep, get-map_values, get-pop, get-put, get_absent, get_or, has, has-put,
  if◌then◌else◌, inl, inr, insert_sorted, keep, keep-IsDistinct, keep-append, keys, keys-put,
  last_piece, leb, leb→le, length, length-append, length-keep-le, length-map, length-sorted,
  length-take-le, ltb, ltb→lt, map, map_values, max, member, member-add, member-append, member-diff,
  member-sorted, member-union, min, nat_key, neg_part, negsuc, none, not, pair_discrete, pair_key,
  pop, pos, pos_part, put, put-IsDistinct, refl, short_name, some, sorted, sorted-IsSorted,
  starts_with, str, str_key, str_leb, str_leb_total, str_leb_trans, sub_ℕ, subst, suc, sym, take,
  true, union, zero, ℕ, ℕ_discrete, ℤ, ◌%◌, ◌&&◌, ◌*◌, ◌++◌, ◌+◌, ◌-◌, ◌/◌, ◌<◌, ◌==◌, ◌||◌, ◌↔◌,
  ◌∙◌, ◌∷◌, ◌≡◌, ◌≢◌, ◌≤ℤ◌, ◌≤◌, ◌⊎◌,
}
use codegraph_mcp.Snapshot.{CodeChunk}

-- A symbol of a short name: its id, its file and its kind.
pub record Entry : Type 0 where
  pub id : Str
  pub file : Str
  pub kind : Str

abbrev pub NameIndex : Type 0
NameIndex = Dict Str (List Entry)

abbrev pub resolve_skip_names : List Str
resolve_skip_names =
    str "file_summary"
    ∷ str "module_exports"
    ∷ str "fn"
    ∷ str "let"
    ∷ str "match"
    ∷ str "if"
    ∷ str "Relation"
    ∷ []

abbrev pub hub_limit : ℕ
hub_limit = 3

abbrev pub callable_kinds : List Str
callable_kinds = str "fn" ∷ str "method" ∷ str "impl" ∷ []

abbrev pub type_kinds : List Str
type_kinds =
    str "struct"
    ∷ str "enum"
    ∷ str "trait"
    ∷ str "type"
    ∷ str "impl"
    ∷ str "fn"
    ∷ str "method"
    ∷ str "const"
    ∷ str "static"
    ∷ []

-- `_symbol_name`
abbrev pub symbol_name : Str → Str
symbol_name s = short_name s

abbrev pub entry_of : CodeChunk → Entry
entry_of c = record { id = c.symbol_id; file = c.file_path; kind = c.kind }

-- The loop of `_build_name_index`; `setdefault(name, []).append(entry)` is one put.
unfoldable pub add_chunks : NameIndex → List CodeChunk → NameIndex
add_chunks idx [] = idx
add_chunks idx (c ∷ cs) =
    let name = symbol_name c.symbol_id in
    add_chunks (put name (get_or name [] idx ++ (entry_of c ∷ [])) idx) cs

unfoldable pub build_name_index : List CodeChunk → NameIndex
build_name_index chunks = add_chunks [] chunks

abbrev slash : ℕ
slash = 47

-- What stands before the last "/", or nothing.
unfoldable pub parent_dir : Str → Str
parent_dir [] = []
parent_dir (c ∷ cs) = if member slash cs then c ∷ parent_dir cs else []

-- `kinds is None` admits all.
abbrev pub admits : Option (List Str) → Entry → Bool
admits none e = true
admits (some kinds) e = member e.kind kinds

-- `if ids: return ids`, else what follows
abbrev pub or_next : List Str → List Str → List Str
or_next [] next = next
or_next (i ∷ is) next = i ∷ is

abbrev pub ids_of : List Entry → List Str
ids_of es = map (λ e. e.id) es

unfoldable pub resolve_scoped : Str → Str → NameIndex → Option (List Str) → List Str
resolve_scoped candidate file index kinds =
    let entries = keep (admits kinds) (get_or candidate [] index) in
    let same_file = ids_of (keep (λ e. e.file == file) entries) in
    let same_dir = ids_of (keep (λ e. parent_dir e.file == parent_dir file) entries) in
    let few = if leb (length entries) hub_limit then ids_of entries else [] in
    or_next same_file (or_next same_dir few)

-- `import_map` is a dict, empty for None.
unfoldable pub resolve_candidates :
    Str → Str → NameIndex → Option (List Str) → Dict Str Str → List Str
resolve_candidates candidate file index kinds import_map =
    if member candidate resolve_skip_names then [] else elim (get candidate import_map) [
      | none ↦ resolve_scoped candidate file index kinds
      | some target ↦
          or_next
            (ids_of (
              keep (λ e. ends_with target e.id)
                (keep (admits kinds) (get_or (short_name target) [] index))))
            (resolve_scoped (short_name target) file index kinds)
    ]
