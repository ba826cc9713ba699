-- ===== src/Snapshot.antt =====
-- backend/app/core/repositories/in_memory_index_metadata_repository.py, and the parts of the chunks
-- and edges of backend/app/schemas/codebase.py that it reads.
pub mod Rows
pub mod Update
use codegraph_mcp.Base.{
  ==_of_ne, ==_refl, All, All-append, All-keep, Bool, Bool-cases, Dict, IsBelow, IsDistinct,
  IsDistinct-append, IsSorted, Key, List, List-cases, Option, Option-cases, Str, Str-discrete, [],
  add, add-IsDistinct, any, ap, arith, diff, eq_of_==, false, foldl, fun_ext, get, get-keep,
  get-map_values, get-pop, get-put, get_absent, get_or, has, has-put, if◌then◌else◌, inl, inr,
  insert_sorted, keep, keep-IsDistinct, keep-append, keys, keys-put, leb, leb→le, length,
  length-append, length-keep-le, length-map, length-sorted, length-take-le, ltb, ltb→lt, map,
  map_values, max, member, member-add, member-append, member-diff, member-sorted, member-union, min,
  nat_key, neg_part, negsuc, none, not, pair_discrete, pair_key, pop, pos, pos_part, put,
  put-IsDistinct, refl, some, sorted, sorted-IsSorted, starts_with, str, str_key, str_leb,
  str_leb_total, str_leb_trans, sub_ℕ, subst, suc, sym, true, union, zero, ℕ, ℕ_discrete, ℤ, ◌%◌,
  ◌&&◌, ◌*◌, ◌++◌, ◌+◌, ◌-◌, ◌/◌, ◌<◌, ◌==◌, ◌||◌, ◌↔◌, ◌∙◌, ◌∷◌, ◌≡◌, ◌≢◌, ◌≤ℤ◌, ◌≤◌, ◌⊎◌,
}

pub record CodeChunk : Type 0 where
  pub symbol_id : Str
  pub file_path : Str
  pub kind : Str
  pub content : Str
  pub start_line : ℕ
  pub end_line : ℕ

pub record GraphEdge : Type 0 where
  pub source_symbol_id : Str
  pub target_symbol_id : Str
  pub relation : Str
  pub usage_modes : List Str

-- A time is a number.
pub record IndexSnapshot : Type 0 where
  pub repository_path : Str
  pub files_indexed : ℕ
  pub created_at : Option ℕ
  pub last_indexed_commit : Str
  pub symbol_set_hash : Str
  pub chunks : List CodeChunk
  pub graph_edges : List GraphEdge

-- The repository holds a snapshot or None.
abbrev pub Repository : Type 0
Repository = Option IndexSnapshot

unfoldable pub reset : Repository → Repository
reset r = none

unfoldable pub replace_snapshot : IndexSnapshot → Repository → Repository
replace_snapshot s r = some s

unfoldable pub load_snapshot : Repository → Option IndexSnapshot
load_snapshot r = r

abbrev pub chunk_pair : CodeChunk → Str × Str
chunk_pair c = (c.symbol_id, c.file_path)

abbrev pub chunk_key : CodeChunk → (Str × Str) × ℕ
chunk_key c = ((c.symbol_id, c.file_path), c.start_line)

abbrev pub edge_pair : GraphEdge → Str × Str
edge_pair e = (e.source_symbol_id, e.target_symbol_id)

-- The loops that keep the first item of each key.
unfoldable pub unique {ℓ κ} :
    {A : Type ℓ} {K : Type κ} ⦃k : Key K⦄ → (A → K) → List K → List A → List A
unique key seen [] = []
unique key seen (x ∷ xs) =
    let next = if member (key x) seen then seen else add (key x) seen in
    let rest = unique key next xs in if member (key x) seen then rest else x ∷ rest

-- The old rows that are neither removed nor replaced, and the new rows behind them.
unfoldable pub replace_rows {ℓ κ} :
    {A : Type ℓ} {K : Type κ} ⦃k : Key K⦄ → (A → K) → List K → List A → List A → List A → List A
replace_rows pair removed modified old fresh =
    keep (λ x. not (member (pair x) removed) && not (member (pair x) (map pair modified))) old
    ++ fresh

-- `a or b` on str
abbrev pub or_else : Str → Str → Str
or_else [] b = b
or_else (c ∷ cs) b = c ∷ cs

-- `if last_indexed_commit or symbol_set_hash`
unfoldable pub stamp : Str → Str → ℕ → IndexSnapshot → IndexSnapshot
stamp commit hash now s = elim (commit ++ hash) [
  | [] ↦ s
  | _ ∷ _ ↦ record s {
    last_indexed_commit = or_else commit s.last_indexed_commit;
    symbol_set_hash = or_else hash s.symbol_set_hash;
    created_at = some now;
  }
]

unfoldable pub updated :
    List CodeChunk
    → List (Str × Str)
    → List GraphEdge
    → List (Str × Str)
    → Str
    → Str
    → ℕ
    → IndexSnapshot
    → IndexSnapshot
unfolding stamp unique replace_rows
updated chunks removed edges removed_edges commit hash now s = stamp commit hash now (record s {
  chunks = replace_rows chunk_pair removed chunks s.chunks (unique chunk_key [] chunks);
  graph_edges =
      replace_rows edge_pair removed_edges edges s.graph_edges (unique edge_pair [] edges);
})

unfoldable pub update_incremental :
    List CodeChunk
    → List (Str × Str)
    → List GraphEdge
    → List (Str × Str)
    → Str
    → Str
    → ℕ
    → Repository
    → Repository
unfolding updated
update_incremental chunks removed edges removed_edges commit hash now r = elim r [
  | none ↦ none
  | some s ↦ some (updated chunks removed edges removed_edges commit hash now s)
]
