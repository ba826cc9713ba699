-- ===== src/Tests/SnapshotTests.antt =====
-- An update that moves one symbol, drops another and repeats a chunk.
use codegraph_mcp.Base.{
  IsDistinct, List, Str, Str-discrete, [], add, if◌then◌else◌, map, member, nat_key, none,
  pair_discrete, pair_key, refl, some, str, str_key, ℕ, ◌∷◌, ◌≡◌,
}
use codegraph_mcp.Snapshot.{
  CodeChunk, GraphEdge, IndexSnapshot, chunk_pair, edge_pair, chunk_key, unique, updated,
  update_incremental,
}
use codegraph_mcp.Snapshot.Rows.{rows_at}
use codegraph_mcp.Snapshot.Update.{IsUnique, update_incremental_rows, updated-IsUnique}

abbrev chunk : Str → ℕ → CodeChunk
chunk s n = record {
  symbol_id = s;
  file_path = str "a.py";
  kind = str "function";
  content = [];
  start_line = n;
  end_line = n;
}

abbrev edge : Str → Str → GraphEdge
edge s t = record {
  source_symbol_id = s;
  target_symbol_id = t;
  relation = str "CALLS";
  usage_modes = [];
}

abbrev old : IndexSnapshot
old = record {
  repository_path = str "/r";
  files_indexed = 1;
  created_at = none;
  last_indexed_commit = [];
  symbol_set_hash = [];
  chunks = chunk (str "f") 1 ∷ chunk (str "g") 5 ∷ chunk (str "h") 9 ∷ [];
  graph_edges = edge (str "f") (str "g") ∷ [];
}

abbrev given : List CodeChunk
given = chunk (str "f") 2 ∷ chunk (str "f") 2 ∷ []

abbrev gone : List (Str × Str)
gone = (str "g", str "a.py") ∷ []

abbrev path : Str × Str
path = (str "f", str "g")

abbrev new : IndexSnapshot
new = updated given gone [] (path ∷ []) (str "c1") [] 7 old

update_run :
    (new.chunks ≡ chunk (str "h") 9 ∷ chunk (str "f") 2 ∷ [])
    × (new.graph_edges ≡ [])
    × (new.created_at ≡ some 7)
unfolding updated member pair_discrete Str-discrete add
update_run = (refl, refl, refl)

old-IsUnique : IsUnique old
unfolding member pair_discrete Str-discrete
old-IsUnique = record { chunk_keys = (refl, (refl, (refl, tt))); edge_pairs = (refl, tt) }

update_incremental_rows_example :
    (update_incremental given gone [] (path ∷ []) (str "c1") [] 7 none ≡ none)
    × (update_incremental given gone [] (path ∷ []) (str "c1") [] 7 (some old) ≡ some new)
    × (rows_at chunk_pair path new.chunks ≡ (
        if member path (map chunk_pair given)
        then rows_at chunk_pair path (unique chunk_key [] given)
        else if member path gone
        then []
        else rows_at chunk_pair path old.chunks))
    × (rows_at edge_pair path new.graph_edges ≡ (
        if member path (map edge_pair [])
        then rows_at edge_pair path (unique edge_pair [] [])
        else if member path (path ∷ [])
        then []
        else rows_at edge_pair path old.graph_edges))
    × (IsDistinct (map chunk_key (unique chunk_key [] given))
        × ((a : (Str × Str) × ℕ)
            → member a (map chunk_key (unique chunk_key [] given))
              ≡ member a (map chunk_key given)))
    × (IsDistinct (map edge_pair (unique edge_pair [] []))
        × ((a : Str × Str)
            → member a (map edge_pair (unique edge_pair [] [])) ≡ member a (map edge_pair [])))
update_incremental_rows_example =
    update_incremental_rows given gone [] (path ∷ []) (str "c1") [] 7 old path

updated-IsUnique_example : IsUnique new
updated-IsUnique_example =
    updated-IsUnique given gone [] (path ∷ []) (str "c1") [] 7 old old-IsUnique
