-- ===== src/Snapshot/Update.antt =====
-- What an incremental update leaves in the snapshot.
use codegraph_mcp.Base.{
  IsDistinct, List, Str, [], ap, arith, if◌then◌else◌, map, member, nat_key, none, pair_key, refl,
  some, str_key, subst, sym, ℕ, ◌∙◌, ◌≡◌,
}
use codegraph_mcp.Snapshot.{
  CodeChunk, GraphEdge, IndexSnapshot, Repository, chunk_pair, chunk_key, edge_pair, unique,
  replace_rows, stamp, updated, update_incremental,
}
use codegraph_mcp.Snapshot.Rows.{
  rows_at, replace_rows_idem, pairs-unique, unique-keys, rows_at-update, replace_rows-IsDistinct,
}

-- No (symbol, file, line) and no (source, target) stands twice in the snapshot.
pub record IsUnique (s : IndexSnapshot) : Type 0 where
  pub chunk_keys : IsDistinct (map chunk_key s.chunks)
  pub edge_pairs : IsDistinct (map edge_pair s.graph_edges)

-- The arguments of one update.
module _ (chunks : List CodeChunk) (removed : List (Str × Str)) (edges : List GraphEdge)
    (removed_edges : List (Str × Str)) (commit hash : Str) (now : ℕ) where
  abbrev after : IndexSnapshot → IndexSnapshot
  after = updated chunks removed edges removed_edges commit hash now

  chunks-after :
      (s : IndexSnapshot)
      → (after s).chunks
        ≡ replace_rows chunk_pair removed chunks s.chunks (unique chunk_key [] chunks)
  unfolding updated stamp
  chunks-after s = ground arith

  edges-after :
      (s : IndexSnapshot)
      → (after s).graph_edges
        ≡ replace_rows edge_pair removed_edges edges s.graph_edges (unique edge_pair [] edges)
  unfolding updated stamp
  edges-after s = ground arith

  -- After an update, the chunks of a (symbol, file) pair are the given ones that `unique` keeps if any chunk
  -- with that pair is given; otherwise none if the pair is removed, and the old ones if it is not. `unique`
  -- keeps every (symbol, file, line) that is given, and none twice. So for the edges of a (source, target)
  -- pair. Without a snapshot nothing happens.
  pub update_incremental_rows :
      (s : IndexSnapshot) (p : Str × Str)
      → (update_incremental chunks removed edges removed_edges commit hash now none ≡ none)
        × (update_incremental chunks removed edges removed_edges commit hash now (some s)
            ≡ some (after s))
        × (rows_at chunk_pair p (after s).chunks ≡ (
            if member p (map chunk_pair chunks)
            then rows_at chunk_pair p (unique chunk_key [] chunks)
            else if member p removed
            then []
            else rows_at chunk_pair p s.chunks))
        × (rows_at edge_pair p (after s).graph_edges ≡ (
            if member p (map edge_pair edges)
            then rows_at edge_pair p (unique edge_pair [] edges)
            else if member p removed_edges
            then []
            else rows_at edge_pair p s.graph_edges))
        × (IsDistinct (map chunk_key (unique chunk_key [] chunks))
            × ((a : (Str × Str) × ℕ)
                → member a (map chunk_key (unique chunk_key [] chunks))
                  ≡ member a (map chunk_key chunks)))
        × (IsDistinct (map edge_pair (unique edge_pair [] edges))
            × ((a : Str × Str)
                → member a (map edge_pair (unique edge_pair [] edges))
                  ≡ member a (map edge_pair edges)))
  unfolding update_incremental
  update_incremental_rows s p = (
    refl,
    refl,
    ap (rows_at chunk_pair p) (chunks-after s)
        ∙ rows_at-update chunk_key (λ k. k.0) p removed chunks s.chunks,
    ap (rows_at edge_pair p) (edges-after s)
        ∙ rows_at-update edge_pair (λ k. k) p removed_edges edges s.graph_edges,
    unique-keys chunk_key chunks,
    unique-keys edge_pair edges,
  )

  -- An update keeps the snapshot free of duplicates, whatever the arguments repeat.
  pub updated-IsUnique : (s : IndexSnapshot) → IsUnique s → IsUnique (after s)
  updated-IsUnique s u = record {
    chunk_keys =
        subst (λ l. IsDistinct (map chunk_key l)) (sym (chunks-after s))
          (replace_rows-IsDistinct chunk_key (λ k. k.0) removed chunks s.chunks u.chunk_keys);
    edge_pairs =
        subst (λ l. IsDistinct (map edge_pair l)) (sym (edges-after s))
          (replace_rows-IsDistinct edge_pair (λ k. k) removed_edges edges s.graph_edges
            u.edge_pairs);
  }

  chunks-again : (s : IndexSnapshot) → (after (after s)).chunks ≡ (after s).chunks
  chunks-again s =
      chunks-after (after s)
      ∙ ap (λ l. replace_rows chunk_pair removed chunks l (unique chunk_key [] chunks))
          (chunks-after s)
      ∙ replace_rows_idem chunk_pair removed chunks s.chunks (unique chunk_key [] chunks)
          (λ a. pairs-unique chunk_key (λ k. k.0) a [] chunks)
      ∙ sym (chunks-after s)

  edges-again : (s : IndexSnapshot) → (after (after s)).graph_edges ≡ (after s).graph_edges
  edges-again s =
      edges-after (after s)
      ∙ ap (λ l. replace_rows edge_pair removed_edges edges l (unique edge_pair [] edges))
          (edges-after s)
      ∙ replace_rows_idem edge_pair removed_edges edges s.graph_edges (unique edge_pair [] edges)
          (λ a. pairs-unique edge_pair (λ k. k) a [] edges)
      ∙ sym (edges-after s)

  stamps-again :
      (s : IndexSnapshot)
      → ((after (after s)).created_at ≡ (after s).created_at)
        × ((after (after s)).last_indexed_commit ≡ (after s).last_indexed_commit)
        × ((after (after s)).symbol_set_hash ≡ (after s).symbol_set_hash)
        × ((after (after s)).repository_path ≡ (after s).repository_path)
        × ((after (after s)).files_indexed ≡ (after s).files_indexed)
  unfolding updated stamp
  stamps-again s = ground arith

  -- The same update a second time, at the same time, changes nothing.
  pub update_incremental_idem :
      (r : Repository)
      → update_incremental chunks removed edges removed_edges commit hash now
          (update_incremental chunks removed edges removed_edges commit hash now r)
        ≡ update_incremental chunks removed edges removed_edges commit hash now r
  unfolding update_incremental
  update_incremental_idem none = refl
  update_incremental_idem (some s) = ap some (again s)
    where
      again : (s : IndexSnapshot) → after (after s) ≡ after s
      again s = λ i. record {
        repository_path = (stamps-again s).3 i;
        files_indexed = (stamps-again s).4 i;
        created_at = (stamps-again s).0 i;
        last_indexed_commit = (stamps-again s).1 i;
        symbol_set_hash = (stamps-again s).2 i;
        chunks = chunks-again s i;
        graph_edges = edges-again s i;
      }
