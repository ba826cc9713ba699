-- ===== src/Semantic.antt =====
-- backend/app/rag/retrieval/semantic.py: InMemorySemanticIndex. The embedding of a text and the cosine of
-- two embeddings, which are floats, are parameters; `le` compares two scores.
pub mod Documents
use codegraph_mcp.Base.{
  ==_of_ne, ==_refl, All, All-append, All-get, All-keep, All-put, Bool, Bool-cases, Dict, IsBelow,
  IsDistinct, IsDistinct-append, IsSorted, Key, List, List-cases, Option, Option-cases, Str,
  Str-discrete, [], add, add-IsDistinct, any, ap, arith, diff, ends_with, eq_of_==, false, foldl,
  fun_ext, get, get-keep, get-map_values, get-pop, get-put, get_absent, get_or, has, has-put,
  if◌then◌else◌, inl, inr, insert_sorted, keep, keep-IsDistinct, keep-append, keys, keys-put,
  last_piece, leb, leb→le, length, length-append, length-keep-le, length-map, length-sorted,
  length-take-le, ltb, ltb→lt, map, map_values, max, member, member-add, member-append, member-diff,
  member-sorted, member-union, min, nat_key, neg_part, negsuc, none, not, pair_discrete, pair_key,
  pop, pos, pos_part, put, put-IsDistinct, refl, short_name, some, sorted, sorted-IsSorted,
  starts_with, str, str_key, str_leb, str_leb_total, str_leb_trans, sub_ℕ, subst, suc, sym, take,
  true, union, zero, ℕ, ℕ_discrete, ℤ, ◌%◌, ◌&&◌, ◌*◌, ◌++◌, ◌+◌, ◌-◌, ◌/◌, ◌<◌, ◌==◌, ◌||◌, ◌↔◌,
  ◌∙◌, ◌∷◌, ◌≡◌, ◌≢◌, ◌≤ℤ◌, ◌≤◌, ◌⊎◌,
}
use codegraph_mcp.Snapshot.{CodeChunk}

pub record SemanticMatch (Score : Type 0) : Type 0 where
  pub symbol_id : Str
  pub score : Score
  pub content : Str
  pub source : Str

pub record SemanticStats : Type 0 where
  pub semantic_documents : ℕ
  pub resolved_error_documents : ℕ

module _ {Embedding : Type 0} where
  unfoldable pub reset : List (CodeChunk × Embedding) → List (CodeChunk × Embedding)
  reset documents = []

  -- One round of the loop of upsert_chunks
  unfoldable pub upsert_chunk :
      (Str → Embedding) → CodeChunk → List (CodeChunk × Embedding) → List (CodeChunk × Embedding)
  upsert_chunk embed c documents =
      keep (λ item. not (item.0.symbol_id == c.symbol_id)) documents ++ ((c, embed c.content) ∷ [])

  unfoldable pub upsert_chunks :
      (Str → Embedding)
      → List CodeChunk
      → List (CodeChunk × Embedding)
      → List (CodeChunk × Embedding)
  upsert_chunks embed [] documents = documents
  upsert_chunks embed (c ∷ cs) documents = upsert_chunks embed cs (upsert_chunk embed c documents)

  unfoldable pub delete_chunks :
      List Str → List (CodeChunk × Embedding) → List (CodeChunk × Embedding)
  delete_chunks symbol_ids documents =
      keep (λ item. not (member item.0.symbol_id symbol_ids)) documents

  unfoldable pub get_stats : List (CodeChunk × Embedding) → SemanticStats
  get_stats documents = record {
    semantic_documents = length documents;
    resolved_error_documents = 0;
  }

  unfoldable pub has_symbol : Str → List (CodeChunk × Embedding) → Bool
  has_symbol symbol documents = any (λ item. item.0.symbol_id == symbol) documents

  unfoldable pub get_chunk : Str → List (CodeChunk × Embedding) → Option CodeChunk
  get_chunk symbol [] = none
  get_chunk symbol (item ∷ items) =
      if item.0.symbol_id == symbol then some item.0 else get_chunk symbol items

-- The stable sort by falling score.
module _ {Score : Type 0} (le : Score → Score → Bool) where
  unfoldable pub insert_match :
      SemanticMatch Score → List (SemanticMatch Score) → List (SemanticMatch Score)
  insert_match m [] = m ∷ []
  insert_match m (n ∷ ns) =
      let rest = insert_match m ns in if le n.score m.score then m ∷ n ∷ ns else n ∷ rest

  unfoldable pub sorted_matches : List (SemanticMatch Score) → List (SemanticMatch Score)
  sorted_matches [] = []
  sorted_matches (m ∷ ms) = insert_match m (sorted_matches ms)

  unfoldable pub query_chunks :
      {Embedding : Type 0}
      → (Str → Embedding)
      → (Embedding → Embedding → Score)
      → Str
      → ℕ
      → List (CodeChunk × Embedding)
      → List (SemanticMatch Score)
  query_chunks embed cosine query limit documents = take limit (
      sorted_matches (
        map
          (λ item. record {
            symbol_id = item.0.symbol_id;
            score = cosine (embed query) item.1;
            content = item.0.content;
            source = item.0.file_path;
          })
          documents))
