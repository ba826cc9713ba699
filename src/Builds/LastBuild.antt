-- ===== src/Builds/LastBuild.antt =====
-- get_build_history of backend/app/rag/reinforcement/build_registry.py, and rollback_last_build of
-- backend/app/rag/indexing_service.py, which rolls back the registry, the semantic index and the graph.
use codegraph_mcp.Base.{
  List, Option, Str, [], if◌then◌else◌, leb, nat_key, none, pair_key, some, str_key, take, ℕ, ◌∷◌,
}
use codegraph_mcp.Builds.{Build, rollback_build, get_active_build}
use codegraph_mcp.Proxy.{GraphIndexProxy, rollback}

module _ {Score : Type 0} where
  -- ORDER BY created_at DESC
  unfoldable pub insert_newest : Build Score → List (Build Score) → List (Build Score)
  insert_newest b [] = b ∷ []
  insert_newest b (c ∷ cs) =
      let rest = insert_newest b cs in
      if leb c.created_at b.created_at then b ∷ c ∷ cs else c ∷ rest

  unfoldable pub newest_first : List (Build Score) → List (Build Score)
  newest_first [] = []
  newest_first (b ∷ bs) = insert_newest b (newest_first bs)

  -- The rows, all of their columns
  unfoldable pub get_build_history : ℕ → List (Build Score) → List (Build Score)
  get_build_history limit rows = take limit (newest_first rows)

-- What the registry, the semantic index and the graph index hold.
pub record Served (Score Semantic Backend : Type 0) : Type 0 where
  pub builds : List (Build Score)
  pub semantic : Semantic
  pub graph : GraphIndexProxy Backend

pub data RollbackResult : Type 0 where
  no_active_build : RollbackResult
  no_parent_build : RollbackResult
  -- The builds rolled back and restored, and the restored collection
  rolled_back_to : Str → Str → Option Str → RollbackResult

-- `rollback_collection` is that of the semantic index, and answers None without a change where the index
-- has none.
unfoldable pub rollback_last_build :
    {Score Semantic Backend : Type 0}
    → (Semantic → Semantic × Option Str)
    → Str
    → ℕ
    → Served Score Semantic Backend
    → Served Score Semantic Backend × RollbackResult
rollback_last_build rollback_collection reason now s = elim (get_active_build s.builds) [
  | none ↦ (s, no_active_build)
  | some active_one ↦
      let undone = rollback_build active_one.build_id reason now s.builds in
      let restored_index = rollback_collection s.semantic in
      elim undone.0 [
        | none ↦ (record s { builds = undone.1 }, no_parent_build)
        | some parent ↦ (
          record { builds = undone.1; semantic = restored_index.0; graph = (rollback s.graph).0 },
          rolled_back_to active_one.build_id parent.build_id restored_index.1,
        )
      ]
]
