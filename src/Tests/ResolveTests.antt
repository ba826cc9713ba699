-- ===== src/Tests/ResolveTests.antt =====
-- Names of a small repository.
use codegraph_mcp.Base.{
  List, Str, Str-discrete, [], ends_with, get, get_or, keep, last_piece, member, nat_key, none,
  pair_key, put, refl, some, str, str_key, true, ℕ_discrete, ◌∷◌, ◌≡◌,
}
use codegraph_mcp.Snapshot.{CodeChunk}
use codegraph_mcp.Resolve.{
  build_name_index, add_chunks, parent_dir, admits, ids_of, resolve_scoped, resolve_candidates,
  callable_kinds,
}
use codegraph_mcp.Resolve.Names.{named, looked_up, member-resolve_candidates}

abbrev fn : Str → Str → CodeChunk
fn s f = record {
  symbol_id = s;
  file_path = f;
  kind = str "fn";
  content = [];
  start_line = 1;
  end_line = 2;
}

abbrev chunks : List CodeChunk
chunks =
    fn (str "a::new") (str "src/a.rs")
    ∷ fn (str "b::new") (str "src/b.rs")
    ∷ fn (str "c::new") (str "lib/c.rs")
    ∷ fn (str "d::new") (str "lib/d.rs")
    ∷ []

-- The same file first; then the same directory; a hub from elsewhere is dropped; an import is exact.
resolve_run :
    (resolve_candidates
        (str "new")
        (str "src/a.rs")
        (build_name_index chunks)
        (some callable_kinds)
        []
      ≡ str "a::new" ∷ [])
    × (resolve_candidates
          (str "new")
          (str "src/z.rs")
          (build_name_index chunks)
          (some callable_kinds)
          []
        ≡ str "a::new" ∷ str "b::new" ∷ [])
    × (resolve_candidates
          (str "new")
          (str "bin/z.rs")
          (build_name_index chunks)
          (some callable_kinds)
          []
        ≡ [])
    × (resolve_candidates
          (str "mk")
          (str "bin/z.rs")
          (build_name_index chunks)
          none
          ((str "mk", str "d::new") ∷ [])
        ≡ str "d::new" ∷ [])
unfolding resolve_candidates build_name_index add_chunks resolve_scoped parent_dir member get get_or
    put last_piece ends_with Str-discrete ℕ_discrete
resolve_run = (refl, refl, refl, refl)

member-resolve_candidates_example :
    member (str "a::new") (ids_of (keep (admits none) (named (looked_up (str "new") []) chunks)))
    ≡ true
unfolding resolve_candidates build_name_index add_chunks resolve_scoped parent_dir member get get_or
    put last_piece ends_with Str-discrete ℕ_discrete
member-resolve_candidates_example =
    member-resolve_candidates (str "a::new") (str "new") (str "src/a.rs") chunks none [] refl
