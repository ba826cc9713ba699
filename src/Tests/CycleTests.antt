-- ===== src/Tests/CycleTests.antt =====
-- Cycles, hop levels, pages, searches and crates on small inputs.
use codegraph_mcp.Base.{
  Dict, List, Option, Str, Str-discrete, [], add, diff, ends_with, false, get, get_or, has,
  if◌then◌else◌, insert_sorted, is_space, last_piece, lstrip, member, nat_key, none, pair_key, put,
  refl, rstrip, some, sorted, starts_with, str, str_key, str_leb, strip, true, union, ℕ_discrete,
  ◌&&◌, ◌++◌, ◌==◌, ◌∷◌, ◌≡◌,
}
use codegraph_mcp.Graph.Query.{GraphNeighborhood}
use codegraph_mcp.GraphTools.Cycles.{
  links_of, enter, scan, pop_component, leave, work_loop, root_loop, sccs_of, find_cycles,
  cycle_score, list_leb, ranks_before, insert_ranked, ranked,
}
use codegraph_mcp.GraphTools.Levels.{
  summarize, adjacency_of, fresh_of, discover, count_discoveries, next_frontier, all_discoveries,
  levels_from,
}
use codegraph_mcp.GraphTools.Levels.Totals.{total, IsCumulative, summarize-counts}
use codegraph_mcp.GraphTools.Content.{
  Source, page, get_symbol_content, find_chunk, chunk_content, or_else, page_lines, slice, skip,
  source_lines, drop_blank, split_enrichment, join_lines, record_click_through, clicked,
}
use codegraph_mcp.GraphTools.Search.{
  search_symbols_batch, resolve_queries, filter_noise, is_noise_symbol, short_alnum,
}
use codegraph_mcp.GraphTools.Batch.{
  combined_impact, collect_all, collect_one, collect, join, resolved_name,
}
use codegraph_mcp.CrateGraph.{
  Manifest, Spec, at_path, inherited, crate_graph, read_members, path_deps, dep_names, dep_crate,
  name_for, member_name, module_prefix_of, replace_slash, first_chars, link_crates, link_deps,
  append_dependent, workspace_specs, crate_edges, edges_from, add_edges, has_edge, insert_edge,
  pair_leb,
}
use codegraph_mcp.CrateGraph.Inverse.{dependents_of, dependencies_of, dependents_of-crate_graph}

units : Unit {0}
unfolding Str-discrete ℕ_discrete member add union diff get get_or has put sorted insert_sorted
    str_leb starts_with ends_with strip lstrip rstrip is_space last_piece
units = tt

-- a and b call each other and c, which calls nobody.
cycle_run :
    find_cycles
      ((str "a", str "b") ∷ (str "b", str "a") ∷ (str "b", str "c") ∷ (str "c", str "c") ∷ [])
      2
      10
    ≡ (1, (str "a" ∷ str "b" ∷ [], 2) ∷ [])
unfolding units find_cycles sccs_of links_of root_loop work_loop enter scan leave pop_component
    ranked insert_ranked ranks_before cycle_score list_leb
cycle_run = refl

-- Two cycles that share a node are one component.
shared_run :
    sccs_of
      ((str "a", str "b")
        ∷ (str "b", str "a")
        ∷ (str "b", str "c")
        ∷ (str "c", str "b")
        ∷ (str "d", str "a")
        ∷ [])
      2
    ≡ (str "a" ∷ str "b" ∷ str "c" ∷ []) ∷ []
unfolding units sccs_of links_of root_loop work_loop enter scan leave pop_component
shared_run = refl

abbrev around : Str → List Str → GraphNeighborhood
around s calls = record {
  symbol_id = s;
  upstream = [];
  downstream = calls;
  used_by = [];
  uses = [];
}

abbrev hoods : List GraphNeighborhood
hoods = around (str "a") (str "b" ∷ str "c" ∷ []) ∷ around (str "b") (str "c" ∷ str "d" ∷ []) ∷ []

levels_run : (summarize (str "a") 5 hoods).total_reachable_symbols ≡ 3
unfolding units summarize adjacency_of fresh_of discover count_discoveries next_frontier
    all_discoveries levels_from
levels_run = refl

summarize-counts_example :
    ((summarize (str "a") 5 hoods).total_reachable_symbols
      ≡ total (summarize (str "a") 5 hoods).summary)
    × IsCumulative 0 (summarize (str "a") 5 hoods).summary
summarize-counts_example = summarize-counts (str "a") 5 hoods

abbrev chunk : Source
chunk = record {
  symbol_id = str "f";
  start_line = 7;
  end_line = 9;
  lines = str "// summary" ∷ [] ∷ str "fn" ∷ str "x" ∷ str "}" ∷ [];
}

page_run :
    get_symbol_content true (chunk ∷ []) (str "f") (some 8) none
    ≡ page 8 9 (str "x" ++ (10 ∷ str "}")) false
unfolding units get_symbol_content find_chunk chunk_content or_else page_lines slice skip
    source_lines drop_blank split_enrichment join_lines
page_run = refl

click_run :
    (record_click_through 1 100
      (str "f")
      ((str "k", record { at = 50; query = str "q"; results = str "f" ∷ [] }) ∷ [])).0
    ≡ some (str "q")
unfolding units record_click_through clicked
click_run = refl

batch_run :
    search_symbols_batch (λ c. false) (λ q n. str "m::_" ∷ str "m::go" ∷ []) (str " go" ∷ []) 0
    ≡ some ((str "go", str "m::go" ∷ []) ∷ [], [], 0)
unfolding units search_symbols_batch resolve_queries filter_noise is_noise_symbol short_alnum
batch_run = refl

impact_run :
    (combined_impact
      (λ s. true)
      (λ s. [])
      (λ s. some (around s (str "a" ∷ str "z" ∷ [])))
      false
      (str "a" ∷ str "b" ∷ [])).callees
    ≡ str "z" ∷ []
unfolding units combined_impact collect_all collect_one collect join resolved_name
impact_run = refl

abbrev manifest : Str → List Str → Dict Str Spec → Dict Str Spec → Manifest
manifest name members deps workspace = record {
  name = name;
  dependencies = deps;
  dev_dependencies = [];
  members = members;
  workspace_dependencies = workspace;
}

-- A workspace of two crates: app depends on lib.
abbrev cargo : Str → Option Manifest
cargo dir =
    if dir == str "root"
    then some (manifest [] (str "app" ∷ str "lib" ∷ []) [] ((str "lib", at_path (str "lib")) ∷ []))
    else if dir == str "app"
    then some (manifest (str "app") [] ((str "lib", inherited) ∷ []) [])
    else if dir == str "lib"
    then some (manifest (str "lib") [] [] [])
    else none

crate_run :
    (crate_edges (crate_graph cargo (λ d p. p) (str "root")) ≡ (str "app", str "lib") ∷ [])
    × (dependents_of (str "lib") (crate_graph cargo (λ d p. p) (str "root")) ≡ str "app" ∷ [])
unfolding units crate_graph read_members path_deps dep_names dep_crate name_for member_name
    module_prefix_of replace_slash first_chars link_crates link_deps append_dependent
    workspace_specs crate_edges edges_from add_edges has_edge insert_edge pair_leb dependents_of
crate_run = (refl, refl)

dependents_of-crate_graph_example :
    member (str "app") (dependents_of (str "lib") (crate_graph cargo (λ d p. p) (str "root"))) ≡ (
      has (str "lib") (crate_graph cargo (λ d p. p) (str "root"))
      && member
          (str "lib")
          (dependencies_of (str "app") (crate_graph cargo (λ d p. p) (str "root"))))
dependents_of-crate_graph_example =
    dependents_of-crate_graph cargo (λ d p. p) (str "root") (str "app") (str "lib")
