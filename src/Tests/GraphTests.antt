-- ===== src/Tests/GraphTests.antt =====
-- The in-memory graph index on a small graph: `run` and `lint` call `parse`, `parse` calls `lint`
-- and `lex`, and `test_parse` is a test that calls `parse`.
use codegraph_mcp.Base.{
  All, IsDistinct, List, Str, Str-discrete, [], add, arith, diff, false, get, get_or, has,
  insert_sorted, map, map_values, member, nat_key, none, pair_discrete, pair_key, pop, pos, put,
  refl, some, sorted, str, str_key, str_leb, true, union, ℕ, ◌&&◌, ◌==◌, ◌||◌, ◌∷◌, ◌≡◌,
}
use codegraph_mcp.Graph.{
  GraphIndex, Metadata, Upsert, empty, reset, upsert_symbol, remove_symbols, neighbors, extend,
  mirror, pop_all, has_symbol, used_targets,
}
use codegraph_mcp.Graph.Edges.{linked}
use codegraph_mcp.Graph.Writes.{IsRestriction, remove_symbols-IsRestriction, linked-upsert_symbol}
use codegraph_mcp.Graph.History.{Operation, upsert, apply, run, blast_radius_symmetric}
use codegraph_mcp.Graph.Query.{
  GraphNeighborhood, get_blast_radius, get_edge_provenance, get_tests_for, get_stats,
  get_symbol_degrees, get_test_caller_counts, is_test_symbol,
}
use codegraph_mcp.Graph.Query.Answers.{get-get_edge_provenance, member-get_tests_for}
use codegraph_mcp.Graph.Traverse.{traverse, done, value_error, Direction-discrete}
use codegraph_mcp.Graph.Traverse.Sound.{ids, IsCurrent, is_allowed, first, traverse_returns}

program : Unit {0}
unfolding Str-discrete pair_discrete member add union diff get get_or has put pop map_values sorted
    insert_sorted str_leb neighbors extend mirror pop_all upsert_symbol remove_symbols apply run
    reset get_blast_radius get_edge_provenance get_tests_for get_stats get_symbol_degrees
    get_test_caller_counts has_symbol traverse Direction-discrete
program = tt

abbrev no_metadata : Metadata
no_metadata = record {
  kind = none;
  file_path = none;
  start_line = none;
  end_line = none;
  module_name = none;
  is_test = false;
}

abbrev calling : List Str → Upsert
calling ts = record {
  calls = ts;
  called_by = [];
  uses = [];
  used_by = [];
  uses_with_modes = [];
  metadata = some no_metadata;
  edge_source = str "scip";
}

abbrev ops : List Operation
ops =
    upsert (str "run") (calling (str "parse" ∷ []))
    ∷ upsert (str "lint") (calling (str "parse" ∷ []))
    ∷ upsert (str "parse") (calling (str "lint" ∷ str "lex" ∷ []))
    ∷ upsert (str "test_parse") (record (calling (str "parse" ∷ [])) {
      metadata = some (record no_metadata { is_test = true });
    })
    ∷ []

abbrev graph : GraphIndex
graph = run ops empty

blast_radius_run : get_blast_radius graph (str "parse") ≡ record {
  symbol_id = str "parse";
  upstream = str "lint" ∷ str "run" ∷ str "test_parse" ∷ [];
  downstream = str "lex" ∷ str "lint" ∷ [];
  used_by = [];
  uses = [];
}
unfolding program
blast_radius_run = refl

tests_run : map (λ r. r.symbol_id) (get_tests_for graph (str "parse")) ≡ str "test_parse" ∷ []
unfolding program
tests_run = refl

stats_run :
    get_stats graph
    ≡ record { graph_nodes = 5; graph_edges = 5; real_symbols = 4; bare_target_nodes = pos 1 }
unfolding program
stats_run = refl

removed_run : has_symbol (str "lint") (remove_symbols (str "lint" ∷ []) graph) ≡ false
unfolding program
removed_run = refl

-- `mid` is a caller and a callee of `root`, and calls `leaf`; `other` is one more caller. The second
-- visit of `mid`, in the other direction, follows the neighborhood of `other`, and misses `leaf`,
-- which two calls lead to from `root`.
abbrev knot : List Operation
knot =
    upsert (str "mid") (calling (str "root" ∷ str "leaf" ∷ []))
    ∷ upsert (str "other") (calling (str "root" ∷ []))
    ∷ upsert (str "root") (calling (str "mid" ∷ []))
    ∷ []

abbrev visited : Str → ℕ → List Str
visited s depth = elim (traverse (run knot empty) s depth []) [ done ns ↦ ids ns | _ ↦ [] ]

traverse_misses : visited (str "root") 2 ≡ str "root" ∷ str "mid" ∷ str "other" ∷ []
unfolding program
traverse_misses = refl

traverse_depth_zero : traverse graph (str "run") 0 [] ≡ value_error
unfolding program
traverse_depth_zero = refl

blast_radius_symmetric_example :
    (member (str "lex") (get_blast_radius graph (str "parse")).downstream
      ≡ member (str "parse") (get_blast_radius graph (str "lex")).upstream)
    × (member (str "lex") (get_blast_radius graph (str "parse")).uses
        ≡ member (str "parse") (get_blast_radius graph (str "lex")).used_by)
blast_radius_symmetric_example =
    blast_radius_symmetric ops (str "parse") (str "lex")
      ((refl, refl), ((refl, refl), ((refl, refl), ((refl, refl), tt))))

remove_symbols-IsRestriction_example :
    IsRestriction (str "lint" ∷ []) graph (remove_symbols (str "lint" ∷ []) graph)
remove_symbols-IsRestriction_example = remove_symbols-IsRestriction (str "lint" ∷ []) graph

linked-upsert_symbol_example :
    (linked
        (str "run")
        (str "lex")
        (upsert_symbol (str "run") (calling (str "lex" ∷ [])) graph).downstream
      ≡ (linked (str "run") (str "lex") graph.downstream
          || (str "run" == str "run" && member (str "lex") (str "lex" ∷ []))))
    × (linked
          (str "run")
          (str "lex")
          (upsert_symbol (str "run") (calling (str "lex" ∷ [])) graph).upstream
        ≡ ((linked (str "run") (str "lex") graph.upstream
              || (str "lex" == str "run" && member (str "run") (str "lex" ∷ [])))
            || (str "run" == str "run" && member (str "lex") [])))
    × (linked
          (str "run")
          (str "lex")
          (upsert_symbol (str "run") (calling (str "lex" ∷ [])) graph).uses
        ≡ (linked (str "run") (str "lex") graph.uses
            || (str "run" == str "run" && member (str "lex") [])))
    × (linked
          (str "run")
          (str "lex")
          (upsert_symbol (str "run") (calling (str "lex" ∷ [])) graph).used_by
        ≡ ((linked (str "run") (str "lex") graph.used_by
              || (str "lex" == str "run" && member (str "run") []))
            || (str "run" == str "run" && member (str "lex") [])))
unfolding used_targets
linked-upsert_symbol_example =
    linked-upsert_symbol (str "run") (str "lex") (str "run") (calling (str "lex" ∷ [])) graph

get-get_edge_provenance_example :
    get (str "lex") (get_edge_provenance graph (str "parse")) ≡ some (str "scip")
unfolding program
get-get_edge_provenance_example = get-get_edge_provenance graph (str "parse") (str "lex")

member-get_tests_for_example :
    ((a : Str)
      → member a (map (λ r. r.symbol_id) (get_tests_for graph (str "parse"))) ≡ (
          is_test_symbol graph a
          && (linked (str "parse") a graph.upstream || linked (str "parse") a graph.used_by)))
    × IsDistinct (map (λ r. r.symbol_id) (get_tests_for graph (str "parse")))
member-get_tests_for_example = member-get_tests_for graph (str "parse")

traverse_returns_example :
    (ns : List GraphNeighborhood) × (traverse graph (str "run") 2 (str "lint" ∷ []) ≡ done ns)
    × All (IsCurrent graph) ns
    × IsDistinct (ids ns)
    × (first (ids ns) ≡ some (str "run"))
    × ((a : Str) → member a (ids ns) ≡ true → is_allowed (str "run") (str "lint" ∷ []) a ≡ true)
traverse_returns_example = traverse_returns graph (str "run") 2 (str "lint" ∷ []) (omega arith)
