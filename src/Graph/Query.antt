-- ===== src/Graph/Query.antt =====
-- backend/app/rag/retrieval/graph.py: the read operations of `InMemoryGraphIndex`.
pub mod Answers
use codegraph_mcp.Base.{
  Bool, Dict, List, Str, [], add, false, get, get_or, if◌then◌else◌, keep, keys, length, ltb,
  member, nat_key, none, not, pair_key, put, some, sorted, str, str_key, sub_ℕ, union, ℕ, ℤ, ◌++◌,
  ◌+◌, ◌||◌, ◌∷◌,
}
use codegraph_mcp.Graph.{GraphIndex, Edges, neighbors}

-- `GraphNeighborhood`; the index leaves its two dicts of modes empty.
pub record GraphNeighborhood : Type 0 where
  pub symbol_id : Str
  pub upstream : List Str
  pub downstream : List Str
  pub used_by : List Str
  pub uses : List Str

unfoldable pub get_blast_radius : GraphIndex → Str → GraphNeighborhood
get_blast_radius g s = record {
  symbol_id = s;
  upstream = sorted (neighbors s g.upstream);
  downstream = sorted (neighbors s g.downstream);
  used_by = sorted (neighbors s g.used_by);
  uses = sorted (neighbors s g.uses);
}

-- `get_neighbors` of the index ignores the depth.
unfoldable pub get_neighbors : GraphIndex → Str → ℕ → GraphNeighborhood
unfolding get_blast_radius
get_neighbors g s depth = get_blast_radius g s

-- the two loops of `get_edge_provenance`
pub set_targets : Str → List Str → Dict Str Str → Dict Str Str
set_targets own [] out = out
set_targets own (t ∷ ts) out = set_targets own ts (put t own out)

pub set_callers : GraphIndex → List Str → Dict Str Str → Dict Str Str
set_callers g [] out = out
set_callers g (c ∷ cs) out = set_callers g cs (put c (get_or c (str "regex") g.edge_source) out)

unfoldable pub get_edge_provenance : GraphIndex → Str → Dict Str Str
unfolding set_targets set_callers
get_edge_provenance g s =
    let own = get_or s (str "regex") g.edge_source in
    let out = set_targets own (union (neighbors s g.downstream) (neighbors s g.uses)) [] in
    set_callers g (union (neighbors s g.upstream) (neighbors s g.used_by)) out

pub record TestRow : Type 0 where
  pub symbol_id : Str
  pub relation : Str
  pub file_path : Str
  pub start_line : ℕ
  pub end_line : ℕ

pub is_test_symbol : GraphIndex → Str → Bool
is_test_symbol g s = elim (get s g.metadata) [ none ↦ false | some m ↦ m.is_test ]

pub test_row : GraphIndex → Str → Str → TestRow
test_row g relation s = elim (get s g.metadata) [
  | none ↦ record {
    symbol_id = s;
    relation = relation;
    file_path = [];
    start_line = 0;
    end_line = 0;
  }
  | some m ↦ record {
    symbol_id = s;
    relation = relation;
    file_path = elim m.file_path [ none ↦ [] | some f ↦ f ];
    start_line = elim m.start_line [ none ↦ 0 | some n ↦ n ];
    end_line = elim m.end_line [ none ↦ 0 | some n ↦ n ];
  }
]

-- the inner loop of `get_tests_for`, over the sorted sources of one relation
pub collect_tests : GraphIndex → Str → List Str → List Str → List TestRow × List Str
collect_tests g relation [] seen = ([], seen)
collect_tests g relation (s ∷ sources) seen =
    let skip = member s seen || not (is_test_symbol g s) in
    let (rows, seen') = collect_tests g relation sources (if skip then seen else add s seen) in
    if skip then (rows, seen') else (test_row g relation s ∷ rows, seen')

unfoldable pub get_tests_for : GraphIndex → Str → List TestRow
unfolding collect_tests is_test_symbol test_row
get_tests_for g s =
    let (calls, seen) = collect_tests g (str "calls") (sorted (neighbors s g.upstream)) [] in
    let (refs, _) = collect_tests g (str "type_reference") (sorted (neighbors s g.used_by)) seen in
    calls ++ refs

unfoldable pub get_test_symbol_ids : GraphIndex → List Str
unfolding is_test_symbol
get_test_symbol_ids g = keep (is_test_symbol g) (keys g.metadata)

-- one of the four loops of `get_symbol_degrees`
add_degrees : Edges → Dict Str ℕ → Dict Str ℕ
add_degrees [] degrees = degrees
add_degrees ((s, ts) ∷ e) degrees = add_degrees e (put s (get_or s 0 degrees + length ts) degrees)

unfoldable pub get_symbol_degrees : GraphIndex → Dict Str ℕ
unfolding add_degrees
get_symbol_degrees g =
    add_degrees g.used_by
      (add_degrees g.upstream (add_degrees g.uses (add_degrees g.downstream [])))

-- the loop of `get_test_caller_counts`
count_callers : List Str → Edges → Dict Str ℕ → Dict Str ℕ
count_callers tests [] counts = counts
count_callers tests ((t, sources) ∷ e) counts =
    let n = length (keep (λ s. member s tests) sources) in
    count_callers tests e (if ltb 0 n then put t n counts else counts)

unfoldable pub get_test_caller_counts : GraphIndex → Dict Str ℕ
unfolding count_callers
get_test_caller_counts g = count_callers (get_test_symbol_ids g) g.upstream []

pub record Stats : Type 0 where
  pub graph_nodes : ℕ
  pub graph_edges : ℕ
  pub real_symbols : ℕ
  pub bare_target_nodes : ℤ

node_ids : GraphIndex → List Str
node_ids g =
    union (union (union (keys g.upstream) (keys g.downstream)) (keys g.used_by)) (keys g.uses)

unfoldable pub edge_total : Edges → ℕ
edge_total [] = 0
edge_total ((s, ts) ∷ e) = length ts + edge_total e

unfoldable pub get_stats : GraphIndex → Stats
unfolding node_ids edge_total
get_stats g =
    let nodes = length (node_ids g) in
    let real = length g.metadata in
    record {
      graph_nodes = nodes;
      graph_edges = edge_total g.downstream + edge_total g.uses;
      real_symbols = real;
      bare_target_nodes = sub_ℕ nodes real;
    }
