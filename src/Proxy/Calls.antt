-- ===== src/Proxy/Calls.antt =====
-- The methods of GraphIndexProxy with an InMemoryGraphIndex behind it: each calls the active backend.
use codegraph_mcp.Base.{Bool, Dict, List, Option, Str, [], nat_key, pair_key, str_key, ℕ, ℤ}
use codegraph_mcp.Graph.{
  GraphIndex, Upsert, reset, upsert_symbol, remove_symbols, get_symbol_ids, has_symbol,
}
use codegraph_mcp.Graph.Query.{
  GraphNeighborhood, TestRow, Stats, get_blast_radius, get_neighbors, get_edge_provenance,
  get_tests_for, get_test_symbol_ids, get_symbol_degrees, get_test_caller_counts, get_stats,
}
use codegraph_mcp.Graph.Traverse.{Outcome, traverse}
use codegraph_mcp.Proxy.{GraphIndexProxy, clamp_depth}

abbrev pub Proxied : Type 0
Proxied = GraphIndexProxy GraphIndex

abbrev pub on_active : (GraphIndex → GraphIndex) → Proxied → Proxied
on_active f p = record p { backend = f p.backend }

unfoldable pub proxy_reset : Proxied → Proxied
proxy_reset = on_active reset

unfoldable pub proxy_upsert_symbol : Str → Upsert → Proxied → Proxied
proxy_upsert_symbol s u = on_active (upsert_symbol s u)

unfoldable pub proxy_remove_symbols : List Str → Proxied → Proxied
proxy_remove_symbols gone = on_active (remove_symbols gone)

unfoldable pub proxy_get_symbol_ids : Proxied → List Str
proxy_get_symbol_ids p = get_symbol_ids p.backend

unfoldable pub proxy_get_blast_radius : Proxied → Str → GraphNeighborhood
proxy_get_blast_radius p s = get_blast_radius p.backend s

unfoldable pub proxy_get_edge_provenance : Proxied → Str → Dict Str Str
proxy_get_edge_provenance p s = get_edge_provenance p.backend s

unfoldable pub proxy_get_neighbors : Proxied → Str → Option ℤ → GraphNeighborhood
proxy_get_neighbors p s depth = get_neighbors p.backend s (clamp_depth depth)

-- The backend takes no `max_neighborhoods`: the call with it raises TypeError, and the second call passes
-- the depth alone.
unfoldable pub proxy_traverse : Proxied → Str → ℕ → ℕ → List Str → Outcome
proxy_traverse p s depth max_neighborhoods exclude = traverse p.backend s depth []

unfoldable pub proxy_get_tests_for : Proxied → Str → List TestRow
proxy_get_tests_for p s = get_tests_for p.backend s

unfoldable pub proxy_get_test_symbol_ids : Proxied → List Str
proxy_get_test_symbol_ids p = get_test_symbol_ids p.backend

unfoldable pub proxy_get_symbol_degrees : Proxied → Dict Str ℕ
proxy_get_symbol_degrees p = get_symbol_degrees p.backend

unfoldable pub proxy_get_test_caller_counts : Proxied → Dict Str ℕ
proxy_get_test_caller_counts p = get_test_caller_counts p.backend

unfoldable pub proxy_get_stats : Proxied → Stats
proxy_get_stats p = get_stats p.backend

unfoldable pub proxy_has_symbol : Proxied → Str → Bool
proxy_has_symbol p s = has_symbol s p.backend
