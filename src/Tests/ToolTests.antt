-- ===== src/Tests/ToolTests.antt =====
-- The query cache over a Redis in memory, and the search for paths on a small graph.
use codegraph_mcp.Base.{
  ==_refl, Call, Dict, List, Option, Str, Str-discrete, [], add, arith, false, get, get-put, get_or,
  if◌then◌else◌, insert_sorted, leb, length, member, nat_key, none, pair_key, put, raised, refl,
  returned, some, sorted, str, str_key, str_leb, true, ℕ_discrete, ◌+◌, ◌∷◌, ◌≡◌, ◌≤◌, ◌⊎◌,
}
use codegraph_mcp.QueryCache.{
  Redis, Codec, Stats, cache_get, cache_set, entry_key, bump_hits, after_prefix,
}
use codegraph_mcp.QueryCache.Keys.{RedisLaws, CodecLaws, cache_get-cache_set, cache_get-outcome}
use codegraph_mcp.Graph.{GraphIndex, empty, neighbors}
use codegraph_mcp.Graph.Query.{edge_total, get_blast_radius}
use codegraph_mcp.Graph.Traverse.{rounds}
use codegraph_mcp.GraphTools.Risk.{
  compute_risk_factors, compute_risk_score, same_risk, upstream_callers,
}
use codegraph_mcp.GraphTools.Path.{find_path_bfs, neighbors_of, search_loop, expand, found, no_path}
use codegraph_mcp.GraphTools.Path.Sound.{PathTo, find_path_bfs-PathTo}
use codegraph_mcp.GraphTools.Path.Shortest.{find_path_bfs-shortest}

-- A Redis that keeps its strings in a dict, raises for the time 0, and whose sets always raise
abbrev strings : Redis (Dict Str Str)
strings = record {
  fetch = λ k r. (r, returned (get k r));
  store =
      λ k b t r. if leb 1 t then (put k b r, returned tt) else (r, raised (str "invalid expire"));
  sadd = λ k m r. (r, raised (str "no sets"));
  expire = λ k t r. (r, raised (str "no sets"));
  scan = λ p r. (r, raised (str "no scan"));
  smembers = λ k r. (r, raised (str "no sets"));
  delete = λ ks r. (r, raised (str "no delete"));
}

strings-RedisLaws : RedisLaws strings
strings-RedisLaws = record {
  lookup = λ r k. get k r;
  fetch_view = λ k r. refl;
  store_ok = λ k b t r h. ground (arith, h);
  store_view = λ k b t r h. ground (arith, h, get-put k k b r, ==_refl k);
  sadd_view = λ k m a r h. refl;
  expire_view = λ k t a r h. refl;
}

-- Payloads that are their own JSON, and compression that does nothing
abbrev plain : Codec Str
plain = record {
  dumps = λ j. returned j;
  loads = λ s. returned s;
  compress = λ s. s;
  decompress = λ s. returned s;
}

answer-CodecLaws : CodecLaws plain (str "{}")
unfolding after_prefix ℕ_discrete
answer-CodecLaws = record {
  json = str "{}";
  dumps_ok = refl;
  loads_ok = refl;
  no_magic = refl;
  zlib = refl;
}

abbrev no_stats : Stats
no_stats = record {
  hits = 0;
  misses = 0;
  errors = 0;
  sets = 0;
  tag_invalidations = 0;
  bytes_stored = 0;
}

cache_get-cache_set_example :
    (cache_get strings plain true
      (returned (entry_key 3 (str "hotspots") (str "ab")))
      (cache_set strings plain true 3
        (returned (entry_key 3 (str "hotspots") (str "ab")))
        (str "{}")
        0
        (str "git" ∷ [])
        []
        no_stats).0
      no_stats).1
    ≡ (bump_hits no_stats, returned (some (str "{}")))
cache_get-cache_set_example =
    cache_get-cache_set strings plain strings-RedisLaws (str "{}") answer-CodecLaws 3
      (str "hotspots") (str "ab") 0 (str "git" ∷ []) [] no_stats no_stats

abbrev cached : Str → Dict Str Str → Stats × Call (Option Str)
cached key r = (cache_get strings plain true (returned key) r no_stats).1

cache_get-outcome_example :
    ((k : Call Str) → (cache_get strings plain false k [] no_stats).1 ≡ (no_stats, returned none))
    × ((cache_get strings plain true (raised (str "keys")) [] no_stats).1
        ≡ (no_stats, raised (str "keys")))
    × (((j : Str) × (cached (str "k") [] ≡ (bump_hits no_stats, returned (some j))))
        ⊎ (((cached (str "k") []).1 ≡ returned none)
            × ((cached (str "k") []).0.misses + (cached (str "k") []).0.errors
                ≡ no_stats.misses + no_stats.errors + 1)))
cache_get-outcome_example = cache_get-outcome strings plain (str "k") (str "keys") [] no_stats

abbrev four : List Str
four = str "a" ∷ str "b" ∷ str "c" ∷ str "d" ∷ []

risk_run : (compute_risk_factors four [] [] []).reasons ≡ upstream_callers 4 3 ∷ []
unfolding compute_risk_factors compute_risk_score same_risk ℕ_discrete
risk_run = refl

-- a calls b, b calls c
abbrev chain : GraphIndex
chain = record empty { downstream = (str "a", str "b" ∷ []) ∷ (str "b", str "c" ∷ []) ∷ [] }

chain_path : find_path_bfs chain (str "a") (str "c") 2 ≡ found (str "a" ∷ str "b" ∷ str "c" ∷ [])
unfolding find_path_bfs search_loop expand neighbors_of neighbors get_or get get_blast_radius sorted
    insert_sorted str_leb rounds edge_total member add Str-discrete
chain_path = refl

no_chain_path : find_path_bfs chain (str "a") (str "c") 1 ≡ no_path
unfolding find_path_bfs search_loop expand neighbors_of neighbors get_or get get_blast_radius sorted
    insert_sorted str_leb rounds edge_total member add Str-discrete
no_chain_path = refl

find_path_bfs-PathTo_example :
    PathTo (neighbors_of chain) (str "a") (str "c") (str "a" ∷ str "b" ∷ str "c" ∷ [])
    × ((2 ≤ length (str "a" ∷ str "b" ∷ str "c" ∷ []))
        × (length (str "a" ∷ str "b" ∷ str "c" ∷ []) ≤ 2 + 1))
find_path_bfs-PathTo_example =
    find_path_bfs-PathTo chain (str "a") (str "c") 2 (str "a" ∷ str "b" ∷ str "c" ∷ []) chain_path

find_path_bfs-shortest_example :
    (p : List Str) × ((find_path_bfs chain (str "a") (str "c") 4 ≡ found p)
      × (length p ≤ length (str "a" ∷ str "b" ∷ str "c" ∷ [])))
find_path_bfs-shortest_example =
    find_path_bfs-shortest chain (str "a") (str "c") 4 (str "a" ∷ str "b" ∷ str "c" ∷ [])
      find_path_bfs-PathTo_example.0 (omega arith) (omega arith)
