-- ===== src/Tests/ServiceTests.antt =====
-- The REST gate, the proxy of the graph index and the semantic index on small inputs.
use codegraph_mcp.Base.{
  List, Str, Str-discrete, [], leb, length, map, nat_key, pair_key, refl, some, str, str_key, ℕ,
  ℕ_discrete, ◌+◌, ◌∷◌, ◌≡◌,
}
use codegraph_mcp.Snapshot.{CodeChunk}
use codegraph_mcp.ClientTokens.{Keyring, empty_store}
use codegraph_mcp.Gate.{Settings}
use codegraph_mcp.ApiAuth.{ApiReply, unauthorized, unhandled}
use codegraph_mcp.Proxy.{GraphIndexProxy, swap, rollback}
use codegraph_mcp.Proxy.Undo.{swaps, rollbacks, rollbacks-swaps}
use codegraph_mcp.Semantic.{upsert_chunks, upsert_chunk, query_chunks, sorted_matches, insert_match}

abbrev config : Settings
config = record { auth_token = str "secret"; environment = str "prod" }

abbrev no_keys : Keyring
no_keys = record { store = empty_store; refused = [] }

abbrev fresh : List ℕ
fresh = 2 ∷ 3 ∷ []

abbrev no_documents : List (CodeChunk × ℕ)
no_documents = []

abbrev proxy : GraphIndexProxy ℕ
proxy = record { backend = 1; history = [] }

rollbacks-swaps_example :
    (rollbacks (length fresh) (swaps fresh proxy) ≡ proxy)
    × ((b : ℕ) → (rollback (swap b proxy).0).1 ≡ some (1, b))
rollbacks-swaps_example = rollbacks-swaps fresh proxy

abbrev chunk : Str → Str → CodeChunk
chunk s c = record {
  symbol_id = s;
  file_path = str "a.rs";
  kind = str "fn";
  content = c;
  start_line = 1;
  end_line = 2;
}

abbrev given : List CodeChunk
given = chunk (str "f") (str "x") ∷ chunk (str "g") (str "yy") ∷ chunk (str "f") (str "zzz") ∷ []

-- With the length for the embedding and the sum for the cosine, the longest content comes first.
query_run :
    map
      (λ m. m.symbol_id)
      (query_chunks leb length (λ a b. a + b) (str "q") 1 (upsert_chunks length given []))
    ≡ str "f" ∷ []
unfolding query_chunks upsert_chunks upsert_chunk sorted_matches insert_match Str-discrete
    ℕ_discrete
query_run = refl
