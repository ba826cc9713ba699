-- ===== src/Lib.antt =====
-- The core of codegraph-mcp: a service that keeps a graph and a semantic index of a repository's
-- symbols, serves them to agents over MCP and REST, and learns from their feedback.
--
-- The parts, each with the module that models it (paths from the repository's root):
--   Graph        backend/app/rag/retrieval/graph.py, InMemoryGraphIndex: nodes, call and use edges in
--                dicts of both directions (Graph/Edges, Mirror, Writes, History), the queries
--                (Graph/Query) and traverse (Graph/Traverse)
--   Proxy        the same file, GraphIndexProxy: swap and rollback of the active backend, and its methods
--   Semantic     backend/app/rag/retrieval/semantic.py, InMemorySemanticIndex
--   Snapshot     backend/app/core/repositories/in_memory_index_metadata_repository.py, with the chunks
--                and edges of backend/app/schemas/codebase.py
--   Resolve      backend/app/rag/indexing_service.py: _build_name_index and _resolve_candidates
--   Builds       backend/app/rag/reinforcement/build_registry.py: the table and its transactions;
--                rollback_last_build of backend/app/rag/indexing_service.py (Builds/LastBuild, Undone)
--   Feedback     backend/app/rag/reinforcement/feedback_store.py: votes, boost weights, expansions
--   ClientTokens backend/app/core/client_tokens.py: the two repositories of keys and resolve_user_token
--   TokenBucket  backend/app/core/token_bucket.py: buckets and their registry
--   RateLimit    backend/app/core/rate_limit.py: sliding windows and the body limit
--   Gate         backend/app/mcp/readonly_server.py: BearerTokenAuthMiddleware
--   ApiAuth      backend/app/core/auth.py: AuthMiddleware
--   GraphTools   backend/app/mcp/tools/graph_read_tools.py: the risk scores (Risk), the search for a
--                path in an index in memory (Path), the content of a symbol by pages (Content), the hops
--                of traverse_graph (Levels), searches by name (Search), the combined impact (Batch),
--                components and cycles (Cycles)
--   DiffParser   backend/app/rag/diff_parser.py: the lines of a diff, the kinds of change and the renames
--                (DiffParser/Classify), and the symbols of the index (DiffParser/Resolved)
--   JsonRpc      backend/app/mcp/readonly_server.py: _handle_mcp
--   CrateGraph   backend/app/rag/ingestion/crate_graph.py
--   QueryCache   backend/app/core/query_cache.py: gets, sets and invalidation over any Redis
--   AiFeedback   backend/app/rag/reinforcement/ai_feedback_store.py: the gate of the feedback of agents
--   SystemOne    backend/app/core/systemone.py: the decision model and its lock (SystemOne/Lock), and the
--                tool make_decision of graph_read_tools.py
--   PowerEvents  backend/app/core/power_events.py: the recovery e-mail and its marker file
--   Health       backend/app/core/health.py: the checks of the backends
-- Gate runs on ClientTokens and TokenBucket as the middleware calls resolve_user_token and take_tokens;
-- ApiAuth runs on ClientTokens; Resolve and Semantic read the chunks of Snapshot; GraphTools runs on the
-- queries of Graph, and its cycles on CrateGraph; AiFeedback goes by the judgements of SystemOne. Base
-- holds what all share: tests, lists, sets, dicts as association lists in insertion order, text as lists
-- of code points, and calls that may raise.
-- Tests holds runs of the code and instances of the theorems.
--
-- State is passed explicitly; a function keeps the name of the source's, and takes as arguments what
-- that reads from elsewhere: clocks, random keys, uuids. Times are ticks of any length, `sec` (or
-- `second`) of them to a second, and tokens are counted in units, so that no float occurs; boost weights
-- are exact fractions, the weights of expansions tenths. A lock makes an operation one step, so calls
-- follow each other; the lock of the decision model, which threads wait for, is a step relation. A call of
-- another service is given by its outcome, a value or an exception (Call of Base). A loop is structural
-- recursion, save three: the queue of traverse and the deque of the search for paths run on fuel, where
-- `rounds` of the index counts the symbols that can be queued, each at most once, and is enough; the work
-- list of Tarjan's algorithm has two rounds for each node and one more, for its push and its pop.
--
-- Not modelled: Postgres, Neo4j, Weaviate, Redis, git and the mail, and the code that only talks to
-- them; SQL is modelled where a module keeps its state in one table. SHA-256, JSON, zlib, tomllib, the
-- embedding of a text and the cosine of two, int() on a header, the tables of Unicode behind isalnum, the
-- addresses of ipaddress, and the regular expressions of the diff parser with the ratio of difflib are
-- parameters. The tools that run Cypher, read git or search by embeddings, and the scanners of source code
-- are left out.
pub mod Base
pub mod AiFeedback
pub mod ApiAuth
pub mod Builds
pub mod ClientTokens
pub mod CrateGraph
pub mod DiffParser
pub mod Feedback
pub mod Gate
pub mod Graph
pub mod GraphTools
pub mod Health
pub mod JsonRpc
pub mod PowerEvents
pub mod Proxy
pub mod QueryCache
pub mod RateLimit
pub mod Resolve
pub mod Semantic
pub mod Snapshot
pub mod SystemOne
pub mod TokenBucket
pub mod Tests
