-- ===== src/Graph.antt =====
-- backend/app/rag/retrieval/graph.py: `InMemoryGraphIndex`, its state and the operations on edges.
pub mod Edges
pub mod Mirror
pub mod Writes
pub mod Query
pub mod History
pub mod Traverse
use codegraph_mcp.Base.{
  ℕ, Bool, true, false, ◌||◌, Option, none, some, List, [], ◌∷◌, Str, str_key, Str-discrete, str,
  Dict, get, get_or, has, put, pop, keys, map_values, member, add, union, diff, if◌then◌else◌,
  foldl,
}

-- The values of `_metadata`; a key that the dict lacks is `none`, or false for `is_test`.
pub record Metadata : Type 0 where
  pub kind : Option Str
  pub file_path : Option Str
  pub start_line : Option ℕ
  pub end_line : Option ℕ
  pub module_name : Option Str
  pub is_test : Bool

abbrev pub Edges : Type 0
Edges = Dict Str (List Str)

pub record GraphIndex : Type 0 where
  pub upstream : Edges
  pub downstream : Edges
  pub used_by : Edges
  pub uses : Edges
  pub metadata : Dict Str Metadata
  pub edge_source : Dict Str Str

abbrev pub empty : GraphIndex
empty = record {
  upstream = [];
  downstream = [];
  used_by = [];
  uses = [];
  metadata = [];
  edge_source = [];
}

-- `reset`, and `reset_documents`, which calls it
unfoldable pub reset : GraphIndex → GraphIndex
reset g = empty

-- `edges.get(symbol_id, set())`
unfoldable pub neighbors : Str → Edges → List Str
unfolding get_or
neighbors s e = get_or s [] e

-- `edges.setdefault(symbol_id, set()).update(targets)`
unfoldable pub extend : Str → List Str → Edges → Edges
unfolding neighbors
extend s ts e = put s (union (neighbors s e) ts) e

-- `for target in targets: edges.setdefault(target, set()).add(symbol_id)`
unfoldable pub mirror : Str → List Str → Edges → Edges
unfolding neighbors
mirror s [] e = e
mirror s (t ∷ ts) e = mirror s ts (put t (add s (neighbors t e)) e)

-- The keyword arguments of `upsert_symbol`, with None and [] alike. A list of `uses_with_modes` is
-- the list of its targets, since the modes are not kept; `metadata` is `none` for None and {}.
pub record Upsert : Type 0 where
  pub calls : List Str
  pub called_by : List Str
  pub uses : List Str
  pub used_by : List Str
  pub uses_with_modes : List Str
  pub metadata : Option Metadata
  pub edge_source : Str

-- the loop under `if uses_with_modes`
pub add_uses : Str → List Str → Edges → Edges
unfolding neighbors
add_uses s [] e = e
add_uses s (t ∷ ts) e = add_uses s ts (put s (add t (neighbors s e)) e)

unfoldable pub used_targets : Upsert → List Str
used_targets u = elim u.uses_with_modes [ [] ↦ u.uses | t ∷ ts ↦ t ∷ ts ]

pub upsert_uses : Str → Upsert → Edges → Edges
unfolding add_uses extend
upsert_uses s u e = elim u.uses_with_modes [
  | [] ↦ extend s u.uses e
  | t ∷ ts ↦ add_uses s (t ∷ ts) e
]

unfoldable pub upsert_symbol : Str → Upsert → GraphIndex → GraphIndex
unfolding upsert_uses used_targets
upsert_symbol s u g = record {
  downstream = extend s u.calls g.downstream;
  upstream = extend s u.called_by (mirror s u.calls g.upstream);
  uses = upsert_uses s u g.uses;
  used_by = extend s u.used_by (mirror s (used_targets u) g.used_by);
  metadata = elim u.metadata [ none ↦ g.metadata | some m ↦ put s m g.metadata ];
  edge_source = elim u.edge_source [ [] ↦ g.edge_source | c ∷ cs ↦ put s (c ∷ cs) g.edge_source ];
}

-- `for sid in gone: entries.pop(sid, None)`
unfoldable pub pop_all {ℓ} : {V : Type ℓ} → List Str → Dict Str V → Dict Str V
pop_all [] d = d
pop_all (s ∷ gone) d = pop_all gone (pop s d)

pub remove_edges : List Str → Edges → Edges
unfolding pop_all
remove_edges gone e = map_values (λ ts. diff ts gone) (pop_all gone e)

unfoldable pub remove_symbols : List Str → GraphIndex → GraphIndex
unfolding remove_edges
remove_symbols [] g = g
remove_symbols (s ∷ gone) g = record {
  downstream = remove_edges (s ∷ gone) g.downstream;
  uses = remove_edges (s ∷ gone) g.uses;
  upstream = remove_edges (s ∷ gone) g.upstream;
  used_by = remove_edges (s ∷ gone) g.used_by;
  metadata = pop_all (s ∷ gone) g.metadata;
  edge_source = pop_all (s ∷ gone) g.edge_source;
}

unfoldable pub get_symbol_ids : GraphIndex → List Str
get_symbol_ids g = keys g.metadata

unfoldable pub has_symbol : Str → GraphIndex → Bool
unfolding has
has_symbol s g = has s g.upstream || has s g.downstream || has s g.used_by || has s g.uses
