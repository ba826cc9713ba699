-- ===== src/Graph/Mirror.antt =====
-- Both directions of every edge are stored: the dicts of the two directions mirror each other.
use codegraph_mcp.Base.{◌≡◌, List, [], ◌∷◌, arith, Str, member}
use codegraph_mcp.Graph.{GraphIndex, Upsert, mirror, used_targets, upsert_symbol, remove_symbols}
use codegraph_mcp.Graph.Edges.{
  linked, linked-extend, linked-mirror, linked-upsert_uses, linked-remove_edges,
}

pub record IsMirrored (g : GraphIndex) : Type 0 where
  pub calls : (s t : Str) → linked s t g.downstream ≡ linked t s g.upstream
  pub uses : (s t : Str) → linked s t g.uses ≡ linked t s g.used_by

pub upsert_symbol-IsMirrored :
    (s : Str) (u : Upsert) (g : GraphIndex)
    → u.called_by ≡ []
    → u.used_by ≡ []
    → IsMirrored g
    → IsMirrored (upsert_symbol s u g)
unfolding upsert_symbol member
upsert_symbol-IsMirrored s u g no_callers no_users m = record {
  calls = λ a b. ground (
    arith,
    m.calls a b,
    linked-extend a b s u.calls g.downstream,
    linked-extend b a s u.called_by (mirror s u.calls g.upstream),
    linked-mirror b a s u.calls g.upstream,
  );
  uses = λ a b. ground (
    arith,
    m.uses a b,
    linked-upsert_uses a b s u g.uses,
    linked-extend b a s u.used_by (mirror s (used_targets u) g.used_by),
    linked-mirror b a s (used_targets u) g.used_by,
  );
}

pub remove_symbols-IsMirrored :
    (gone : List Str) (g : GraphIndex) → IsMirrored g → IsMirrored (remove_symbols gone g)
unfolding remove_symbols
remove_symbols-IsMirrored [] g m = m
remove_symbols-IsMirrored (s ∷ gone) g m = record {
  calls = λ a b. ground (
    arith,
    m.calls a b,
    linked-remove_edges a b (s ∷ gone) g.downstream,
    linked-remove_edges b a (s ∷ gone) g.upstream,
  );
  uses = λ a b. ground (
    arith,
    m.uses a b,
    linked-remove_edges a b (s ∷ gone) g.uses,
    linked-remove_edges b a (s ∷ gone) g.used_by,
  );
}
