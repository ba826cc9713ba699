-- ===== src/Graph/Writes.antt =====
-- What `upsert_symbol` and `remove_symbols` change, over all four dicts of edges.
use codegraph_mcp.Base.{
  List, Str, [], ap, arith, diff, get, get-map_values, has, if◌then◌else◌, member, nat_key, none,
  not, pair_key, refl, str_key, ◌&&◌, ◌==◌, ◌||◌, ◌∙◌, ◌∷◌, ◌≡◌,
}
use codegraph_mcp.Graph.{
  GraphIndex, Upsert, Edges, upsert_symbol, remove_symbols, pop_all, remove_edges, has_symbol,
  used_targets, mirror,
}
use codegraph_mcp.Graph.Edges.{
  linked, linked-extend, linked-mirror, linked-upsert_uses, linked-remove_edges, get-pop_all,
}

-- The four dicts of `h` hold the edges of those of `g` that neither leave nor enter `gone`.
pub record IsRestriction (gone : List Str) (g h : GraphIndex) : Type 0 where
  pub downstream :
      (a b : Str)
      → linked a b h.downstream
        ≡ (linked a b g.downstream && (not (member a gone) && not (member b gone)))
  pub upstream :
      (a b : Str)
      → linked a b h.upstream
        ≡ (linked a b g.upstream && (not (member a gone) && not (member b gone)))
  pub uses :
      (a b : Str)
      → linked a b h.uses ≡ (linked a b g.uses && (not (member a gone) && not (member b gone)))
  pub used_by :
      (a b : Str)
      → linked a b h.used_by
        ≡ (linked a b g.used_by && (not (member a gone) && not (member b gone)))
  pub symbols : (a : Str) → has_symbol a h ≡ (has_symbol a g && not (member a gone))
  pub metadata : (a : Str) → get a h.metadata ≡ (if member a gone then none else get a g.metadata)
  pub edge_source :
      (a : Str) → get a h.edge_source ≡ (if member a gone then none else get a g.edge_source)

has-remove_edges :
    (a : Str) (gone : List Str) (e : Edges)
    → has a (remove_edges gone e) ≡ (has a e && not (member a gone))
unfolding has remove_edges
has-remove_edges a gone e = ground (
  arith,
  get-map_values (λ (ts : List Str). diff ts gone) a (pop_all gone e),
  get-pop_all a gone e,
)

has_symbol-remove :
    (a s : Str) (gone : List Str) (g : GraphIndex)
    → has_symbol a (remove_symbols (s ∷ gone) g) ≡ (has_symbol a g && not (member a (s ∷ gone)))
unfolding has_symbol remove_symbols
has_symbol-remove a s gone g = ground (
  arith,
  has-remove_edges a (s ∷ gone) g.downstream,
  has-remove_edges a (s ∷ gone) g.upstream,
  has-remove_edges a (s ∷ gone) g.uses,
  has-remove_edges a (s ∷ gone) g.used_by,
)

-- After `remove_symbols gone`, no symbol of `gone` is a node, an end of an edge of either kind, or
-- has metadata or a provenance; every other node, edge and entry is as before.
pub remove_symbols-IsRestriction :
    (gone : List Str) (g : GraphIndex) → IsRestriction gone g (remove_symbols gone g)
unfolding remove_symbols member
remove_symbols-IsRestriction [] g = record {
  downstream = λ a b. ground arith;
  upstream = λ a b. ground arith;
  uses = λ a b. ground arith;
  used_by = λ a b. ground arith;
  symbols = λ a. ground arith;
  metadata = λ a. refl;
  edge_source = λ a. refl;
}
remove_symbols-IsRestriction (s ∷ gone) g = record {
  downstream = λ a b. linked-remove_edges a b (s ∷ gone) g.downstream;
  upstream = λ a b. linked-remove_edges a b (s ∷ gone) g.upstream;
  uses = λ a b. linked-remove_edges a b (s ∷ gone) g.uses;
  used_by = λ a b. linked-remove_edges a b (s ∷ gone) g.used_by;
  symbols = λ a. has_symbol-remove a s gone g;
  metadata = λ a. get-pop_all a (s ∷ gone) g.metadata;
  edge_source = λ a. get-pop_all a (s ∷ gone) g.edge_source;
}

-- After `upsert_symbol s u`, each of the four dicts holds exactly the edges that it held before and those
-- that the arguments add to it: a callee or a used symbol is entered in both directions, a caller or a user
-- only among the callers or the users of `s`. No edge is lost.
pub linked-upsert_symbol :
    (a b s : Str) (u : Upsert) (g : GraphIndex)
    → (linked a b (upsert_symbol s u g).downstream
        ≡ (linked a b g.downstream || (a == s && member b u.calls)))
      × (linked a b (upsert_symbol s u g).upstream ≡ (
          (linked a b g.upstream || (b == s && member a u.calls))
          || (a == s && member b u.called_by)))
      × (linked a b (upsert_symbol s u g).uses
          ≡ (linked a b g.uses || (a == s && member b (used_targets u))))
      × (linked a b (upsert_symbol s u g).used_by ≡ (
          (linked a b g.used_by || (b == s && member a (used_targets u)))
          || (a == s && member b u.used_by)))
unfolding upsert_symbol
linked-upsert_symbol a b s u g = (
  linked-extend a b s u.calls g.downstream,
  linked-extend a b s u.called_by (mirror s u.calls g.upstream)
      ∙ ap (λ x. x || (a == s && member b u.called_by)) (linked-mirror a b s u.calls g.upstream),
  linked-upsert_uses a b s u g.uses,
  linked-extend a b s u.used_by (mirror s (used_targets u) g.used_by)
      ∙ ap (λ x. x || (a == s && member b u.used_by))
          (linked-mirror a b s (used_targets u) g.used_by),
)
