-- ===== src/Graph/Edges.antt =====
-- What the writes to one adjacency dict do to its edges.
use codegraph_mcp.Base.{
  ◌≡◌, refl, Bool, not, ◌&&◌, ◌||◌, none, List, [], ◌∷◌, arith, Str, str_key, ◌==◌, get, put, pop,
  get-put, get-pop, get-map_values, member, add, union, diff, member-add, member-union, member-diff,
  Dict, if◌then◌else◌,
}
use codegraph_mcp.Graph.{
  Edges, Upsert, upsert_uses, used_targets, neighbors, extend, mirror, add_uses, pop_all,
  remove_edges,
}

module _ (a b : Str) where
  pub neighbors-put :
      (v : List Str) (e : Edges) → neighbors b (put a v e) ≡ (if b == a then v else neighbors b e)
  unfolding neighbors
  neighbors-put v e = ground (arith, get-put a b v e)

-- Whether `t` stands in the set at `s`.
abbrev pub linked : Str → Str → Edges → Bool
linked s t e = member t (neighbors s e)

pub linked-extend :
    (a b s : Str) (ts : List Str) (e : Edges)
    → linked a b (extend s ts e) ≡ (linked a b e || (a == s && member b ts))
unfolding extend
linked-extend a b s ts e =
    ground
      (arith, neighbors-put s a (union (neighbors s e) ts) e, member-union b (neighbors s e) ts)

pub linked-mirror :
    (a b s : Str) (ts : List Str) (e : Edges)
    → linked a b (mirror s ts e) ≡ (linked a b e || (b == s && member a ts))
unfolding mirror member
linked-mirror a b s [] e = ground arith
linked-mirror a b s (t ∷ ts) e =
    let ih = linked-mirror a b s ts (put t (add s (neighbors t e)) e) in
    ground (arith, ih, neighbors-put t a (add s (neighbors t e)) e, member-add b s (neighbors t e))

pub linked-add_uses :
    (a b s : Str) (ts : List Str) (e : Edges)
    → linked a b (add_uses s ts e) ≡ (linked a b e || (a == s && member b ts))
unfolding add_uses member
linked-add_uses a b s [] e = ground arith
linked-add_uses a b s (t ∷ ts) e =
    let ih = linked-add_uses a b s ts (put s (add t (neighbors s e)) e) in
    ground (arith, ih, neighbors-put s a (add t (neighbors s e)) e, member-add b t (neighbors s e))

pub linked-upsert_uses :
    (a b s : Str) (u : Upsert) (e : Edges)
    → linked a b (upsert_uses s u e) ≡ (linked a b e || (a == s && member b (used_targets u)))
unfolding upsert_uses used_targets
linked-upsert_uses a b s u e =
    ground (arith, linked-add_uses a b s u.uses_with_modes e, linked-extend a b s u.uses e)

pub get-pop_all {ℓ} :
    {V : Type ℓ} (a : Str) (gone : List Str) (d : Dict Str V)
    → get a (pop_all gone d) ≡ (if member a gone then none else get a d)
unfolding pop_all member
get-pop_all a [] d = refl
get-pop_all a (s ∷ gone) d = ground (arith, get-pop_all a gone (pop s d), get-pop s a d)

neighbors-remove_edges :
    (a : Str) (gone : List Str) (e : Edges)
    → neighbors a (remove_edges gone e) ≡ (if member a gone then [] else diff (neighbors a e) gone)
unfolding neighbors remove_edges diff
neighbors-remove_edges a gone e = ground (
  arith,
  get-map_values (λ (ts : List Str). diff ts gone) a (pop_all gone e),
  get-pop_all a gone e,
)

pub linked-remove_edges :
    (a b : Str) (gone : List Str) (e : Edges)
    → linked a b (remove_edges gone e)
      ≡ (linked a b e && (not (member a gone) && not (member b gone)))
unfolding member
linked-remove_edges a b gone e =
    ground (arith, neighbors-remove_edges a gone e, member-diff b (neighbors a e) gone)
