-- ===== src/GraphTools/Path/Sound.antt =====
-- What the search for a path returns.
use codegraph_mcp.Base.{
  ==_refl, All, All-append, Bool-cases, List, Str, [], add, arith, eq_of_==, inl, inr, leb, length,
  length-append, member, nat_key, pair_key, str_key, subst, suc, true, zero, ℕ, ◌++◌, ◌+◌, ◌-◌,
  ◌==◌, ◌∷◌, ◌≡◌, ◌≤◌,
}
use codegraph_mcp.Graph.{GraphIndex}
use codegraph_mcp.Graph.Traverse.{rounds}
use codegraph_mcp.GraphTools.Path.{
  Queue, Expanded, arrived, going, found, expand, search_loop, neighbors_of, find_path_bfs,
}
use codegraph_mcp.GraphTools.Path.Fuel.{Expanded-cases}

-- A path from `a`, each symbol a neighbour of the one before it; the first argument after `a` is its last symbol.
pub data PathTo (nb : Str → List Str) (a : Str) : Str → List Str → Type 0 where
  here : PathTo nb a a (a ∷ [])
  further :
      {b : Str} {p : List Str} (c : Str)
      → PathTo nb a b p
      → member c (nb b) ≡ true
      → PathTo nb a c (p ++ (c ∷ []))

pub PathTo-length :
    {nb : Str → List Str} {a b : Str} {p : List Str} → PathTo nb a b p → 1 ≤ length p
PathTo-length PathTo.here = omega arith
PathTo-length (PathTo.further {p} c h m) = omega (arith, length-append p (c ∷ []))

pub found-injective : (r p : List Str) → found r ≡ found p → r ≡ p
found-injective r p e = ground (arith, e)

module _ (nb : Str → List Str) (from to : Str) (depth : ℕ) where
  -- A path that the deque may hold: of at most `depth` edges
  abbrev pub Good : Str × List Str → Type 0
  Good e = PathTo nb from e.0 e.1 × (length e.1 ≤ depth + 1)

  abbrev pub Arrives : List Str → Type 0
  Arrives p = PathTo nb from to p × ((2 ≤ length p) × (length p ≤ depth + 1))

  abbrev pub GoodStep : Expanded → Type 0
  GoodStep (arrived p) = Arrives p
  GoodStep (going v q) = All Good q

  pub expand-GoodStep :
      (c : Str) (path ns visited : List Str) (queue : Queue)
      → PathTo nb from c path
      → length path ≤ depth
      → ((a : Str) → member a ns ≡ true → member a (nb c) ≡ true)
      → All Good queue
      → GoodStep (expand to path ns visited queue)
  unfolding expand member
  expand-GoodStep c path [] visited queue h k m q = q
  expand-GoodStep c path (n ∷ ns) visited queue h k m q =
      let one = PathTo.further n h (m n (ground (arith, ==_refl n))) in
      let rest : (a : Str) → member a ns ≡ true → member a (nb c) ≡ true =
        λ a i. m a (ground (arith, i)) in
      let size = length-append path (n ∷ []) in
      elim (Bool-cases (n == to)) [
        | inl e ↦ rw e (
          subst (λ t. PathTo nb from t (path ++ (n ∷ []))) (eq_of_== n to e) one,
          (omega (arith, size, PathTo-length h), omega (arith, size, k)),
        )
        | inr e ↦ elim (Bool-cases (member n visited)) [
          | inl v ↦ rw (e, v) (expand-GoodStep c path ns visited queue h k rest q)
          | inr v ↦
              rw (e, v)
                (expand-GoodStep c path ns (add n visited) (queue ++ ((n, path ++ (n ∷ [])) ∷ [])) h
                  k rest
                  (All-append Good queue ((n, path ++ (n ∷ [])) ∷ []) q
                    ((one, omega (arith, size, k)), tt)))
        ]
      ]

  search_loop-Arrives :
      (fuel : ℕ) (visited : List Str) (queue : Queue) (p : List Str)
      → All Good queue
      → search_loop nb to depth fuel visited queue ≡ found p
      → Arrives p
  unfolding search_loop
  search_loop-Arrives zero visited queue p q e = absurd (ground (arith, e))
  search_loop-Arrives (suc fuel) visited [] p q e = absurd (ground (arith, e))
  search_loop-Arrives (suc fuel) visited ((c, path) ∷ queue) p q e =
      elim (Bool-cases (leb depth (length path - 1))) [
        | inl a ↦ search_loop-Arrives fuel visited queue p q.1 (ground (arith, e, a))
        | inr a ↦
            let step =
              expand-GoodStep c path (nb c) visited queue q.0.0 (ground (arith, a)) (λ b i. i)
                q.1 in
            elim (Expanded-cases (expand to path (nb c) visited queue)) [
              | inl (r, x) ↦
                  subst Arrives (found-injective r p (ground (arith, e, a, x)))
                    (subst GoodStep x step)
              | inr (v, (w, x)) ↦
                  search_loop-Arrives fuel v w p (subst GoodStep x step) (ground (arith, e, a, x))
            ]
      ]

-- A path that the search returns starts at the first symbol, ends at the second, steps from each symbol to one of its
-- neighbours in one of the four relations, and has from 1 to max_depth edges.
pub find_path_bfs-PathTo :
    (g : GraphIndex) (from to : Str) (depth : ℕ) (p : List Str)
    → find_path_bfs g from to depth ≡ found p
    → PathTo (neighbors_of g) from to p × ((2 ≤ length p) × (length p ≤ depth + 1))
unfolding find_path_bfs
find_path_bfs-PathTo g from to depth p e =
    search_loop-Arrives (neighbors_of g) from to depth (rounds g) (from ∷ [])
      ((from, from ∷ []) ∷ []) p ((PathTo.here, omega arith), tt) e
