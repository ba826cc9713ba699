-- ===== src/GraphTools/Path/Shortest.antt =====
-- The search for a path misses none, and returns a shortest one.
use codegraph_mcp.Base.{
  ==_refl, All, Bool-cases, List, Str, [], arith, eq_of_==, false, inl, inr, leb, leb→le, length,
  ltb, ltb→lt, member, nat_key, pair_key, refl, str_key, subst, suc, sym, true, zero, ℕ, ◌+◌, ◌-◌,
  ◌<◌, ◌==◌, ◌∷◌, ◌≡◌, ◌≢◌, ◌≤◌, ◌⊎◌,
}
use codegraph_mcp.Graph.{GraphIndex}
use codegraph_mcp.Graph.Traverse.{rounds}
use codegraph_mcp.GraphTools.Path.{
  Queue, going, Search, out_of_fuel, no_path, found, expand, search_loop, neighbors_of,
  find_path_bfs,
}
use codegraph_mcp.GraphTools.Path.Fuel.{Expanded-cases, find_path_bfs-ends}
use codegraph_mcp.GraphTools.Path.Sound.{PathTo, PathTo-length, Good, GoodStep, expand-GoodStep}
use codegraph_mcp.GraphTools.Path.Waves.{
  IsChain, IsChain-weaken, queued, Finished, Kept, near_reached, Grown, Far, Grows, expand-Grows,
}

deep_lem : (depth n : ℕ) → 1 ≤ n → leb depth (n - 1) ≡ true → depth + 1 ≤ n
deep_lem depth n a b = ground (arith, a, b)

module _ (nb : Str → List Str) (from to : Str) where
  module _ (depth : ℕ) where
    -- What an outcome says of all the paths with an edge
    abbrev Best : Search → Type 0
    Best out_of_fuel = Unit {0}
    Best no_path = (t : List Str) → PathTo nb from to t → 2 ≤ length t → depth + 1 < length t
    Best (found p) = (t : List Str) → PathTo nb from to t → 2 ≤ length t → length p ≤ length t

    -- From the depth on nothing is found.
    skip_all :
        (fuel lo hi : ℕ) (v : List Str) (q : Queue)
        → depth + 1 ≤ lo
        → IsChain lo hi q
        → (search_loop nb to depth fuel v q ≡ out_of_fuel)
          ⊎ (search_loop nb to depth fuel v q ≡ no_path)
    unfolding search_loop
    skip_all zero lo hi v q d h = inl refl
    skip_all (suc fuel) lo hi v [] d h = inr refl
    skip_all (suc fuel) lo hi v (e ∷ q) d h =
        let deep : leb depth (length e.1 - 1) ≡ true = ground (arith, d, h.0.0) in
        rw deep (skip_all fuel (length e.1) hi v q (omega (arith, d, h.0.0)) h.1)

    Best-skip : (x : Search) → (x ≡ out_of_fuel) ⊎ (x ≡ no_path) → Best no_path → Best x
    Best-skip x (inl e) b = rw e tt
    Best-skip x (inr e) b = rw e b

    -- The goal is not reached by a path that is not longer than the bound.
    longer :
        (m : ℕ)
        → ((t : List Str) → PathTo nb from to t → length t ≤ m → 2 ≤ length t → (to == to) ≡ false)
        → (t : List Str) → PathTo nb from to t
        → 2 ≤ length t
        → m < length t
    longer m f t h two = elim (Bool-cases (ltb m (length t))) [
      | inl e ↦ omega (arith, ltb→lt m (length t) e)
      | inr e ↦ absurd (ground (arith, ==_refl to, f t h (ground (arith, e)) two))
    ]

    -- After the neighbours of the head of the deque
    Kept-next :
        (m : ℕ) (c : Str) (path v : List Str) (q : Queue) (w : List Str) (r : Queue)
        → Kept nb from to m v ((c, path) ∷ q)
        → Grows nb from to c path v q (length path) (nb c) v (going w r)
        → Kept nb from to (length path) w r
    unfolding queued
    Kept-next m c path v q w r k g = record {
      start = g.0.keeps from k.start;
      reached = λ b h. elim (g.0.fresh b h) [
        | inr waits ↦ inl waits
        | inl old ↦ elim (k.reached b old) [
          | inr f ↦ inr (λ x i. (g.0.keeps x (f x i).0, (f x i).1))
          | inl waits ↦ elim (Bool-cases (b == c)) [
            | inl e ↦ inr (subst (Finished nb from to w) (sym (eq_of_== b c e)) g.2)
            | inr e ↦ inl (g.0.waits b (ground (arith, waits, e)))
          ]
        ]
      ];
      minimal = g.0.minimal;
      chain = g.0.chain;
    }

    search_loop-Best :
        (fuel m : ℕ) (v : List Str) (q : Queue)
        → All (Good nb from to depth) q
        → Kept nb from to m v q
        → Best (search_loop nb to depth fuel v q)
    unfolding search_loop
    search_loop-Best zero m v q a k = tt
    search_loop-Best (suc fuel) m v [] a k = λ t h two. absurd (
        ground (
          arith,
          ==_refl to,
          (near_reached nb from to (length t) 0 v [] k.start k.reached tt tt to t h (omega arith)).1
              two,
        ))
    search_loop-Best (suc fuel) m v ((c, path) ∷ q) a k =
        let n = length path in
        let chain' : IsChain n (n + 1) ((c, path) ∷ q) = (
          (omega arith, omega arith),
          IsChain-weaken n n (m + 1) (n + 1) q (omega arith) (omega (arith, k.chain.0.0)) k.chain.1,
        ) in
        let near =
          near_reached nb from to n (n + 1) v ((c, path) ∷ q) k.start k.reached k.minimal chain' in
        let beyond = longer n (λ t h l. (near to t h l).1) in
        elim (Bool-cases (leb depth (n - 1))) [
          | inl e ↦ rw e (
              Best-skip (search_loop nb to depth fuel v q)
                (skip_all fuel n (m + 1) v q (deep_lem depth n (PathTo-length a.0.0) e) k.chain.1)
                (λ t h two.
                  omega (arith, beyond t h two, deep_lem depth n (PathTo-length a.0.0) e)))
          | inr e ↦
              let far : Far nb from to c path v q n = λ x new p h.
                elim (Bool-cases (leb (length p) n)) [
                  | inl l ↦ absurd (ground (arith, new, (near x p h (leb→le (length p) n l)).0))
                  | inr l ↦ ground (arith, l)
                ] in
              let begin : Grown nb from to v q n v q = record {
                keeps = λ b h. h;
                fresh = λ b h. inl h;
                waits = λ b h. h;
                minimal = k.minimal.1;
                chain = chain'.1;
              } in
              let grows =
                expand-Grows nb from to c path v q n (nb c) v q far a.0.0 refl (λ x i. i) begin in
              let good =
                expand-GoodStep nb from to depth c path (nb c) v q a.0.0 (ground (arith, e))
                  (λ x i. i) a.1 in
              elim (Expanded-cases (expand to path (nb c) v q)) [
                | inl (p, x) ↦
                    let size = subst (Grows nb from to c path v q n (nb c) v) x grows in
                    rw (e, x) (λ t h two. omega (arith, beyond t h two, size))
                | inr (w, (r, x)) ↦
                    rw (e, x)
                      (search_loop-Best fuel n w r (subst (GoodStep nb from to depth) x good) (
                        Kept-next m c path v q w r k
                          (subst (Grows nb from to c path v q n (nb c) v) x grows)))
              ]
        ]

first_Kept :
    (nb : Str → List Str) (from to : Str) → Kept nb from to 1 (from ∷ []) ((from, from ∷ []) ∷ [])
unfolding member queued
first_Kept nb from to = record {
  start = ground (arith, ==_refl from);
  reached = λ b h. inl (ground (arith, h));
  minimal = (λ p t. PathTo-length t, tt);
  chain = ((omega arith, omega arith), tt);
}

find_path_bfs-Best :
    (g : GraphIndex) (from to : Str) (depth : ℕ)
    → Best (neighbors_of g) from to depth (find_path_bfs g from to depth)
unfolding find_path_bfs
find_path_bfs-Best g from to depth =
    search_loop-Best (neighbors_of g) from to depth (rounds g) 1 (from ∷ [])
      ((from, from ∷ []) ∷ []) ((PathTo.here, omega arith), tt)
      (first_Kept (neighbors_of g) from to)

-- If some path of at least one and at most max_depth edges leads from the first symbol to the second, the search
-- returns a path, and none is shorter.
pub find_path_bfs-shortest :
    (g : GraphIndex) (from to : Str) (depth : ℕ) (t : List Str)
    → PathTo (neighbors_of g) from to t
    → 2 ≤ length t
    → length t ≤ depth + 1
    → (p : List Str) × ((find_path_bfs g from to depth ≡ found p) × (length p ≤ length t))
find_path_bfs-shortest g from to depth t h two short =
    go (find_path_bfs g from to depth) (find_path_bfs-Best g from to depth)
      (find_path_bfs-ends g from to depth)
  where
    go :
        (x : Search)
        → Best (neighbors_of g) from to depth x
        → x ≢ out_of_fuel
        → (p : List Str) × ((x ≡ found p) × (length p ≤ length t))
    go out_of_fuel b e = absurd (e refl)
    go no_path b e = absurd (omega (arith, b t h two, short))
    go (found p) b e = (p, (refl, b t h two))
