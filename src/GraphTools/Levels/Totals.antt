-- ===== src/GraphTools/Levels/Totals.antt =====
-- The counts of the hop levels add up.
use codegraph_mcp.Base.{
  ==_refl, Bool-cases, IsDistinct, List, Option-cases, Str, [], add, add-IsDistinct, arith, diff,
  eq_of_==, false, get, inl, inr, length, length-append, member, member-add, member-diff,
  member-union, nat_key, not, pair_key, str_key, subst, suc, true, union, zero, ℕ, ◌&&◌, ◌+◌, ◌-◌,
  ◌==◌, ◌∷◌, ◌≡◌, ◌≤◌,
}
use codegraph_mcp.Graph.Query.{GraphNeighborhood}
use codegraph_mcp.GraphTools.Levels.{
  Adjacency, Level, fresh_of, discover, next_frontier, levels_from, summarize, adjacency_of,
}

-- No symbol of the list is visited, and none stands in it twice.
record Apart (visited next : List Str) : Type 0 where
  pub apart : (a : Str) → member a next ≡ true → member a visited ≡ false
  pub distinct : IsDistinct next

member-fresh_of :
    (a : Str) (visited ts : List Str)
    → member a (fresh_of visited ts) ≡ (member a ts && not (member a visited))
unfolding fresh_of diff
member-fresh_of a visited ts = member-diff a ts visited

nothing : (a : Str) (visited : List Str) → member a [] ≡ true → member a visited ≡ false
unfolding member
nothing a visited h = absurd (ground (arith, h))

union-IsDistinct : (s xs : List Str) → IsDistinct s → IsDistinct (union s xs)
unfolding union
union-IsDistinct s [] h = h
union-IsDistinct s (x ∷ xs) h = union-IsDistinct (add x s) xs (add-IsDistinct x s h)

union-Apart :
    (visited next ts : List Str)
    → Apart visited next
    → Apart visited (union next (fresh_of visited ts))
union-Apart visited next ts h = record {
  apart = λ a i. ground (
    arith,
    i,
    h.apart a,
    member-union a next (fresh_of visited ts),
    member-fresh_of a visited ts,
  );
  distinct = union-IsDistinct next (fresh_of visited ts) h.distinct;
}

discover-Apart :
    (adjacency : Adjacency) (visited : List Str) (s : Str) (next : List Str)
    → Apart visited next
    → Apart visited (discover adjacency visited s next)
unfolding discover
discover-Apart adjacency visited s next h = elim (Option-cases (get s adjacency)) [
  | inl e ↦ rw (discover, e) h
  | inr (n, e) ↦
      rw (discover, e)
        (union-Apart visited _ n.uses (
          union-Apart visited _ n.used_by
            (union-Apart visited _ n.downstream (union-Apart visited next n.upstream h))))
]

next_frontier-Apart :
    (adjacency : Adjacency) (visited frontier next : List Str)
    → Apart visited next
    → Apart visited (next_frontier adjacency visited frontier next)
unfolding next_frontier
next_frontier-Apart adjacency visited [] next h = h
next_frontier-Apart adjacency visited (s ∷ frontier) next h =
    next_frontier-Apart adjacency visited frontier (discover adjacency visited s next)
      (discover-Apart adjacency visited s next h)

length-add : (x : Str) (s : List Str) → member x s ≡ false → length (add x s) ≡ length s + 1
unfolding add
length-add x s h = rw h (length-append s (x ∷ []))

length-union :
    (visited next : List Str)
    → Apart visited next
    → length (union visited next) ≡ length visited + length next
unfolding union member
length-union visited [] h = omega arith
length-union visited (x ∷ next) h =
    let out : member x visited ≡ false = h.apart x (ground (arith, ==_refl x)) in
    omega (
      arith,
      length-add x visited out,
      length-union (add x visited) next (record {
        apart = λ a i. elim (Bool-cases (a == x)) [
          | inl e ↦
              absurd
                (ground (arith, h.distinct.0, subst (λ t. member t next ≡ true) (eq_of_== a x e) i))
          | inr e ↦ ground (arith, e, h.apart a (ground (arith, i)), member-add a x visited)
        ];
        distinct = h.distinct.1;
      }),
    )

-- The symbols that the levels count as new
unfoldable pub total : List Level → ℕ
total [] = 0
total (l ∷ ls) = l.new_symbols + total ls

-- The levels are cumulative from a number on: each has the new symbols more than the one before it.
abbrev pub IsCumulative : ℕ → List Level → Type 0
IsCumulative n [] = Unit {0}
IsCumulative n (l ∷ ls) =
    (l.cumulative_reachable ≡ n + l.new_symbols) × IsCumulative l.cumulative_reachable ls

levels_from-counts :
    (adjacency : Adjacency) (hop left : ℕ) (frontier visited : List Str)
    → 1 ≤ length visited
    → (length (levels_from adjacency hop left frontier visited).1
        ≡ length visited + total (levels_from adjacency hop left frontier visited).0)
      × IsCumulative (length visited - 1) (levels_from adjacency hop left frontier visited).0
unfolding levels_from total
levels_from-counts adjacency hop zero frontier visited h = (omega arith, tt)
levels_from-counts adjacency hop (suc left) frontier visited h =
    let next = next_frontier adjacency visited frontier [] in
    let size = length-union visited next (
      next_frontier-Apart adjacency visited frontier []
        (record { apart = λ a i. nothing a visited i; distinct = tt })) in
    let rest =
      levels_from-counts adjacency (hop + 1) left next (union visited next)
        (omega (arith, h, size)) in
    elim (Bool-cases (length next == 0)) [
      | inl e ↦ rw e (omega (arith, size), (omega (arith, h, size), tt))
      | inr e ↦ rw e (omega (arith, size, rest.0), (omega (arith, h, size), rest.1))
    ]

-- In the summary of traverse_graph the levels add up: the new symbols of all hops are the symbols reachable, and each
-- level has as many reachable as the one before and its own new ones, so that no symbol counts at two hops.
pub summarize-counts :
    (root : Str) (depth : ℕ) (ns : List GraphNeighborhood)
    → ((summarize root depth ns).total_reachable_symbols ≡ total (summarize root depth ns).summary)
      × IsCumulative 0 (summarize root depth ns).summary
unfolding summarize
summarize-counts root depth ns =
    let r = levels_from-counts (adjacency_of ns []) 1 depth (root ∷ []) (root ∷ []) (omega arith) in
    (omega (arith, r.0), r.1)
