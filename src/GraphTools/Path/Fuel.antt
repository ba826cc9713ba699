-- ===== src/GraphTools/Path/Fuel.antt =====
-- The search for a path ends within its rounds.
use codegraph_mcp.Base.{
  ==_refl, Bool-cases, List, Str, [], add, arith, inl, inr, leb, length, length-append, member,
  member-append, member-sorted, nat_key, pair_key, refl, str_key, suc, true, unseen, unseen-le,
  unseen_drops, zero, ℕ, ◌++◌, ◌+◌, ◌-◌, ◌<◌, ◌==◌, ◌∷◌, ◌≡◌, ◌≢◌, ◌≤◌, ◌⊎◌,
}
use codegraph_mcp.Graph.{GraphIndex, neighbors}
use codegraph_mcp.Graph.Query.{get_blast_radius}
use codegraph_mcp.Graph.Traverse.{rounds}
use codegraph_mcp.Graph.Traverse.Steps.{values, length-values, member-values}
use codegraph_mcp.GraphTools.Path.{
  Queue, Expanded, arrived, going, out_of_fuel, expand, search_loop, neighbors_of, find_path_bfs,
}

-- All members of the first list are in the second.
abbrev Within : List Str → List Str → Type 0
Within xs u = (a : Str) → member a xs ≡ true → member a u ≡ true

-- The work that is left: the deque, and what no path has reached
abbrev work : List Str → List Str → Queue → ℕ
work u visited queue = length queue + unseen u visited

arrived_ne : (p v : List Str) (q : Queue) → arrived p ≢ going v q
arrived_ne p v q e = ground (arith, e)

pub Expanded-cases :
    (x : Expanded)
    → ((p : List Str) × (x ≡ arrived p)) ⊎ ((v : List Str) × ((q : Queue) × (x ≡ going v q)))
Expanded-cases (arrived p) = inl (p, refl)
Expanded-cases (going v q) = inr (v, (q, refl))

expand-work :
    (u : List Str) (to : Str) (path ns visited : List Str) (queue : Queue)
    → Within ns u
    → (v : List Str) (q : Queue) → expand to path ns visited queue ≡ going v q
    → work u v q ≤ work u visited queue
unfolding expand member
expand-work u to path [] visited queue h v q e = ground (arith, e)
expand-work u to path (n ∷ ns) visited queue h v q e = elim (Bool-cases (n == to)) [
  | inl a ↦ absurd (arrived_ne (path ++ (n ∷ [])) v q (ground (arith, e, a)))
  | inr a ↦ elim (Bool-cases (member n visited)) [
    | inl m ↦
        expand-work u to path ns visited queue (λ b k. h b (ground (arith, k))) v q
          (ground (arith, e, a, m))
    | inr m ↦ omega (
      arith,
      unseen_drops n u visited (h n (ground (arith, ==_refl n))) m,
      length-append queue ((n, path ++ (n ∷ [])) ∷ []),
      expand-work u to path ns (add n visited) (queue ++ ((n, path ++ (n ∷ [])) ∷ []))
          (λ b k. h b (ground (arith, k))) v q (ground (arith, e, a, m)),
    )
  ]
]

search_loop-ends :
    (nb : Str → List Str) (u : List Str) (to : Str) (depth fuel : ℕ) (visited : List Str)
    (queue : Queue)
    → ((s : Str) → Within (nb s) u)
    → work u visited queue < fuel
    → search_loop nb to depth fuel visited queue ≢ out_of_fuel
unfolding search_loop
search_loop-ends nb u to depth zero visited queue h k = absurd (omega (arith, k))
search_loop-ends nb u to depth (suc fuel) visited [] h k = λ e. ground (arith, e)
search_loop-ends nb u to depth (suc fuel) visited ((c, path) ∷ queue) h k =
    elim (Bool-cases (leb depth (length path - 1))) [
      | inl a ↦ rw a (search_loop-ends nb u to depth fuel visited queue h (omega (arith, k)))
      | inr a ↦ elim (Expanded-cases (expand to path (nb c) visited queue)) [
        | inl (p, e) ↦ rw (a, e) (λ w. ground (arith, w))
        | inr (v, (q, e)) ↦
            rw (a, e)
              (search_loop-ends nb u to depth fuel v q h
                (omega (arith, k, expand-work u to path (nb c) visited queue (h c) v q e)))
      ]
    ]

abbrev universe : GraphIndex → List Str
universe g = values g.upstream ++ (values g.downstream ++ (values g.used_by ++ values g.uses))

length-universe : (g : GraphIndex) → length (universe g) + 2 ≡ rounds g
unfolding rounds
length-universe g = omega (
  arith,
  length-append (values g.upstream) (values g.downstream ++ (values g.used_by ++ values g.uses)),
  length-append (values g.downstream) (values g.used_by ++ values g.uses),
  length-append (values g.used_by) (values g.uses),
  length-values g.upstream,
  length-values g.downstream,
  length-values g.used_by,
  length-values g.uses,
)

neighbors_of-Within : (g : GraphIndex) (s : Str) → Within (neighbors_of g s) (universe g)
unfolding neighbors_of get_blast_radius
neighbors_of-Within g s a h =
    let n = get_blast_radius g s in
    ground (
      arith,
      h,
      member-append a n.upstream (n.downstream ++ (n.used_by ++ n.uses)),
      member-append a n.downstream (n.used_by ++ n.uses),
      member-append a n.used_by n.uses,
      member-sorted a (neighbors s g.upstream),
      member-sorted a (neighbors s g.downstream),
      member-sorted a (neighbors s g.used_by),
      member-sorted a (neighbors s g.uses),
      member-append a (values g.upstream)
          (values g.downstream ++ (values g.used_by ++ values g.uses)),
      member-append a (values g.downstream) (values g.used_by ++ values g.uses),
      member-append a (values g.used_by) (values g.uses),
      member-values s a g.upstream,
      member-values s a g.downstream,
      member-values s a g.used_by,
      member-values s a g.uses,
    )

-- The search for a path ends for every index, with the rounds that it is given: one for each entry of each set of
-- neighbours, and two more.
pub find_path_bfs-ends :
    (g : GraphIndex) (from to : Str) (depth : ℕ) → find_path_bfs g from to depth ≢ out_of_fuel
unfolding find_path_bfs
find_path_bfs-ends g from to depth =
    search_loop-ends (neighbors_of g) (universe g) to depth (rounds g) (from ∷ [])
      ((from, from ∷ []) ∷ []) (neighbors_of-Within g)
      (omega (arith, unseen-le (universe g) (from ∷ []), length-universe g))
