-- ===== src/GraphTools/Cycles.antt =====
-- Strongly connected components by Tarjan's algorithm, and the tools on cycles (`_sccs`, `get_crate_graph`,
-- `find_cycles`).
use codegraph_mcp.Base.{
  Bool, Dict, List, Option, Str, [], add, diff, false, get, get_or, has, if◌then◌else◌, keep, keys,
  leb, length, ltb, map, max, member, min, nat_key, none, not, pair_key, put, some, sorted, str_key,
  str_leb, strip, suc, take, true, zero, ℕ, ◌&&◌, ◌*◌, ◌++◌, ◌+◌, ◌==◌, ◌∷◌,
}
use codegraph_mcp.CrateGraph.{Crates, crate_edges}

abbrev pub Links : Type 0
Links = Dict Str (List Str)

-- `graph.setdefault(src, []).append(dst)`
unfoldable pub links_of : List (Str × Str) → Links → Links
links_of [] graph = graph
links_of ((a, b) ∷ edges) graph = links_of edges (put a (get_or a [] graph ++ (b ∷ [])) graph)

pub record Tarjan : Type 0 where
  pub counter : ℕ
  pub index : Dict Str ℕ
  pub lowlink : Dict Str ℕ
  pub on_stack : List Str
  pub stack : List Str
  pub sccs : List (List Str)

abbrev pub tarjan_start : Tarjan
tarjan_start = record {
  counter = 0;
  index = [];
  lowlink = [];
  on_stack = [];
  stack = [];
  sccs = [];
}

-- A node that has no index gets one; the top of the stack stands first.
unfoldable pub enter : Str → Tarjan → Tarjan
enter node t = if has node t.index then t else record t {
  counter = t.counter + 1;
  index = put node t.counter t.index;
  lowlink = put node t.counter t.lowlink;
  on_stack = add node t.on_stack;
  stack = node ∷ t.stack;
}

-- The loop over the successors: the one to go on with and those after it, if there is one
unfoldable pub scan : Links → Str → List Str → Tarjan → Option (Str × List Str) × Tarjan
scan graph node [] t = (none, t)
scan graph node (succ ∷ more) t =
    let skipped = scan graph node more t in
    let low = min (get_or node 0 t.lowlink) (get_or succ 0 t.index) in
    let lowered = scan graph node more (record t { lowlink = put node low t.lowlink }) in
    if not (has succ graph)
    then skipped
    else if not (has succ t.index)
    then (some (succ, more), t)
    else if member succ t.on_stack
    then lowered
    else skipped

-- The component down to the node, and what stays on the stack
unfoldable pub pop_component : Str → List Str → List Str × List Str
pop_component node [] = ([], [])
pop_component node (w ∷ stack) =
    let rest = pop_component node stack in
    if w == node then (w ∷ [], stack) else (w ∷ rest.0, rest.1)

-- A node without successors left: its low link goes to its parent, and its component is closed if it is a root.
unfoldable pub leave : ℕ → Str → List (Str × List Str) → Tarjan → Tarjan
unfolding pop_component
leave min_size node rest t =
    let low = get_or node 0 t.lowlink in
    let raised_low : Dict Str ℕ = elim rest [
      | [] ↦ t.lowlink
      | p ∷ ps ↦ put p.0 (min (get_or p.0 0 t.lowlink) low) t.lowlink
    ] in
    let closed = pop_component node t.stack in
    let kept =
      if leb (max min_size 2) (length closed.0) then t.sccs ++ (sorted closed.0 ∷ []) else t.sccs in
    if low == get_or node 0 t.index
    then record t {
      lowlink = raised_low;
      stack = closed.1;
      on_stack = diff t.on_stack closed.0;
      sccs = kept;
    }
    else record t { lowlink = raised_low }

-- The loop over the work list, its last entry first
unfoldable pub work_loop : ℕ → Links → ℕ → List (Str × List Str) → Tarjan → Tarjan
unfolding enter scan leave
work_loop min_size graph zero work t = t
work_loop min_size graph (suc fuel) [] t = t
work_loop min_size graph (suc fuel) ((node, it) ∷ rest) t =
    let s = scan graph node it (enter node t) in
    elim s.0 [
      | some next ↦
          work_loop min_size graph fuel ((next.0, get_or next.0 [] graph) ∷ (node, next.1) ∷ rest)
            s.1
      | none ↦ work_loop min_size graph fuel rest (leave min_size node rest s.1)
    ]

-- The loop over the roots; a node is pushed and popped once, which bounds the rounds.
unfoldable pub root_loop : ℕ → Links → List Str → Tarjan → Tarjan
unfolding work_loop
root_loop min_size graph [] t = t
root_loop min_size graph (root ∷ roots) t =
    let fuel = 2 * length graph + 1 in
    let searched = work_loop min_size graph fuel ((root, get_or root [] graph) ∷ []) t in
    root_loop min_size graph roots (if has root t.index then t else searched)

unfoldable pub sccs_of : List (Str × Str) → ℕ → List (List Str)
unfolding links_of root_loop
sccs_of edges min_size =
    let graph = links_of edges [] in (root_loop min_size graph (keys graph) tarjan_start).sccs

-- The edges within a component
unfoldable pub cycle_score : List (Str × Str) → List Str → ℕ
cycle_score edges comp = length (keep (λ e. member e.0 comp && member e.1 comp) edges)

-- The order of lists of texts
unfoldable pub list_leb : List Str → List Str → Bool
list_leb [] b = true
list_leb (x ∷ a) [] = false
list_leb (x ∷ a) (y ∷ b) = let rest = list_leb a b in if x == y then rest else str_leb x y

unfoldable pub ranks_before : List (Str × Str) → List Str → List Str → Bool
unfolding cycle_score list_leb
ranks_before edges a b =
    let m = cycle_score edges a in
    let n = cycle_score edges b in if m == n then list_leb a b else ltb n m

unfoldable pub insert_ranked : List (Str × Str) → List Str → List (List Str) → List (List Str)
unfolding ranks_before
insert_ranked edges c [] = c ∷ []
insert_ranked edges c (d ∷ ds) =
    let rest = insert_ranked edges c ds in if ranks_before edges c d then c ∷ d ∷ ds else d ∷ rest

unfoldable pub ranked : List (Str × Str) → List (List Str) → List (List Str)
unfolding insert_ranked
ranked edges [] = []
ranked edges (c ∷ cs) = insert_ranked edges c (ranked edges cs)

-- The number of the cycles, and those that are listed with the edges within
unfoldable pub find_cycles : List (Str × Str) → ℕ → ℕ → ℕ × List (List Str × ℕ)
unfolding sccs_of ranked cycle_score
find_cycles [] min_size limit = (0, [])
find_cycles (e ∷ edges) min_size limit =
    let found = ranked (e ∷ edges) (sccs_of (e ∷ edges) min_size) in
    (length found, map (λ c. (c, cycle_score (e ∷ edges) c)) (take (max 1 (min limit 30)) found))

pub data CrossRisk : Type 0 where
  leaf medium high : CrossRisk

unfoldable pub cross_crate_risk : ℕ → CrossRisk
cross_crate_risk n = if ltb 5 n then high else if ltb 0 n then medium else leaf

pub record CrateInfo : Type 0 where
  pub dependencies : List Str
  pub dependents : List Str
  pub risk : CrossRisk
  pub cycle_membership : List (List Str)

-- The answer for one crate: none for a crate that the graph lacks
unfoldable pub crate_info : Crates → Str → Option CrateInfo
unfolding cross_crate_risk sccs_of
crate_info graph crate = elim (get (strip crate) graph) [
  | none ↦ none
  | some c ↦ some (record {
    dependencies = c.dependencies;
    dependents = c.dependents;
    risk = cross_crate_risk (length c.dependents);
    cycle_membership = keep (λ g. member (strip crate) g) (sccs_of (crate_edges graph) 2);
  })
]
