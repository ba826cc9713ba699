-- ===== src/Graph/Traverse.antt =====
-- backend/app/rag/retrieval/graph.py: `InMemoryGraphIndex.traverse`.
pub mod Steps
pub mod Sound
use codegraph_mcp.Base.{
  ==_of_ne, ==_refl, All, All-append, All-keep, Bool, Bool-cases, Dict, IsBelow, IsDistinct,
  IsDistinct-append, IsSorted, Key, List, Option, Option-cases, Str, Str-discrete, [], add, any, ap,
  arith, diff, eq_of_==, false, foldl, fun_ext, get, get-map_values, get-pop, get-put, get_or, has,
  has-put, if◌then◌else◌, inl, inr, insert_sorted, keep, keep-append, keys, leb, leb→le, length,
  length-append, length-keep-le, length-map, length-sorted, length-take-le, ltb, ltb→lt, map,
  map_values, max, member, member-add, member-append, member-diff, member-sorted, member-union, min,
  nat_key, neg_part, negsuc, none, not, pair_discrete, pair_key, pop, pos, pos_part, put, refl,
  some, sorted, sorted-IsSorted, starts_with, str, str_key, str_leb, str_leb_total, str_leb_trans,
  sub_ℕ, subst, suc, sym, take, true, union, zero, ℕ, ℕ_discrete, ℤ, ◌%◌, ◌&&◌, ◌*◌, ◌++◌, ◌+◌, ◌-◌,
  ◌/◌, ◌<◌, ◌==◌, ◌||◌, ◌↔◌, ◌∙◌, ◌∷◌, ◌≡◌, ◌≢◌, ◌≤ℤ◌, ◌≤◌, ◌⊎◌,
}
use codegraph_mcp.Graph.{GraphIndex, Edges}
use codegraph_mcp.Graph.Query.{GraphNeighborhood, get_blast_radius, edge_total}

pub data Direction : Type 0 where
  up down : Direction

unfoldable pub Direction-discrete : Discrete Direction
Direction-discrete up up = yes refl
Direction-discrete down down = yes refl
Direction-discrete up down = no (λ e. cc)
Direction-discrete down up = no (λ e. cc)

instance abbrev pub direction_key : Key Direction
direction_key = record { decide_eq = Direction-discrete }

abbrev pub Visit : Type 0
Visit = Str × Direction

-- The local variables of `traverse`. `neighborhood` is unbound before its first assignment.
pub record Walk : Type 0 where
  pub visited : List Visit
  pub queue : List (Str × ℕ × Direction)
  pub neighborhoods : List GraphNeighborhood
  pub emitted : List Str
  pub neighborhood : Option GraphNeighborhood

abbrev pub forward : Direction → GraphNeighborhood → List Str
forward up n = n.upstream ++ n.used_by
forward down n = n.downstream ++ n.uses

-- `for adjacent in forward`
pub enqueue : ℕ → Direction → List Str → Walk → Walk
enqueue depth dir [] w = w
enqueue depth dir (a ∷ adjacent) w = enqueue depth dir adjacent (
    if member (a, dir) w.visited
    then w
    else record w { visited = (a, dir) ∷ w.visited; queue = w.queue ++ (a, depth, dir) ∷ [] })

-- `if current not in emitted`
pub emit : GraphIndex → Str → Walk → Walk
emit g current w = if member current w.emitted then w else record w {
  neighborhood = some (get_blast_radius g current);
  neighborhoods = w.neighborhoods ++ get_blast_radius g current ∷ [];
  emitted = w.emitted ++ current ∷ [];
}

-- The assignment in front of the inner loop: the variable keeps its value if `current` is emitted.
pub reuse : GraphIndex → Str → Walk → Option GraphNeighborhood
reuse g current w =
    if member current w.emitted then w.neighborhood else some (get_blast_radius g current)

-- One round of `while queue`, after the pop; `none` is a read of the unbound variable.
pub visit : GraphIndex → Str → ℕ → List Str → Str × ℕ × Direction → Walk → Option Walk
visit g symbol_id depth blocked (current, current_depth, dir) w =
    if member current blocked && not (current == symbol_id)
    then some w
    else if ltb current_depth depth
    then (elim (reuse g current (emit g current w)) [
      | none ↦ none
      | some n ↦ some (
          enqueue (current_depth + 1) dir (forward dir n)
            (record (emit g current w) { neighborhood = some n }))
    ])
    else some (emit g current w)

pub data Outcome : Type 0 where
  done : List GraphNeighborhood → Outcome
  value_error unbound_local out_of_fuel : Outcome

pub loop : GraphIndex → Str → ℕ → List Str → ℕ → Walk → Outcome
loop g s depth blocked zero w = elim w.queue [ [] ↦ done w.neighborhoods | _ ∷ _ ↦ out_of_fuel ]
loop g s depth blocked (suc fuel) w = elim w.queue [
  | [] ↦ done w.neighborhoods
  | item ∷ rest ↦ elim (visit g s depth blocked item (record w { queue = rest })) [
    | none ↦ unbound_local
    | some w' ↦ loop g s depth blocked fuel w'
  ]
]

abbrev pub start : Str → Walk
start s = record {
  visited = (s, up) ∷ (s, down) ∷ [];
  queue = (s, 0, up) ∷ (s, 0, down) ∷ [];
  neighborhoods = [];
  emitted = [];
  neighborhood = none;
}

-- Enough rounds for any walk: one for each entry of each set, and two for the start.
unfoldable pub rounds : GraphIndex → ℕ
rounds g =
    2
    + (edge_total g.upstream + edge_total g.used_by + (edge_total g.downstream + edge_total g.uses))

unfoldable pub traverse : GraphIndex → Str → ℕ → List Str → Outcome
unfolding loop visit emit reuse enqueue rounds edge_total
traverse g s depth blocked =
    if ltb depth 1 then value_error else loop g s depth blocked (rounds g) (start s)
