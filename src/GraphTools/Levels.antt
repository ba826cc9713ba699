-- ===== src/GraphTools/Levels.antt =====
-- The hop levels of traverse_graph (`traverse_graph`), and its two shapes of answer.
pub mod Totals
use codegraph_mcp.Base.{
  ==_of_ne, ==_refl, All, All-append, All-get, All-keep, All-put, Bool, Bool-cases, Call, Dict,
  IsBelow, IsDistinct, IsDistinct-append, IsSorted, Key, List, List-cases, Option, Option-cases,
  Str, Str-discrete, [], add, add-IsDistinct, any, ap, arith, decimal, diff, digits, ends_with,
  eq_of_==, false, foldl, fun_ext, get, get-keep, get-map_values, get-pop, get-put, get_absent,
  get_or, has, has-put, if◌then◌else◌, inl, inr, insert_sorted, is_space, keep, keep-IsDistinct,
  keep-append, keys, keys-put, last_piece, leb, leb→le, length, length-append, length-keep-le,
  length-map, length-sorted, length-take-le, lstrip, ltb, ltb→lt, map, map_values, max, member,
  member-add, member-append, member-diff, member-sorted, member-union, min, nat_key, neg_part,
  negsuc, none, not, pair_discrete, pair_key, pop, pos, pos_part, put, put-IsDistinct, raised, refl,
  returned, rstrip, short_name, some, sorted, sorted-IsSorted, starts_with, str, str_key, str_leb,
  str_leb_total, str_leb_trans, strip, strip-strip, sub_ℕ, subst, suc, sym, take, true, union,
  unseen, unseen-le, unseen_drops, zero, ℕ, ℕ_discrete, ℤ, ◌%◌, ◌&&◌, ◌*◌, ◌++◌, ◌+◌, ◌-◌, ◌/◌, ◌<◌,
  ◌==◌, ◌||◌, ◌↔◌, ◌∙◌, ◌∷◌, ◌≡◌, ◌≢◌, ◌≤ℤ◌, ◌≤◌, ◌⊎◌,
}
use codegraph_mcp.Graph.Query.{GraphNeighborhood}

-- The four lists of a symbol
abbrev pub Adjacency : Type 0
Adjacency = Dict Str GraphNeighborhood

-- `adjacency[nb["symbol_id"]] = nb` for every neighborhood
unfoldable pub adjacency_of : List GraphNeighborhood → Adjacency → Adjacency
adjacency_of [] adjacency = adjacency
adjacency_of (n ∷ ns) adjacency = adjacency_of ns (put n.symbol_id n adjacency)

pub record Discoveries : Type 0 where
  pub upstream : ℕ
  pub downstream : ℕ
  pub used_by : ℕ
  pub uses : ℕ

pub record Level : Type 0 where
  pub hop : ℕ
  pub new_symbols : ℕ
  pub cumulative_reachable : ℕ
  pub discoveries : Discoveries

-- The targets that are not visited
unfoldable pub fresh_of : List Str → List Str → List Str
fresh_of visited targets = keep (λ t. not (member t visited)) targets

-- The fresh targets of one symbol join the next frontier.
unfoldable pub discover : Adjacency → List Str → Str → List Str → List Str
unfolding fresh_of
discover adjacency visited s next = elim (get s adjacency) [
  | none ↦ next
  | some n ↦
      union
        (union (union (union next (fresh_of visited n.upstream)) (fresh_of visited n.downstream))
          (fresh_of visited n.used_by))
        (fresh_of visited n.uses)
]

unfoldable pub count_discoveries : Adjacency → List Str → Str → Discoveries → Discoveries
unfolding fresh_of
count_discoveries adjacency visited s d = elim (get s adjacency) [
  | none ↦ d
  | some n ↦ record {
    upstream = d.upstream + length (fresh_of visited n.upstream);
    downstream = d.downstream + length (fresh_of visited n.downstream);
    used_by = d.used_by + length (fresh_of visited n.used_by);
    uses = d.uses + length (fresh_of visited n.uses);
  }
]

unfoldable pub next_frontier : Adjacency → List Str → List Str → List Str → List Str
unfolding discover
next_frontier adjacency visited [] next = next
next_frontier adjacency visited (s ∷ frontier) next =
    next_frontier adjacency visited frontier (discover adjacency visited s next)

unfoldable pub all_discoveries : Adjacency → List Str → List Str → Discoveries → Discoveries
unfolding count_discoveries
all_discoveries adjacency visited [] d = d
all_discoveries adjacency visited (s ∷ frontier) d =
    all_discoveries adjacency visited frontier (count_discoveries adjacency visited s d)

abbrev pub no_discoveries : Discoveries
no_discoveries = record { upstream = 0; downstream = 0; used_by = 0; uses = 0 }

-- The loop over the hops, `left` of them left: the levels, and the symbols visited at the end
unfoldable pub levels_from : Adjacency → ℕ → ℕ → List Str → List Str → List Level × List Str
unfolding next_frontier all_discoveries
levels_from adjacency hop zero frontier visited = ([], visited)
levels_from adjacency hop (suc left) frontier visited =
    let next = next_frontier adjacency visited frontier [] in
    let visited' = union visited next in
    let level : Level = record {
      hop = hop;
      new_symbols = length next;
      cumulative_reachable = length visited' - 1;
      discoveries = all_discoveries adjacency visited frontier no_discoveries;
    } in
    let rest = levels_from adjacency (hop + 1) left next visited' in
    if length next == 0 then (level ∷ [], visited') else (level ∷ rest.0, rest.1)

pub record Summary : Type 0 where
  pub symbols_visited : ℕ
  pub total_reachable_symbols : ℕ
  pub truncated : Bool
  pub summary : List Level

-- The answer with summary_only, from the neighborhoods of the traversal, of which at most 1000 are asked for
unfoldable pub summarize : Str → ℕ → List GraphNeighborhood → Summary
unfolding adjacency_of
summarize root depth ns =
    let r = levels_from (adjacency_of ns []) 1 depth (root ∷ []) (root ∷ []) in
    record {
      symbols_visited = length ns;
      total_reachable_symbols = length r.1 - 1;
      truncated = leb 1000 (length ns);
      summary = r.0;
    }

-- A neighborhood without the blocked symbols
unfoldable pub unblocked : List Str → GraphNeighborhood → GraphNeighborhood
unblocked blocked n = record n {
  upstream = diff n.upstream blocked;
  downstream = diff n.downstream blocked;
  used_by = diff n.used_by blocked;
  uses = diff n.uses blocked;
}

abbrev pub max_per_direction : ℕ
max_per_direction = 50

unfoldable pub capped : GraphNeighborhood → GraphNeighborhood
capped n = record n {
  upstream = take max_per_direction n.upstream;
  downstream = take max_per_direction n.downstream;
  used_by = take max_per_direction n.used_by;
  uses = take max_per_direction n.uses;
}

unfoldable pub gather : List GraphNeighborhood → List Str → List Str
gather [] all = all
gather (n ∷ ns) all =
    gather ns (union (union (union (union all n.upstream) n.downstream) n.used_by) n.uses)

pub record Shaped : Type 0 where
  pub symbols_visited : ℕ
  pub total_reachable_symbols : ℕ
  pub truncated : Bool
  pub neighborhoods : List GraphNeighborhood

-- The answer with the neighborhoods, of which at most 50 are asked for
unfoldable pub shape : List Str → List GraphNeighborhood → Shaped
unfolding unblocked capped gather
shape blocked ns =
    let shown = map (unblocked blocked) (take 50 ns) in
    record {
      symbols_visited = length ns;
      total_reachable_symbols = length (gather shown []);
      truncated = leb 50 (length ns);
      neighborhoods = map capped shown;
    }
