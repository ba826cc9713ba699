-- ===== src/GraphTools/Path.antt =====
-- find_dependency_path over an in-memory index (`_find_path_bfs` and the branch that calls it).
pub mod Sound
pub mod Fuel
pub mod Waves
pub mod Shortest
use codegraph_mcp.Base.{
  ==_of_ne, ==_refl, All, All-append, All-get, All-keep, All-put, Bool, Bool-cases, Call, Dict,
  IsBelow, IsDistinct, IsDistinct-append, IsSorted, Key, List, List-cases, Option, Option-cases,
  Str, Str-discrete, [], add, add-IsDistinct, any, ap, arith, decimal, diff, digits, ends_with,
  eq_of_==, false, foldl, fun_ext, get, get-keep, get-map_values, get-pop, get-put, get_absent,
  get_or, has, has-put, if◌then◌else◌, inl, inr, insert_sorted, is_space, keep, keep-IsDistinct,
  keep-append, keys, keys-put, last_piece, leb, leb→le, length, length-append, length-keep-le,
  length-map, length-sorted, length-take-le, lstrip, ltb, ltb→lt, map, map_values, max, member,
  member-add, member-append, member-diff, member-sorted, member-union, min, nat_key, neg_part,
  negsuc, none, not, pair_discrete, pair_key, pop, pos, pos_part, put, put-IsDistinct, raised, refl,
  returned, rstrip, short_name, some, sorted, sorted-IsSorted, starts_with, str, str_key, str_leb,
  str_leb_total, str_leb_trans, strip, strip-strip, sub_ℕ, subst, suc, sym, take, true, union,
  unseen, unseen-le, unseen_drops, zero, ℕ, ℕ_discrete, ℤ, ◌%◌, ◌&&◌, ◌*◌, ◌++◌, ◌+◌, ◌-◌, ◌/◌, ◌<◌,
  ◌==◌, ◌||◌, ◌↔◌, ◌∙◌, ◌∷◌, ◌≡◌, ◌≢◌, ◌≤ℤ◌, ◌≤◌, ◌⊎◌,
}
use codegraph_mcp.Graph.{GraphIndex, has_symbol}
use codegraph_mcp.Graph.Query.{get_blast_radius}
use codegraph_mcp.Graph.Traverse.{rounds}

-- The deque: symbols with the path that led to them
abbrev pub Queue : Type 0
Queue = List (Str × List Str)

-- The loop over the neighbours of one symbol: the path it returns, or the set and the deque it leaves
pub data Expanded : Type 0 where
  arrived : List Str → Expanded
  going : List Str → Queue → Expanded

pub data Search : Type 0 where
  out_of_fuel no_path : Search
  found : List Str → Search

unfoldable pub expand : Str → List Str → List Str → List Str → Queue → Expanded
expand to path [] visited queue = going visited queue
expand to path (n ∷ ns) visited queue =
    let seen = expand to path ns visited queue in
    let fresh = expand to path ns (add n visited) (queue ++ ((n, path ++ (n ∷ [])) ∷ [])) in
    if n == to then arrived (path ++ (n ∷ [])) else if member n visited then seen else fresh

-- The loop over the deque; `nb` gives the neighbours of a symbol.
unfoldable pub search_loop : (Str → List Str) → Str → ℕ → ℕ → List Str → Queue → Search
search_loop nb to max_depth zero visited queue = out_of_fuel
search_loop nb to max_depth (suc fuel) visited [] = no_path
search_loop nb to max_depth (suc fuel) visited ((current, path) ∷ queue) =
    let skipped = search_loop nb to max_depth fuel visited queue in
    let met : Search = elim (expand to path (nb current) visited queue) [
      | arrived p ↦ found p
      | going v q ↦ search_loop nb to max_depth fuel v q
    ] in
    if leb max_depth (length path - 1) then skipped else met

unfoldable pub neighbors_of : GraphIndex → Str → List Str
neighbors_of g s =
    let n = get_blast_radius g s in n.upstream ++ (n.downstream ++ (n.used_by ++ n.uses))

unfoldable pub find_path_bfs : GraphIndex → Str → Str → ℕ → Search
find_path_bfs g from to max_depth =
    search_loop (neighbors_of g) to max_depth (rounds g) (from ∷ []) ((from, from ∷ []) ∷ [])

pub data PathReply : Type 0 where
  unknown_symbol : Str → PathReply
  not_found : PathReply
  path_found : ℕ → List Str → PathReply

-- A run out of fuel, which never happens, is given as one without a path.
unfoldable pub path_reply : Search → PathReply
path_reply out_of_fuel = not_found
path_reply no_path = not_found
path_reply (found p) = path_found (length p - 1) p

-- The depth is clamped to 1 to 10; a negative one is 0 here.
unfoldable pub find_dependency_path : GraphIndex → Str → Str → ℕ → PathReply
find_dependency_path g from to max_depth =
    if not (has_symbol from g)
    then unknown_symbol from
    else if not (has_symbol to g)
    then unknown_symbol to
    else path_reply (find_path_bfs g from to (max 1 (min max_depth 10)))
