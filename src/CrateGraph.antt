-- ===== src/CrateGraph.antt =====
-- The graph of the crates of a workspace (backend/app/rag/ingestion/crate_graph.py). The parser of TOML files and the
-- resolution of paths are parameters.
pub mod Inverse
use codegraph_mcp.Base.{
  ==_of_ne, ==_refl, All, All-append, All-get, All-keep, All-put, Bool, Bool-cases, Call, Dict,
  IsBelow, IsDistinct, IsDistinct-append, IsSorted, Key, List, List-cases, Option, Option-cases,
  Str, Str-discrete, [], add, add-IsDistinct, any, ap, arith, decimal, diff, digits, ends_with,
  eq_of_==, false, foldl, fun_ext, get, get-keep, get-map_values, get-pop, get-put, get_absent,
  get_or, has, has-put, if◌then◌else◌, inl, inr, insert_sorted, is_space, keep, keep-IsDistinct,
  keep-append, keys, keys-put, last_piece, leb, leb→le, length, length-append, length-keep-le,
  length-map, length-sorted, length-take-le, lstrip, ltb, ltb→lt, map, map_values, max, member,
  member-add, member-append, member-diff, member-sorted, member-union, min, nat_key, neg_part,
  negsuc, none, not, pair_discrete, pair_key, pop, pos, pos_part, put, put-IsDistinct, raised, refl,
  returned, rstrip, short_name, some, sorted, sorted-IsSorted, starts_with, str, str_key, str_leb,
  str_leb_total, str_leb_trans, strip, strip-strip, sub_ℕ, subst, suc, sym, take, true, union,
  unseen, unseen-le, unseen_drops, zero, ℕ, ℕ_discrete, ℤ, ◌%◌, ◌&&◌, ◌*◌, ◌++◌, ◌+◌, ◌-◌, ◌/◌, ◌<◌,
  ◌==◌, ◌||◌, ◌↔◌, ◌∙◌, ◌∷◌, ◌≡◌, ◌≢◌, ◌≤ℤ◌, ◌≤◌, ◌⊎◌,
}

-- A dependency: of the registry, by a path, or inherited from the workspace
pub data Spec : Type 0 where
  registry inherited : Spec
  at_path : Str → Spec

pub record Manifest : Type 0 where
  pub name : Str
  pub dependencies : Dict Str Spec
  pub dev_dependencies : Dict Str Spec
  pub members : List Str
  pub workspace_dependencies : Dict Str Spec

pub record Crate : Type 0 where
  pub path : Str
  pub manifest_dir : Str
  pub module_prefix : Str
  pub dependencies : List Str
  pub dependents : List Str

abbrev pub Crates : Type 0
Crates = Dict Str Crate

-- `pkg.get("name") or fallback`; a manifest without a name has the empty one.
unfoldable pub member_name : Manifest → Str → Str
member_name m fallback = if m.name == [] then fallback else m.name

-- The first `n` characters
unfoldable pub first_chars : ℕ → Str → Str
first_chars zero s = []
first_chars (suc n) [] = []
first_chars (suc n) (c ∷ s) = c ∷ first_chars n s

-- `replace("/", with)` of one character by a text
unfoldable pub replace_slash : Str → Str → Str
replace_slash with_text [] = []
replace_slash with_text (c ∷ s) =
    let rest = replace_slash with_text s in if c == 47 then with_text ++ rest else c ∷ rest

unfoldable pub module_prefix_of : Str → Str
module_prefix_of path =
    let kept = if ends_with (str "/src") path then first_chars (length path - 4) path else path in
    replace_slash (str "::") kept

-- `load` is the parse of the Cargo.toml of a directory, none for one that is missing, empty or refused; `resolve d p`
-- is the path p from the directory d.
module _ (load : Str → Option Manifest) (resolve : Str → Str → Str) where
  unfoldable pub name_for : Str → Str → Option Str
  unfolding member_name
  name_for dir fallback = elim (load dir) [ none ↦ none | some m ↦ some (member_name m fallback) ]

  -- The crate that one dependency names, if it is internal
  unfoldable pub dep_crate : Dict Str Spec → Str → Str → Str → Spec → Option Str
  dep_crate workspace crate_dir root dep registry = none
  dep_crate workspace crate_dir root dep (at_path p) = name_for (resolve crate_dir p) dep
  dep_crate workspace crate_dir root dep inherited = elim (get dep workspace) [
    | some (at_path p) ↦ name_for (resolve root p) dep
    | some registry ↦ none
    | some inherited ↦ none
    | none ↦ none
  ]

  -- The set of the names; a name that is empty is left out.
  unfoldable pub dep_names : Dict Str Spec → Str → Str → Dict Str Spec → List Str → List Str
  dep_names workspace crate_dir root [] names = names
  dep_names workspace crate_dir root ((dep, spec) ∷ deps) names =
      let found : List Str = elim (dep_crate workspace crate_dir root dep spec) [
        | none ↦ names
        | some n ↦ if n == [] then names else add n names
      ] in
      dep_names workspace crate_dir root deps found

  unfoldable pub path_deps : Manifest → Dict Str Spec → Str → Str → List Str
  path_deps m workspace crate_dir root = sorted (
      dep_names workspace crate_dir root m.dev_dependencies
        (dep_names workspace crate_dir root m.dependencies []))

  -- The first loop of load_crate_graph
  unfoldable pub read_members : Dict Str Spec → Str → List Str → Crates → Crates
  unfolding member_name module_prefix_of
  read_members workspace root [] graph = graph
  read_members workspace root (path ∷ paths) graph =
      let dir = resolve root path in
      read_members workspace root paths (elim (load dir) [
        | none ↦ graph
        | some m ↦
            put (member_name m (replace_slash (str "-") path))
              (record {
                path = path;
                manifest_dir = dir;
                module_prefix = module_prefix_of path;
                dependencies = path_deps m workspace dir root;
                dependents = [];
              })
              graph
      ])

-- `graph[dep]["dependents"].append(name)`, if the graph has the crate
unfoldable pub append_dependent : Str → Str → Crates → Crates
append_dependent name dep graph = elim (get dep graph) [
  | none ↦ graph
  | some c ↦ put dep (record c { dependents = c.dependents ++ (name ∷ []) }) graph
]

-- The second loop, over the crates and their dependencies
unfoldable pub link_deps : Str → List Str → Crates → Crates
link_deps name [] graph = graph
link_deps name (dep ∷ deps) graph = link_deps name deps (append_dependent name dep graph)

unfoldable pub link_crates : Crates → Crates → Crates
link_crates [] graph = graph
link_crates ((name, c) ∷ rest) graph = link_crates rest (link_deps name c.dependencies graph)

unfoldable pub workspace_specs : Dict Str Spec → Dict Str Spec
workspace_specs [] = []
workspace_specs ((a, registry) ∷ d) = workspace_specs d
workspace_specs ((a, inherited) ∷ d) = (a, inherited) ∷ workspace_specs d
workspace_specs ((a, at_path p) ∷ d) = (a, at_path p) ∷ workspace_specs d

-- The graph of the workspace in the directory `root`
unfoldable pub crate_graph : (Str → Option Manifest) → (Str → Str → Str) → Str → Crates
unfolding workspace_specs
crate_graph load resolve root = elim (load root) [
  | none ↦ []
  | some m ↦
      let graph =
        read_members load resolve (workspace_specs m.workspace_dependencies) root m.members [] in
      link_crates graph graph
]

-- `_CACHE`: the time of the graph and the graph, which is kept 600 seconds if it is not empty; the graph after the call
-- is that of the cache.
unfoldable pub load_crate_graph :
    ℕ → (Str → Option Manifest) → (Str → Str → Str) → Str → ℕ → ℕ × Crates → ℕ × Crates
load_crate_graph sec load resolve root now cache =
    if ltb (now - cache.0) (600 * sec) && ltb 0 (length cache.1)
    then cache
    else (now, crate_graph load resolve root)

-- Pairs in the order of Python's tuples
unfoldable pub pair_leb : Str × Str → Str × Str → Bool
pair_leb a b = if a.0 == b.0 then str_leb a.1 b.1 else str_leb a.0 b.0

unfoldable pub insert_edge : Str × Str → List (Str × Str) → List (Str × Str)
unfolding pair_leb
insert_edge e [] = e ∷ []
insert_edge e (f ∷ es) =
    let rest = insert_edge e es in if pair_leb e f then e ∷ f ∷ es else f ∷ rest

unfoldable pub has_edge : Str × Str → List (Str × Str) → Bool
has_edge e [] = false
has_edge e (f ∷ es) = (e.0 == f.0 && e.1 == f.1) || has_edge e es

-- The edges of one crate join the set, which is kept in order.
unfoldable pub add_edges : Crates → Str → List Str → List (Str × Str) → List (Str × Str)
unfolding insert_edge has_edge
add_edges graph name [] edges = edges
add_edges graph name (dep ∷ deps) edges =
    let new = has dep graph && not (dep == name) && not (has_edge (name, dep) edges) in
    add_edges graph name deps (if new then insert_edge (name, dep) edges else edges)

unfoldable pub edges_from : Crates → Crates → List (Str × Str) → List (Str × Str)
edges_from graph [] edges = edges
edges_from graph ((name, c) ∷ rest) edges =
    edges_from graph rest (add_edges graph name c.dependencies edges)

unfoldable pub crate_edges : Crates → List (Str × Str)
crate_edges graph = edges_from graph graph []
