-- ===== src/GraphTools/Batch.antt =====
-- The combined impact of several symbols (`batch_blast_radius`). The blast radius of one symbol is a parameter: none
-- stands for an answer with an error.
use codegraph_mcp.Base.{
  Bool, Dict, List, Option, Str, [], diff, if◌then◌else◌, keep, map, nat_key, none, not, pair_key,
  put, some, str_key, union, ◌&&◌, ◌==◌, ◌∷◌,
}
use codegraph_mcp.Graph.Query.{GraphNeighborhood}
use codegraph_mcp.GraphTools.Risk.{Risk, compute_risk_score}

-- The four sets that the loop collects, and the names that it resolved
pub record Collected : Type 0 where
  pub upstream : List Str
  pub downstream : List Str
  pub used_by : List Str
  pub uses : List Str
  pub resolved : Dict Str Str

abbrev pub nothing_collected : Collected
nothing_collected = record {
  upstream = [];
  downstream = [];
  used_by = [];
  uses = [];
  resolved = [];
}

-- The symbols of one answer join the sets; empty ones are left out.
unfoldable pub join : List Str → List Str → List Str
join s targets = union s (keep (λ t. not (t == [])) targets)

unfoldable pub collect : GraphNeighborhood → Collected → Collected
unfolding join
collect n c = record c {
  upstream = join c.upstream n.upstream;
  downstream = join c.downstream n.downstream;
  used_by = join c.used_by n.used_by;
  uses = join c.uses n.uses;
}

pub record Impact : Type 0 where
  pub callers : List Str
  pub callees : List Str
  pub type_users : List Str
  pub types_used : List Str
  pub combined_risk_score : Risk

-- `known` is has_symbol; `search` gives the hits of a name without the noise.
module _ (known : Str → Bool) (search : Str → List Str)
    (radius : Str → Option GraphNeighborhood) where
  -- The symbol that a name stands for
  unfoldable pub resolved_name : Bool → Str → Option Str
  resolved_name resolve_names s =
      let hit : Option Str = elim (search s) [ [] ↦ none | h ∷ hs ↦ some h ] in
      if resolve_names && not (known s) then hit else none

  unfoldable pub collect_one : Bool → Str → Collected → Collected
  unfolding collect
  collect_one resolve_names s c =
      let named : Collected = elim (resolved_name resolve_names s) [
        | none ↦ c
        | some h ↦ record c { resolved = put s h c.resolved }
      ] in
      let symbol : Str = elim (resolved_name resolve_names s) [ none ↦ s | some h ↦ h ] in
      elim (radius symbol) [ none ↦ named | some n ↦ collect n named ]

  unfoldable pub collect_all : Bool → List Str → Collected → Collected
  collect_all resolve_names [] c = c
  collect_all resolve_names (s ∷ symbols) c =
      collect_all resolve_names symbols (collect_one resolve_names s c)

  -- The combined impact: without the symbols that are asked for and those that names resolve to
  unfoldable pub combined_impact : Bool → List Str → Impact
  combined_impact resolve_names symbols =
      let c = collect_all resolve_names symbols nothing_collected in
      let changed = union symbols (map (λ e. e.1) c.resolved) in
      let callers = diff c.upstream changed in
      let callees = diff c.downstream changed in
      let users = diff c.used_by changed in
      let used = diff c.uses changed in
      record {
        callers = callers;
        callees = callees;
        type_users = users;
        types_used = used;
        combined_risk_score = compute_risk_score callers callees users used;
      }
