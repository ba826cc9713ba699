-- ===== src/Graph/Query/Answers.antt =====
-- What the read operations of `InMemoryGraphIndex` answer.
use codegraph_mcp.Base.{
  ==_refl, Bool-cases, Dict, IsDistinct, IsDistinct-append, List, Str, [], add, ap, arith, get,
  get-put, get_or, if◌then◌else◌, inl, inr, map, member, member-add, member-append, member-sorted,
  member-union, nat_key, none, not, pair_key, put, refl, some, sorted, str, str_key, union, ◌&&◌,
  ◌++◌, ◌||◌, ◌∷◌, ◌≡◌,
}
use mathlib.Core.List.{map-append}
use codegraph_mcp.Graph.{GraphIndex, neighbors}
use codegraph_mcp.Graph.Edges.{linked}
use codegraph_mcp.Graph.Query.{
  get_edge_provenance, set_targets, set_callers, TestRow, get_tests_for, collect_tests,
  is_test_symbol, test_row,
}

get-set_targets :
    (a own : Str) (ts : List Str) (out : Dict Str Str)
    → get a (set_targets own ts out) ≡ (if member a ts then some own else get a out)
unfolding set_targets member
get-set_targets a own [] out = refl
get-set_targets a own (t ∷ ts) out =
    ground (arith, get-set_targets a own ts (put t own out), get-put t a own out)

get-set_callers :
    (a : Str) (g : GraphIndex) (cs : List Str) (out : Dict Str Str)
    → get a (set_callers g cs out)
      ≡ (if member a cs then some (get_or a (str "regex") g.edge_source) else get a out)
unfolding set_callers member
get-set_callers a g [] out = refl
get-set_callers a g (c ∷ cs) out =
    let own = get_or c (str "regex") g.edge_source in
    ground (arith, get-set_callers a g cs (put c own out), get-put c a own out)

-- `get_edge_provenance s` gives a caller or user of `s` that symbol's own provenance, any other
-- callee or used type of `s` the provenance of `s`, and no other symbol an entry.
pub get-get_edge_provenance :
    (g : GraphIndex) (s a : Str)
    → get a (get_edge_provenance g s) ≡ (
        if linked s a g.upstream || linked s a g.used_by
        then some (get_or a (str "regex") g.edge_source)
        else if linked s a g.downstream || linked s a g.uses
        then some (get_or s (str "regex") g.edge_source)
        else none)
unfolding get_edge_provenance get
get-get_edge_provenance g s a =
    let own = get_or s (str "regex") g.edge_source in
    let targets = union (neighbors s g.downstream) (neighbors s g.uses) in
    let callers = union (neighbors s g.upstream) (neighbors s g.used_by) in
    ground (
      arith,
      get-set_callers a g callers (set_targets own targets []),
      get-set_targets a own targets [],
      member-union a (neighbors s g.upstream) (neighbors s g.used_by),
      member-union a (neighbors s g.downstream) (neighbors s g.uses),
    )

abbrev ids : List TestRow → List Str
ids = map (λ r. r.symbol_id)

test_row-symbol_id : (g : GraphIndex) (r s : Str) → (test_row g r s).symbol_id ≡ s
unfolding test_row
test_row-symbol_id g r s = ground arith

-- What one loop finds: `seen` grows by exactly the rows.
member-collect_tests :
    (a : Str) (g : GraphIndex) (r : Str) (ss seen : List Str)
    → (member a (ids (collect_tests g r ss seen).0)
        ≡ ((member a ss && is_test_symbol g a) && not (member a seen)))
      × (member a (collect_tests g r ss seen).1
          ≡ (member a seen || (member a ss && is_test_symbol g a)))
unfolding collect_tests member
member-collect_tests a g r [] seen = ground arith
member-collect_tests a g r (s ∷ ss) seen =
    elim (Bool-cases (member s seen || not (is_test_symbol g s))) [
      | inl e ↦ rw e (ground (arith, member-collect_tests a g r ss seen))
      | inr e ↦ rw e (
          ground (
            arith,
            member-collect_tests a g r ss (add s seen),
            member-add a s seen,
            test_row-symbol_id g r s,
          ))
    ]

collect_tests-IsDistinct :
    (g : GraphIndex) (r : Str) (ss seen : List Str) → IsDistinct (ids (collect_tests g r ss seen).0)
unfolding collect_tests
collect_tests-IsDistinct g r [] seen = tt
collect_tests-IsDistinct g r (s ∷ ss) seen =
    elim (Bool-cases (member s seen || not (is_test_symbol g s))) [
      | inl e ↦ rw e (collect_tests-IsDistinct g r ss seen)
      | inr e ↦ rw e (
        ground (
          arith,
          member-collect_tests s g r ss (add s seen),
          member-add s s seen,
          test_row-symbol_id g r s,
          ==_refl s,
        ),
        collect_tests-IsDistinct g r ss (add s seen),
      )
    ]

abbrev called : GraphIndex → Str → List TestRow × List Str
called g s = collect_tests g (str "calls") (sorted (neighbors s g.upstream)) []

abbrev referred : GraphIndex → Str → List TestRow × List Str
referred g s =
    collect_tests g (str "type_reference") (sorted (neighbors s g.used_by)) (called g s).1

ids-get_tests_for :
    (g : GraphIndex) (s : Str)
    → ids (get_tests_for g s) ≡ ids (called g s).0 ++ ids (referred g s).0
unfolding get_tests_for
ids-get_tests_for g s = map-append (λ r. r.symbol_id) (called g s).0 (referred g s).0

-- `get_tests_for s` reports exactly the callers and users of `s` that the metadata marks as tests,
-- and none of them twice.
pub member-get_tests_for :
    (g : GraphIndex) (s : Str)
    → ((a : Str)
        → member a (ids (get_tests_for g s))
          ≡ (is_test_symbol g a && (linked s a g.upstream || linked s a g.used_by)))
      × IsDistinct (ids (get_tests_for g s))
unfolding member
member-get_tests_for g s =
    let calls =
      λ (a : Str). member-collect_tests a g (str "calls") (sorted (neighbors s g.upstream)) [] in
    let refs = λ (a : Str).
      member-collect_tests a g (str "type_reference") (sorted (neighbors s g.used_by))
        (called g s).1 in
    (
      λ a. ground (
        arith,
        ap (member a) (ids-get_tests_for g s),
        member-append a (ids (called g s).0) (ids (referred g s).0),
        calls a,
        refs a,
        member-sorted a (neighbors s g.upstream),
        member-sorted a (neighbors s g.used_by),
      ),
      rw ids-get_tests_for (
          IsDistinct-append (ids (called g s).0) (ids (referred g s).0)
            (collect_tests-IsDistinct g (str "calls") (sorted (neighbors s g.upstream)) [])
            (collect_tests-IsDistinct g (str "type_reference") (sorted (neighbors s g.used_by))
              (called g s).1)
            (λ a m. ground (arith, calls a, refs a))),
    )
