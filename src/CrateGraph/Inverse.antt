-- ===== src/CrateGraph/Inverse.antt =====
-- The dependents of a crate are those that depend on it.
use codegraph_mcp.Base.{
  All, All-put, Bool, Bool-cases, Dict, IsDistinct, List, Option, Option-cases, Str, [], ap, arith,
  eq_of_==, false, get, get-put, has, inl, inr, keys, member, member-append, nat_key, none,
  pair_key, put-IsDistinct, refl, some, str_key, subst, sym, true, ◌&&◌, ◌++◌, ◌==◌, ◌||◌, ◌∙◌, ◌∷◌,
  ◌≡◌,
}
use codegraph_mcp.CrateGraph.{
  Spec, Manifest, Crate, Crates, append_dependent, link_deps, link_crates, read_members,
  crate_graph, workspace_specs,
}

unfoldable pub dependents_of : Str → Crates → List Str
dependents_of b g = elim (get b g) [ none ↦ [] | some c ↦ c.dependents ]

unfoldable pub dependencies_of : Str → Crates → List Str
dependencies_of b g = elim (get b g) [ none ↦ [] | some c ↦ c.dependencies ]

-- What linking leaves alone
abbrev Same : Crates → Crates → Type 0
Same g h = (b : Str) → (has b h ≡ has b g) × (dependencies_of b h ≡ dependencies_of b g)

get_same : (b dep : Str) (g : Crates) → (b == dep) ≡ true → get b g ≡ get dep g
get_same b dep g e = ap (λ t. get t g) (eq_of_== b dep e)

append-Same : (name dep : Str) (g : Crates) → Same g (append_dependent name dep g)
unfolding append_dependent has dependencies_of
append-Same name dep g b = elim (Option-cases (get dep g)) [
  | inl e ↦ rw (append_dependent, e) (refl, refl)
  | inr (c, e) ↦ elim (Bool-cases (b == dep)) [
    | inl f ↦
        rw
          (
            append_dependent,
            e,
            has,
            dependencies_of,
            get-put dep b (record c { dependents = c.dependents ++ (name ∷ []) }) g,
            f,
            get_same b dep g f,
            e,
          )
          (refl, refl)
    | inr f ↦
        rw
          (
            append_dependent,
            e,
            has,
            dependencies_of,
            get-put dep b (record c { dependents = c.dependents ++ (name ∷ []) }) g,
            f,
          )
          (refl, refl)
  ]
]

append-member :
    (a b name dep : Str) (g : Crates)
    → member a (dependents_of b (append_dependent name dep g))
      ≡ (member a (dependents_of b g) || (a == name && b == dep && has b g))
unfolding append_dependent has dependents_of member
append-member a b name dep g = elim (Option-cases (get dep g)) [
  | inl e ↦ elim (Bool-cases (b == dep)) [
    | inl f ↦ rw (append_dependent, e, dependents_of, has, get_same b dep g f, e) (ground arith)
    | inr f ↦ rw (append_dependent, e, f) (ground arith)
  ]
  | inr (c, e) ↦
      let new : Crate = record c { dependents = c.dependents ++ (name ∷ []) } in
      elim (Bool-cases (b == dep)) [
        | inl f ↦
            rw
              (
                append_dependent,
                e,
                dependents_of,
                has,
                get-put dep b new g,
                f,
                get_same b dep g f,
                e,
              )
              (ground (arith, member-append a c.dependents (name ∷ [])))
        | inr f ↦ rw (append_dependent, e, dependents_of, get-put dep b new g, f) (ground arith)
      ]
]

link_deps-Same : (name : Str) (deps : List Str) (g : Crates) → Same g (link_deps name deps g)
unfolding link_deps
link_deps-Same name [] g b = (refl, refl)
link_deps-Same name (dep ∷ deps) g b =
    let h = append_dependent name dep g in
    let one = append-Same name dep g b in
    let rest = link_deps-Same name deps h b in (rest.0 ∙ one.0, rest.1 ∙ one.1)

link_deps-member :
    (a b name : Str) (deps : List Str) (g : Crates)
    → member a (dependents_of b (link_deps name deps g))
      ≡ (member a (dependents_of b g) || (a == name && member b deps && has b g))
unfolding link_deps member
link_deps-member a b name [] g = ground arith
link_deps-member a b name (dep ∷ deps) g = ground (
  arith,
  link_deps-member a b name deps (append_dependent name dep g),
  append-member a b name dep g,
  (append-Same name dep g b).0,
)

-- Whether a crate of the list has a name and a dependency
depends : Str → Str → Crates → Bool
depends a b [] = false
depends a b ((n, c) ∷ rest) = (a == n && member b c.dependencies) || depends a b rest

link_crates-Same : (items g : Crates) → Same g (link_crates items g)
unfolding link_crates
link_crates-Same [] g b = (refl, refl)
link_crates-Same ((n, c) ∷ rest) g b =
    let one = link_deps-Same n c.dependencies g b in
    let more = link_crates-Same rest (link_deps n c.dependencies g) b in
    (more.0 ∙ one.0, more.1 ∙ one.1)

link_crates-member :
    (a b : Str) (items g : Crates)
    → member a (dependents_of b (link_crates items g))
      ≡ (member a (dependents_of b g) || (depends a b items && has b g))
unfolding link_crates depends
link_crates-member a b [] g = ground arith
link_crates-member a b ((n, c) ∷ rest) g = ground (
  arith,
  link_crates-member a b rest (link_deps n c.dependencies g),
  link_deps-member a b n c.dependencies g,
  (link_deps-Same n c.dependencies g b).0,
)

depends_absent : (a b : Str) (g : Crates) → member a (keys g) ≡ false → depends a b g ≡ false
unfolding depends member
depends_absent a b [] h = refl
depends_absent a b ((n, c) ∷ g) h = ground (arith, h, depends_absent a b g)

depends-dependencies_of :
    (a b : Str) (g : Crates) → IsDistinct (keys g) → depends a b g ≡ member b (dependencies_of a g)
unfolding depends dependencies_of get member
depends-dependencies_of a b [] h = refl
depends-dependencies_of a b ((n, c) ∷ g) h = elim (Bool-cases (a == n)) [
  | inl e ↦ ground (
    arith,
    e,
    depends_absent a b g (subst (λ t. member t (keys g) ≡ false) (sym (eq_of_== a n e)) h.0),
  )
  | inr e ↦ ground (arith, e, depends-dependencies_of a b g h.1)
]

-- A graph before its crates are linked
record Unlinked (g : Crates) : Type 0 where
  pub distinct : IsDistinct (keys g)
  pub bare : All (λ e. e.1.dependents ≡ []) g

bare-dependents_of :
    (b : Str) (g : Crates) → All (λ e. e.1.dependents ≡ []) g → dependents_of b g ≡ []
unfolding dependents_of get
bare-dependents_of b [] h = refl
bare-dependents_of b ((n, c) ∷ g) h = ground (arith, h.0, bare-dependents_of b g h.1)

module _ (load : Str → Option Manifest) (resolve : Str → Str → Str) where
  read_members-Unlinked :
      (workspace : Dict Str Spec) (root : Str) (paths : List Str) (g : Crates)
      → Unlinked g
      → Unlinked (read_members load resolve workspace root paths g)
  unfolding read_members
  read_members-Unlinked workspace root [] g u = u
  read_members-Unlinked workspace root (p ∷ paths) g u =
      elim (Option-cases (load (resolve root p))) [
        | inl e ↦ rw (read_members, e) (read_members-Unlinked workspace root paths g u)
        | inr (m, e) ↦
            rw (read_members, e)
              (read_members-Unlinked workspace root paths _ (record {
                distinct = put-IsDistinct _ _ g u.distinct;
                bare = All-put (λ c. c.dependents ≡ []) _ _ g refl u.bare;
              }))
      ]

linked_inverse :
    (a b : Str) (g : Crates)
    → Unlinked g
    → member a (dependents_of b (link_crates g g))
      ≡ (has b (link_crates g g) && member b (dependencies_of a (link_crates g g)))
unfolding member
linked_inverse a b g u = ground (
  arith,
  link_crates-member a b g g,
  (link_crates-Same g g b).0,
  (link_crates-Same g g a).1,
  depends-dependencies_of a b g u.distinct,
  bare-dependents_of b g u.bare,
)

-- In the graph of a workspace a crate is among the dependents of another exactly if that is a crate of the graph and
-- among its dependencies; so no two directions of the graph disagree.
pub dependents_of-crate_graph :
    (load : Str → Option Manifest) (resolve : Str → Str → Str) (root a b : Str)
    → member a (dependents_of b (crate_graph load resolve root)) ≡ (
        has b (crate_graph load resolve root)
        && member b (dependencies_of a (crate_graph load resolve root)))
unfolding crate_graph workspace_specs dependents_of has get member
dependents_of-crate_graph load resolve root a b = elim (Option-cases (load root)) [
  | inl e ↦ rw (crate_graph, e) refl
  | inr (m, e) ↦
      rw (crate_graph, e)
        (linked_inverse a b _ (
          read_members-Unlinked load resolve (workspace_specs m.workspace_dependencies) root
            m.members [] (record { distinct = tt; bare = tt })))
]
