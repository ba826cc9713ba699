-- ===== src/Builds/Undone.antt =====
-- The registry after rollback_last_build.
use codegraph_mcp.Base.{
  ==_refl, Bool-cases, List, Option, Option-cases, Str, [], ap, arith, eq_of_==, inl, inr, keep,
  member, nat_key, pair_key, some, str_key, subst, true, ℕ, ◌∷◌, ◌≡◌, ◌⊎◌,
}
use mathlib.Core.Option.{some-injective}
use codegraph_mcp.Builds.{
  Build, is_active, has_id, latest, get_active_build, get_build, select_one, comes_after,
  rollback_build,
}
use codegraph_mcp.Builds.Table.{ids, IsTable}
use codegraph_mcp.Builds.Active.{IsRegistry, rollback_build-IsRegistry}
use codegraph_mcp.Builds.LastBuild.{Served, rollback_last_build}

module _ {Score : Type 0} where
  abbrev In : Build Score → List (Build Score) → Type 0
  In b [] = ⊥
  In b (c ∷ cs) = (c ≡ b) ⊎ In b cs

  latest-In : (b : Build Score) (bs : List (Build Score)) → latest bs ≡ some b → In b bs
  unfolding latest
  latest-In b [] h = ground (arith, h)
  latest-In b (c ∷ cs) h = elim (Option-cases (latest cs)) [
    | inl e ↦ inl (some-injective c b (ground (arith, e, h)))
    | inr (d, e) ↦ elim (Bool-cases (comes_after c.completed_at d.completed_at)) [
      | inl f ↦ inr (latest-In b cs (ground (arith, e, f, h)))
      | inr f ↦ inl (some-injective c b (ground (arith, e, f, h)))
    ]
  ]

  from_head :
      (b c : Build Score) (kept cs : List (Build Score))
      → (In b kept → In b cs × (is_active b ≡ true))
      → is_active c ≡ true
      → In b (c ∷ kept)
      → In b (c ∷ cs) × (is_active b ≡ true)
  from_head b c kept cs ih e (inl p) = (inl p, subst (λ x. is_active x ≡ true) p e)
  from_head b c kept cs ih e (inr q) = (inr (ih q).0, (ih q).1)

  kept-In :
      (b : Build Score) (bs : List (Build Score))
      → In b (keep is_active bs)
      → In b bs × (is_active b ≡ true)
  kept-In b [] h = absurd h
  kept-In b (c ∷ cs) h = elim (Bool-cases (is_active c)) [
    | inl e ↦
        from_head b c (keep is_active cs) cs (kept-In b cs) e
          (subst (In b) {y = c ∷ keep is_active cs} (ground (arith, e)) h)
    | inr e ↦
        let tail = kept-In b cs (subst (In b) {y = keep is_active cs} (ground (arith, e)) h) in
        (inr tail.0, tail.1)
  ]

  In-member :
      (b : Build Score) (bs : List (Build Score)) → In b bs → member b.build_id (ids bs) ≡ true
  unfolding member
  In-member b [] h = absurd h
  In-member b (c ∷ cs) (inl p) =
      ground (arith, ap (λ (x : Build Score). x.build_id) p, ==_refl b.build_id)
  In-member b (c ∷ cs) (inr q) = ground (arith, In-member b cs q)

  read-In :
      (b : Build Score) (bs : List (Build Score))
      → IsTable bs
      → In b bs
      → select_one (has_id b.build_id) bs ≡ some b
  unfolding select_one
  read-In b [] t h = absurd h
  read-In b (c ∷ cs) t (inl p) =
      ground (arith, p, ap (λ (x : Build Score). x.build_id) p, ==_refl b.build_id)
  read-In b (c ∷ cs) t (inr q) =
      ground (arith, read-In b cs t.1 q, In-member b cs q, eq_of_== c.build_id b.build_id, t.0)

  -- rollback_last_build, whatever it answers, keeps the build ids distinct and at most one build active.
  pub rollback_last_build-IsRegistry :
      {Semantic Backend : Type 0} (collection : Semantic → Semantic × Option Str) (reason : Str)
      (now : ℕ) (s : Served Score Semantic Backend)
      → IsRegistry s.builds
      → IsRegistry (rollback_last_build collection reason now s).0.builds
  unfolding rollback_last_build get_active_build get_build
  rollback_last_build-IsRegistry collection reason now s r =
      elim (Option-cases (get_active_build s.builds)) [
        | inl e ↦ rw (rollback_last_build, e) r
        | inr (b, e) ↦
            let found = kept-In b s.builds (latest-In b (keep is_active s.builds) e) in
            let kept =
              rollback_build-IsRegistry b.build_id reason now s.builds b r
                (read-In b s.builds r.table found.0) found.1 in
            rw (rollback_last_build, e)
              (elim (Option-cases (rollback_build b.build_id reason now s.builds).0) [
                | inl f ↦ rw f kept
                | inr (p, f) ↦ rw f kept
              ])
      ]
