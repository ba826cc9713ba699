-- ===== src/Builds/Active.antt =====
-- Which rows are active after each transaction.
use codegraph_mcp.Base.{
  Bool, Bool-cases, IsDistinct, List, Option, Option-cases, Str, [], ap, arith, inl, inr, keep,
  length, map, nat_key, not, pair_key, refl, some, str_key, subst, sym, true, ℕ, ◌&&◌, ◌+◌, ◌∙◌,
  ◌∷◌, ◌≡◌, ◌≤◌,
}
use codegraph_mcp.Builds.{
  Build, has_id, is_active, update_rows, completed, supersede, complete_build, latest,
  get_active_build, rolled, restored, restore_parent, rollback_build, get_build, can_roll_back,
  can_restore, given_parent,
}
use codegraph_mcp.Builds.Table.{
  map-update_rows, select_one-counts, ids, actives, IsTable, rows_with_id, get_build-select,
}

module _ {Score : Type 0} where
  -- After complete_build the active rows are the rows of that id, completed, and no others: so none, if
  -- the id is not in the table.
  pub actives-complete_build :
      (i : Str) (chunks nodes edges now later : ℕ) (rows : List (Build Score))
      → actives (complete_build i chunks nodes edges now later rows)
        ≡ map (completed now chunks nodes edges) (keep (has_id i) rows)
  unfolding complete_build update_rows
  actives-complete_build i chunks nodes edges now later [] = refl
  actives-complete_build i chunks nodes edges now later (b ∷ rows) =
      elim (Bool-cases (has_id i b)) [
        | inl e ↦ ground (arith, e, actives-complete_build i chunks nodes edges now later rows)
        | inr e ↦ elim (Bool-cases (is_active b)) [
          | inl a ↦ ground (arith, e, a, actives-complete_build i chunks nodes edges now later rows)
          | inr a ↦ ground (arith, e, a, actives-complete_build i chunks nodes edges now later rows)
        ]
      ]

  -- complete_build of a build of the table makes it the active one: get_active_build then returns it.
  pub get_active_build-complete_build :
      (i : Str) (chunks nodes edges now later : ℕ) (rows : List (Build Score)) (b : Build Score)
      → IsTable rows
      → get_build i rows ≡ some b
      → get_active_build (complete_build i chunks nodes edges now later rows)
        ≡ some (completed now chunks nodes edges b)
  unfolding get_active_build latest get_build
  get_active_build-complete_build i chunks nodes edges now later rows b t h = ap latest (
      actives-complete_build i chunks nodes edges now later rows
      ∙ ap (map (completed now chunks nodes edges)) (get_build-select i rows b t h))

  pub ids-complete_build :
      (i : Str) (chunks nodes edges now later : ℕ) (rows : List (Build Score))
      → ids (complete_build i chunks nodes edges now later rows) ≡ ids rows
  unfolding complete_build
  ids-complete_build i chunks nodes edges now later rows =
      map-update_rows (λ b. b.build_id) (λ b. is_active b && not (has_id i b)) (supersede later)
        (λ b. refl) (update_rows (has_id i) (completed now chunks nodes edges) rows)
      ∙ map-update_rows (λ b. b.build_id) (has_id i) (completed now chunks nodes edges) (λ b. refl)
          rows

  ids-update_rows :
      (p : Build Score → Bool) (f : Build Score → Build Score)
      → ((b : Build Score) → (f b).build_id ≡ b.build_id)
      → (rows : List (Build Score)) → ids (update_rows p f rows) ≡ ids rows
  ids-update_rows p f h rows = map-update_rows (λ b. b.build_id) p f h rows

  -- Rolling back takes away the active rows of the id.
  pub actives-rolled :
      (i reason : Str) (now : ℕ) (rows : List (Build Score))
      → length (actives (update_rows (has_id i) (rolled now reason) rows))
          + length (keep (λ b. is_active b && has_id i b) rows)
        ≡ length (actives rows)
  unfolding update_rows
  actives-rolled i reason now [] = refl
  actives-rolled i reason now (b ∷ rows) = elim (Bool-cases (has_id i b)) [
    | inl e ↦ elim (Bool-cases (is_active b)) [
      | inl a ↦ ground (arith, e, a, actives-rolled i reason now rows)
      | inr a ↦ ground (arith, e, a, actives-rolled i reason now rows)
    ]
    | inr e ↦ elim (Bool-cases (is_active b)) [
      | inl a ↦ ground (arith, e, a, actives-rolled i reason now rows)
      | inr a ↦ ground (arith, e, a, actives-rolled i reason now rows)
    ]
  ]

  -- Restoring makes at most the rows of the id active.
  pub actives-restored :
      (p : Str) (rows : List (Build Score))
      → length (actives (update_rows (has_id p) restored rows))
        ≤ length (actives rows) + length (keep (has_id p) rows)
  unfolding update_rows
  actives-restored p [] = ground arith
  actives-restored p (b ∷ rows) = elim (Bool-cases (has_id p b)) [
    | inl e ↦ elim (Bool-cases (is_active b)) [
      | inl a ↦ ground (arith, e, a, actives-restored p rows)
      | inr a ↦ ground (arith, e, a, actives-restored p rows)
    ]
    | inr e ↦ elim (Bool-cases (is_active b)) [
      | inl a ↦ ground (arith, e, a, actives-restored p rows)
      | inr a ↦ ground (arith, e, a, actives-restored p rows)
    ]
  ]

  -- A table of distinct ids with at most one active build.
  pub record IsRegistry (rows : List (Build Score)) : Type 0 where
    pub table : IsTable rows
    pub one_active : length (actives rows) ≤ 1

  restored-IsRegistry :
      (p : Str) (rows : List (Build Score))
      → IsTable rows
      → length (actives rows) ≡ 0
      → IsRegistry (update_rows (has_id p) restored rows)
  restored-IsRegistry p rows t z = record {
    table = subst IsDistinct (sym (ids-update_rows (has_id p) restored (λ b. refl) rows)) t;
    one_active = ground (arith, actives-restored p rows, rows_with_id p rows t);
  }

  restore_parent-IsRegistry :
      (parent : Option Str) (rows : List (Build Score))
      → IsTable rows
      → length (actives rows) ≡ 0
      → IsRegistry (restore_parent parent rows).1
  unfolding restore_parent
  restore_parent-IsRegistry parent rows t z = elim (Option-cases (given_parent parent)) [
    | inl e ↦ rw (restore_parent, e) (record { table = t; one_active = ground arith })
    | inr (p, e) ↦
        rw (restore_parent, e)
          (elim (Option-cases (get_build p rows)) [
            | inl f ↦ rw f (record { table = t; one_active = ground arith })
            | inr (b, f) ↦ rw f (elim (Bool-cases (can_restore b.status)) [
              | inl r ↦ rw r (restored-IsRegistry p rows t z)
              | inr r ↦ rw r (record { table = t; one_active = ground arith })
            ])
          ])
  ]

  -- Rolling back the active build keeps at most one build active.
  pub rollback_build-IsRegistry :
      (i reason : Str) (now : ℕ) (rows : List (Build Score)) (b : Build Score)
      → IsRegistry rows
      → get_build i rows ≡ some b
      → is_active b ≡ true
      → IsRegistry (rollback_build i reason now rows).1
  unfolding rollback_build get_build
  rollback_build-IsRegistry i reason now rows b r h a =
      let rows2 = update_rows (has_id i) (rolled now reason) rows in
      let none_left : length (actives rows2) ≡ 0 = ground (
        arith,
        actives-rolled i reason now rows,
        r.one_active,
        select_one-counts (has_id i) is_active rows b h a,
      ) in
      let table2 : IsTable rows2 =
        subst IsDistinct (sym (ids-update_rows (has_id i) (rolled now reason) (λ b. refl) rows))
          r.table in
      let can : can_roll_back b.status ≡ true = ground arith in
      rw (rollback_build, h)
        (rw can (restore_parent-IsRegistry b.parent_build_id rows2 table2 none_left))
