-- ===== src/Builds/Steps.antt =====
-- The registry under any sequence of its transactions, and a rollback after a build.
use codegraph_mcp.Base.{
  ==_refl, Bool-cases, IsDistinct, IsDistinct-append, List, Option, Option-cases, Str, [], ap,
  arith, eq_of_==, false, if◌then◌else◌, inl, inr, keep, keep-append, length-append, length-map,
  map, member, nat_key, none, not, pair_key, refl, some, str_key, subst, sym, true, ℕ, ℕ_discrete,
  ◌&&◌, ◌++◌, ◌==◌, ◌∙◌, ◌∷◌, ◌≡◌,
}
use codegraph_mcp.Builds.{
  Build, new_row, quality_of, Status, building, active, superseded, rolled_back, has_id, is_active,
  has_status, register_build, complete_build, update_quality_score, rollback_build, get_build,
  get_active_build, update_rows, select_one, latest, restored, rolled, completed, supersede,
  restore_parent, can_roll_back, can_restore, given_parent,
}
use codegraph_mcp.Builds.Table.{
  map-update_rows, ids, actives, IsTable, update_one, select_one-some, rows_with_id,
  length-keep-update_rows, select_one-update_rows, get_build-select,
}
use mathlib.Core.Option.{some-injective}
use mathlib.Core.List.{append-nil, map-append}
use codegraph_mcp.Builds.Active.{
  actives-complete_build, ids-complete_build, IsRegistry, rollback_build-IsRegistry,
}

status_cases :
    (s : Status)
    → has_status s building ≡ false
    → has_status s active ≡ false
    → can_restore s ≡ true
status_cases building h a = ground arith
status_cases active h a = ground arith
status_cases superseded h a = ground arith
status_cases rolled_back h a = ground arith

module _ {Score : Type 0} where
  -- One transaction; a rollback is one of the active build.
  pub data Step : List (Build Score) → List (Build Score) → Type 0 where
    register :
        (new kind : Str) (parent collection : Option Str) (gen : Option ℕ) (feedback : List Str)
        (meta : Str) (now : ℕ) (rows next : List (Build Score))
        → register_build new kind parent collection gen feedback meta now rows ≡ some next
        → Step rows next
    complete :
        (i : Str) (chunks nodes edges now later : ℕ) (rows : List (Build Score))
        → Step rows (complete_build i chunks nodes edges now later rows)
    score :
        (i : Str) (q : Score) (rows : List (Build Score))
        → Step rows (update_quality_score i q rows)
    rollback :
        (i reason : Str) (now : ℕ) (rows : List (Build Score)) (b : Build Score)
        → get_build i rows ≡ some b
        → is_active b ≡ true
        → Step rows (rollback_build i reason now rows).1

  pub data Reached : List (Build Score) → Type 0 where
    empty : Reached []
    step : {rows next : List (Build Score)} → Reached rows → Step rows next → Reached next

  select_one-absent :
      (i : Str) (rows : List (Build Score))
      → select_one (has_id i) rows ≡ none
      → member i (ids rows) ≡ false
  unfolding select_one member
  select_one-absent i [] h = refl
  select_one-absent i (b ∷ rows) h =
      ground (arith, select_one-absent i rows, eq_of_== i b.build_id, ==_refl i)

  added-IsRegistry :
      (rows : List (Build Score)) (b : Build Score)
      → IsRegistry rows
      → member b.build_id (ids rows) ≡ false
      → is_active b ≡ false
      → IsRegistry (rows ++ (b ∷ []))
  unfolding member
  added-IsRegistry rows b r m a = record {
    table = rw (map-append (λ c. c.build_id) rows (b ∷ [])) (
        IsDistinct-append (ids rows) (b.build_id ∷ []) r.table (refl, tt)
          (λ c e. ground (arith, eq_of_== c b.build_id)));
    one_active = ground (
      arith,
      keep-append is_active rows (b ∷ []),
      length-append (actives rows) [],
      r.one_active,
      append-nil (actives rows),
    );
  }

  register_build-IsRegistry :
      (new kind : Str) (parent collection : Option Str) (gen : Option ℕ) (feedback : List Str)
      (meta : Str) (now : ℕ) (rows next : List (Build Score))
      → register_build new kind parent collection gen feedback meta now rows ≡ some next
      → IsRegistry rows
      → IsRegistry next
  unfolding register_build get_build ℕ_discrete
  register_build-IsRegistry new kind parent collection gen feedback meta now rows next h r =
      elim (Option-cases (select_one (has_id new) rows)) [
        | inr (b, e) ↦ ground (arith, e, h)
        | inl e ↦ subst IsRegistry (some-injective _ next (ground (arith, e, h))) (
            added-IsRegistry rows
              (new_row new kind parent collection gen feedback meta now (quality_of parent rows)) r
              (select_one-absent new rows e) refl)
      ]

  update_quality_score-IsRegistry :
      (i : Str) (q : Score) (rows : List (Build Score))
      → IsRegistry rows
      → IsRegistry (update_quality_score i q rows)
  unfolding update_quality_score
  update_quality_score-IsRegistry i q rows r = record {
    table =
        subst IsDistinct
          (sym (
            map-update_rows (λ b. b.build_id) (has_id i) (λ b. record b { quality_score = some q })
              (λ b. refl) rows))
          r.table;
    one_active = ground (
      arith,
      r.one_active,
      length-keep-update_rows is_active (has_id i) (λ b. record b { quality_score = some q })
          (λ b. refl) rows,
    );
  }

  Step-IsRegistry :
      {rows next : List (Build Score)} → Step rows next → IsRegistry rows → IsRegistry next
  Step-IsRegistry (register new kind parent collection gen feedback meta now rows next h) r =
      register_build-IsRegistry new kind parent collection gen feedback meta now rows next h r
  Step-IsRegistry (complete i chunks nodes edges now later rows) r = record {
    table = subst IsDistinct (sym (ids-complete_build i chunks nodes edges now later rows)) r.table;
    one_active = ground (
      arith,
      actives-complete_build i chunks nodes edges now later rows,
      length-map (completed now chunks nodes edges) (keep (has_id i) rows),
      rows_with_id i rows r.table,
    );
  }
  Step-IsRegistry (score i q rows) r = update_quality_score-IsRegistry i q rows r
  Step-IsRegistry (rollback i reason now rows b h a) r =
      rollback_build-IsRegistry i reason now rows b r h a

  -- However the transactions follow each other, no two rows have one id and at most one build is active.
  pub Reached-IsRegistry : {rows : List (Build Score)} → Reached rows → IsRegistry rows
  Reached-IsRegistry empty = record { table = tt; one_active = omega arith }
  Reached-IsRegistry (step reached s) = Step-IsRegistry s (Reached-IsRegistry reached)

  -- The rows that a rollback straight after complete_build leaves active: those of the parent.
  actives-undone :
      (i p reason : Str) (chunks nodes edges now later last : ℕ) (rows : List (Build Score))
      → (i == p) ≡ false
      → actives (
          update_rows (has_id p) restored (
            update_rows
              (has_id i)
              (rolled last reason)
              (complete_build i chunks nodes edges now later rows)))
        ≡ map (λ b. restored (if is_active b then supersede later b else b)) (keep (has_id p) rows)
  unfolding complete_build update_rows
  actives-undone i p reason chunks nodes edges now later last [] h = refl
  actives-undone i p reason chunks nodes edges now later last (b ∷ rows) h =
      elim (Bool-cases (has_id i b)) [
        | inl e ↦ elim (Bool-cases (has_id p b)) [
          | inl f ↦
              ground
                (arith, e, f, h, eq_of_== b.build_id i, eq_of_== b.build_id p, ==_refl b.build_id)
          | inr f ↦
              ground
                (arith, e, f, h, actives-undone i p reason chunks nodes edges now later last rows)
        ]
        | inr e ↦ elim (Bool-cases (has_id p b)) [
          | inl f ↦ elim (Bool-cases (is_active b)) [
            | inl a ↦ ground (
              arith,
              e,
              f,
              a,
              h,
              actives-undone i p reason chunks nodes edges now later last rows,
            )
            | inr a ↦ ground (
              arith,
              e,
              f,
              a,
              h,
              actives-undone i p reason chunks nodes edges now later last rows,
            )
          ]
          | inr f ↦ elim (Bool-cases (is_active b)) [
            | inl a ↦ ground (
              arith,
              e,
              f,
              a,
              h,
              actives-undone i p reason chunks nodes edges now later last rows,
            )
            | inr a ↦ ground (
              arith,
              e,
              f,
              a,
              h,
              actives-undone i p reason chunks nodes edges now later last rows,
            )
          ]
        ]
      ]

  -- Reading a row after complete_build.
  read-complete_build :
      (i j : Str) (chunks nodes edges now later : ℕ) (rows : List (Build Score))
      → get_build j (complete_build i chunks nodes edges now later rows)
        ≡ update_one
            (λ b. is_active b && not (has_id i b))
            (supersede later)
            (update_one (has_id i) (completed now chunks nodes edges) (get_build j rows))
  unfolding get_build complete_build
  read-complete_build i j chunks nodes edges now later rows =
      select_one-update_rows (has_id j) (λ b. is_active b && not (has_id i b)) (supersede later)
        (λ b. refl) (update_rows (has_id i) (completed now chunks nodes edges) rows)
      ∙ ap (update_one (λ b. is_active b && not (has_id i b)) (supersede later)) (
          select_one-update_rows (has_id j) (has_id i) (completed now chunks nodes edges)
            (λ b. refl) rows)

  restorable :
      (later : ℕ) (a : Build Score)
      → has_status a.status building ≡ false
      → can_restore (if is_active a then supersede later a else a).status ≡ true
  restorable later a h = elim (Bool-cases (is_active a)) [
    | inl e ↦ ground (arith, e)
    | inr e ↦ ground (arith, e, status_cases a.status)
  ]

  rollback_build-restores :
      (i reason p : Str) (last : ℕ) (rows : List (Build Score)) (b a : Build Score)
      → get_build i rows ≡ some b
      → can_roll_back b.status ≡ true
      → given_parent b.parent_build_id ≡ some p
      → get_build p rows ≡ some a
      → (i == p) ≡ false
      → can_restore a.status ≡ true
      → (rollback_build i reason last rows).1
        ≡ update_rows (has_id p) restored (update_rows (has_id i) (rolled last reason) rows)
  unfolding rollback_build restore_parent get_build
  rollback_build-restores i reason p last rows b a hb can hp ha ne cr =
      let read : select_one (has_id p) (update_rows (has_id i) (rolled last reason) rows) ≡ some a =
        ground (
          arith,
          select_one-update_rows (has_id p) (has_id i) (rolled last reason) (λ b. refl) rows,
          ha,
          select_one-some (has_id p) rows a ha,
          eq_of_== a.build_id p,
          eq_of_== a.build_id i,
          ==_refl i,
          ne,
        ) in
      rw (rollback_build, hb, can, restore_parent, hp, read, cr) refl

  -- Rolling back right after complete_build undoes it for the readers: the parent of the build is the
  -- active build again, if the table has it and it was ever completed, with its superseded_at cleared.
  pub rollback_build-complete_build :
      (i reason : Str) (chunks nodes edges now later last : ℕ) (rows : List (Build Score))
      (b a : Build Score) (p : Str)
      → IsTable rows
      → get_build i rows ≡ some b
      → given_parent b.parent_build_id ≡ some p
      → get_build p rows ≡ some a
      → (i == p) ≡ false
      → has_status a.status building ≡ false
      → get_active_build
          (rollback_build i reason last (complete_build i chunks nodes edges now later rows)).1
        ≡ some (restored (if is_active a then supersede later a else a))
  unfolding get_active_build latest get_build
  rollback_build-complete_build i reason chunks nodes edges now later last rows b a p t hb hp ha ne
        st =
      let rows2 = complete_build i chunks nodes edges now later rows in
      let replaced : Build Score → Build Score =
        λ a. if is_active a then supersede later a else a in
      let found : get_build i rows2 ≡ some (completed now chunks nodes edges b) = ground (
        arith,
        read-complete_build i i chunks nodes edges now later rows,
        hb,
        select_one-some (has_id i) rows b hb,
      ) in
      let parent : get_build p rows2 ≡ some (replaced a) = ground (
        arith,
        read-complete_build i p chunks nodes edges now later rows,
        ha,
        select_one-some (has_id p) rows a ha,
        eq_of_== a.build_id p,
        eq_of_== a.build_id i,
        ==_refl i,
        ne,
      ) in
      let undone =
        rollback_build-restores i reason p last rows2 (completed now chunks nodes edges b)
          (replaced a) found (ground arith) hp parent ne (restorable later a st) in
      ap (λ l. latest (actives l)) undone
      ∙ ap latest (actives-undone i p reason chunks nodes edges now later last rows ne)
      ∙ ap (λ l. latest (map (λ b. restored (replaced b)) l)) (get_build-select p rows a t ha)
