-- ===== src/Tests/BuildTests.antt =====
-- Two builds, the second a child of the first, with ℕ for the scores.
use codegraph_mcp.Base.{
  List, Str-discrete, [], if◌then◌else◌, member, nat_key, none, pair_key, refl, some, str, str_key,
  ℕ, ℕ_discrete, ◌∷◌, ◌≡◌,
}
use codegraph_mcp.Builds.{
  Build, active, superseded, rolled_back, new_row, completed, restored, supersede, is_active,
  register_build, complete_build, rollback_build, update_rows, get_build, get_active_build,
  select_one, restore_parent, count_status, quality_of,
}
use codegraph_mcp.Builds.Table.{IsTable}
use codegraph_mcp.Builds.Active.{IsRegistry}
use codegraph_mcp.Builds.Steps.{
  register, complete, Reached, empty, step, Reached-IsRegistry, rollback_build-complete_build,
}

abbrev first : Build ℕ
first = new_row (str "b1") (str "full") none none none [] [] 1 none

abbrev second : Build ℕ
second = new_row (str "b2") (str "full") (some (str "b1")) none none [] [] 3 none

abbrev first_done : Build ℕ
first_done = completed 2 10 20 30 first

abbrev table : List (Build ℕ)
table = first_done ∷ second ∷ []

table-IsTable : IsTable table
unfolding member Str-discrete
table-IsTable = (refl, (refl, tt))

rows_run :
    (count_status active (complete_build (str "b2") 1 2 3 4 5 table) ≡ 1)
    × (count_status superseded (complete_build (str "b2") 1 2 3 4 5 table) ≡ 1)
    × (count_status rolled_back
          (rollback_build (str "b2") [] 6 (complete_build (str "b2") 1 2 3 4 5 table)).1
        ≡ 1)
unfolding complete_build rollback_build update_rows select_one count_status restore_parent get_build
    Str-discrete ℕ_discrete
rows_run = (refl, refl, refl)

-- b3 follows b2, which follows b1; then b2, which is superseded, is rolled back.
abbrev third : Build ℕ
third = completed 6 0 0 0 (new_row (str "b3") (str "full") (some (str "b2")) none none [] [] 5 none)

abbrev chain : List (Build ℕ)
chain = supersede 3 first_done ∷ supersede 6 (completed 3 0 0 0 second) ∷ third ∷ []

-- Rolling back a build that is already superseded makes its parent active beside the newest build.
two_active : count_status active (rollback_build (str "b2") [] 7 chain).1 ≡ 2
unfolding rollback_build update_rows select_one count_status restore_parent get_build Str-discrete
    ℕ_discrete
two_active = refl

rollback_build-complete_build_example :
    get_active_build (rollback_build (str "b2") [] 6 (complete_build (str "b2") 1 2 3 4 5 table)).1
    ≡ some (restored (if is_active first_done then supersede 5 first_done else first_done))
unfolding get_build select_one Str-discrete ℕ_discrete
rollback_build-complete_build_example =
    rollback_build-complete_build (str "b2") [] 1 2 3 4 5 6 table second first_done (str "b1")
      table-IsTable refl refl refl refl refl

registered : register_build (str "b1") (str "full") none none none [] [] 1 [] ≡ some (first ∷ [])
unfolding register_build get_build select_one quality_of
registered = refl

reached : Reached (complete_build (str "b1") 10 20 30 2 2 (first ∷ []))
reached =
    step
      (step empty
        (register (str "b1") (str "full") none none none [] [] 1 [] (first ∷ []) registered))
      (complete (str "b1") 10 20 30 2 2 (first ∷ []))

Reached-IsRegistry_example : IsRegistry (complete_build (str "b1") 10 20 30 2 2 (first ∷ []))
Reached-IsRegistry_example = Reached-IsRegistry reached
