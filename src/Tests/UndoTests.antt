-- ===== src/Tests/UndoTests.antt =====
-- Rolling back the last build, with ℕ for the scores, the semantic index and the backends.
use codegraph_mcp.Base.{
  Option, Str, Str-discrete, [], arith, member, nat_key, none, pair_key, refl, some, str, str_key,
  ℕ, ℕ_discrete, ◌-◌, ◌∷◌, ◌≡◌,
}
use codegraph_mcp.Builds.{
  Build, new_row, completed, get_active_build, rollback_build, get_build, select_one, latest,
  update_rows, restore_parent,
}
use codegraph_mcp.Builds.Active.{IsRegistry}
use codegraph_mcp.Builds.LastBuild.{Served, no_parent_build, rollback_last_build}

abbrev only : Build ℕ
only = completed 2 10 20 30 (new_row (str "b1") (str "full") none none none [] [] 1 none)

abbrev served : Served ℕ ℕ ℕ
served = record {
  builds = only ∷ [];
  semantic = 5;
  graph = record { backend = 1; history = 0 ∷ [] };
}

abbrev collection : ℕ → ℕ × Option Str
collection n = (n - 1, some (str "old"))

-- Without a parent the answer is an error, and no build is active, though what is served stays.
no_parent_run :
    ((rollback_last_build collection [] 9 served).1 ≡ no_parent_build)
    × (get_active_build (rollback_last_build collection [] 9 served).0.builds ≡ none)
    × ((rollback_last_build collection [] 9 served).0.semantic ≡ 5)
unfolding rollback_last_build get_active_build rollback_build get_build select_one latest
    update_rows restore_parent Str-discrete ℕ_discrete
no_parent_run = (refl, refl, refl)

served-IsRegistry : IsRegistry served.builds
unfolding member ℕ_discrete
served-IsRegistry = record { table = (refl, tt); one_active = omega arith }
