-- ===== src/Gate/Lockout.antt =====
-- The lockout after failed attempts.
use codegraph_mcp.Base.{
  List, [], if◌then◌else◌, leb, ltb, nat_key, pair_key, str_key, ℕ, ◌&&◌, ◌*◌, ◌++◌, ◌+◌, ◌∷◌, ◌≤◌,
}
use codegraph_mcp.Gate.{is_rate_limited, window_sec}

-- The wrong guesses that are tried, of guesses of one client at the given times; the others meet the lockout.
unfoldable pub guesses : ℕ → List ℕ → List ℕ → List ℕ
guesses sec [] attempts = []
guesses sec (now ∷ times) attempts =
    let r = is_rate_limited sec now attempts in
    let tried = guesses sec times (r.0 ++ (now ∷ [])) in
    let met = guesses sec times r.0 in if r.1 then met else now ∷ tried

-- The times do not go back, from a start.
abbrev pub IsOrdered : ℕ → List ℕ → Type 0
IsOrdered start [] = Unit
IsOrdered start (t ∷ ts) = (start ≤ t) × IsOrdered t ts

-- How many of the times lie in the 60 seconds from `a` on, the last excluded.
abbrev pub count_in : ℕ → ℕ → List ℕ → ℕ
count_in sec a [] = 0
count_in sec a (t ∷ ts) =
    (if leb a t && ltb t (a + window_sec * sec) then 1 else 0) + count_in sec a ts
