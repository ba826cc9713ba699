-- ===== src/SystemOne/Lock.antt =====
-- The lock of the decision model: agent-facing decisions and background calls as threads over `_INTERNAL_LOCK` and
-- `_DECISION_WAITERS` (`_decision_acquire`, `interactive_waiters`, `_background_acquire` and their callers).
use codegraph_mcp.Base.{
  All, Bool, List, false, nat_key, pair_key, str_key, true, ℕ, ◌++◌, ◌+◌, ◌-◌, ◌∷◌, ◌≡◌,
}

-- Where a thread stands. A decision counts itself, gets the lock or runs into its timeout, uncounts itself in
-- `finally`, and releases; a background call yields, waits for the lock, and releases.
pub data Pc : Type 0 where
  decision_start decision_waits decision_got decision_late decision_holds : Pc
  background_yields background_waits background_holds done : Pc

pub record Model : Type 0 where
  pub waiters : ℕ
  pub lock : Bool
  pub threads : List Pc

unfoldable pub interactive_waiters : Model → ℕ
interactive_waiters m = m.waiters

-- What a thread does next: the waiters and the lock it meets, and those it leaves
pub data Move : ℕ → Bool → Pc → ℕ → Bool → Pc → Type 0 where
  count : (w : ℕ) (l : Bool) → Move w l decision_start (w + 1) l decision_waits
  acquire : (w : ℕ) → Move w false decision_waits w true decision_got
  uncount : (w : ℕ) (l : Bool) → Move w l decision_got (w - 1) l decision_holds
  give_up : (w : ℕ) (l : Bool) → Move w l decision_late (w - 1) l done
  release : (w : ℕ) (l : Bool) → Move w l decision_holds w false done
  yielded : (l : Bool) → Move 0 l background_yields 0 l background_waits
  take_lock : (w : ℕ) → Move w false background_waits w true background_holds
  give_back : (w : ℕ) (l : Bool) → Move w l background_holds w false done

-- The ends of the 100 seconds of a decision and of the 120 seconds of a yield
pub data Timeout : Pc → Pc → Type 0 where
  late : Timeout decision_waits decision_late
  yields_no_more : Timeout background_yields background_waits

pub data Step : Model → Model → Type 0 where
  move :
      {w v : ℕ} {l k : Bool} {p q : Pc}
      → (before after : List Pc) → Move w l p v k q
      → Step
          (record { waiters = w; lock = l; threads = before ++ (p ∷ after) })
          (record { waiters = v; lock = k; threads = before ++ (q ∷ after) })
  timeout :
      {w : ℕ} {l : Bool} {p q : Pc}
      → (before after : List Pc) → Timeout p q
      → Step
          (record { waiters = w; lock = l; threads = before ++ (p ∷ after) })
          (record { waiters = w; lock = l; threads = before ++ (q ∷ after) })

-- Any number of decisions and background calls, none of them begun
unfoldable pub is_start : Pc → Bool
is_start decision_start = true
is_start background_yields = true
is_start p = false

pub data Reach : Model → Type 0 where
  begin :
      (threads : List Pc)
      → All (λ p. is_start p ≡ true) threads
      → Reach (record { waiters = 0; lock = false; threads = threads })
  later : {m n : Model} → Reach m → Step m n → Reach n
