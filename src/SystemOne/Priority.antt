-- ===== src/SystemOne/Priority.antt =====
-- The count of the waiters, mutual exclusion and progress of the lock of the decision model.
use codegraph_mcp.Base.{
  All, Bool, Bool-cases, List, [], ap, arith, false, if◌then◌else◌, inl, inr, nat_key, not,
  pair_key, refl, str_key, suc, sym, true, zero, ℕ, ◌++◌, ◌+◌, ◌-◌, ◌∙◌, ◌∷◌, ◌≡◌, ◌≤◌,
}
use codegraph_mcp.SystemOne.Lock.{
  Pc, decision_start, decision_waits, decision_got, decision_late, decision_holds,
  background_yields, background_waits, background_holds, done, Model, Move, Timeout, Step, Reach,
  is_start,
}

-- The decisions that `_DECISION_WAITERS` counts
unfoldable pub is_counted : Pc → Bool
is_counted decision_waits = true
is_counted decision_got = true
is_counted decision_late = true
is_counted p = false

unfoldable pub holds : Pc → Bool
holds decision_got = true
holds decision_holds = true
holds background_holds = true
holds p = false

unfoldable pub is_done : Pc → Bool
is_done done = true
is_done p = false

unfoldable pub tally : (Pc → Bool) → List Pc → ℕ
tally f [] = 0
tally f (p ∷ ps) = (if f p then 1 else 0) + tally f ps

tally-append : (f : Pc → Bool) (xs ys : List Pc) → tally f (xs ++ ys) ≡ tally f xs + tally f ys
unfolding tally
tally-append f [] ys = ground arith
tally-append f (x ∷ xs) ys = ground (arith, tally-append f xs ys)

-- A thread amid the others, taken out
tally-amid :
    (f : Pc → Bool) (xs ys : List Pc) (p : Pc)
    → tally f (xs ++ (p ∷ ys)) ≡ (if f p then 1 else 0) + tally f (xs ++ ys)
unfolding tally
tally-amid f xs ys p = ground (arith, tally-append f xs (p ∷ ys), tally-append f xs ys)

pub record Inv (m : Model) : Type 0 where
  pub counted : m.waiters ≡ tally is_counted m.threads
  pub held : tally holds m.threads ≡ (if m.lock then 1 else 0)

none_begun :
    (f : Pc → Bool) (ps : List Pc)
    → ((p : Pc) → is_start p ≡ true → f p ≡ false)
    → All (λ p. is_start p ≡ true) ps
    → tally f ps ≡ 0
unfolding tally
none_begun f [] h a = refl
none_begun f (p ∷ ps) h a = ground (arith, h p a.0, none_begun f ps h a.1)

start-is_counted : (p : Pc) → is_start p ≡ true → is_counted p ≡ false
unfolding is_start is_counted
start-is_counted p h = ground (arith, h)

start-holds : (p : Pc) → is_start p ≡ true → holds p ≡ false
unfolding is_start holds
start-holds p h = ground (arith, h)

-- What a move does to the counts, the other threads apart
Move-counts :
    {w v : ℕ} {l k : Bool} {p q : Pc} (a b : ℕ)
    → Move w l p v k q
    → w ≡ (if is_counted p then 1 else 0) + a
    → (if holds p then 1 else 0) + b ≡ (if l then 1 else 0)
    → (v ≡ (if is_counted q then 1 else 0) + a)
      × ((if holds q then 1 else 0) + b ≡ (if k then 1 else 0))
unfolding is_counted holds
Move-counts a b (Move.count w l) e f = ground (arith, e, f)
Move-counts a b (Move.acquire w) e f = ground (arith, e, f)
Move-counts a b (Move.uncount w l) e f = ground (arith, e, f)
Move-counts a b (Move.give_up w l) e f = ground (arith, e, f)
Move-counts a b (Move.release w l) e f = ground (arith, e, f)
Move-counts a b (Move.yielded l) e f = ground (arith, e, f)
Move-counts a b (Move.take_lock w) e f = ground (arith, e, f)
Move-counts a b (Move.give_back w l) e f = ground (arith, e, f)

Timeout-counts : {p q : Pc} → Timeout p q → (is_counted q ≡ is_counted p) × (holds q ≡ holds p)
unfolding is_counted holds
Timeout-counts Timeout.late = (refl, refl)
Timeout-counts Timeout.yields_no_more = (refl, refl)

pub Step-Inv : {m n : Model} → Step m n → Inv m → Inv n
Step-Inv (Step.move {p} {q} xs ys s) i =
    let r =
      Move-counts (tally is_counted (xs ++ ys)) (tally holds (xs ++ ys)) s
        (i.counted ∙ tally-amid is_counted xs ys p) (sym (tally-amid holds xs ys p) ∙ i.held) in
    record {
      counted = r.0 ∙ sym (tally-amid is_counted xs ys q);
      held = tally-amid holds xs ys q ∙ r.1;
    }
Step-Inv (Step.timeout {p} {q} xs ys s) i =
    let r = Timeout-counts s in
    record {
      counted =
          ground
            (arith, i.counted, tally-amid is_counted xs ys p, tally-amid is_counted xs ys q, r.0);
      held = ground (arith, i.held, tally-amid holds xs ys p, tally-amid holds xs ys q, r.1);
    }

-- In every state of any run, `interactive_waiters` is the number of the decisions that are counted, and the lock is
-- held exactly while one thread stands between its acquire and its release: never two.
pub Reach-Inv : {m : Model} → Reach m → Inv m
Reach-Inv (Reach.begin threads a) = record {
  counted = sym (none_begun is_counted threads start-is_counted a);
  held = none_begun holds threads start-holds a;
}
Reach-Inv (Reach.later r s) = Step-Inv s (Reach-Inv r)

-- A thread that counts is somewhere among the threads.
find_thread :
    (f : Pc → Bool) (ps : List Pc)
    → 1 ≤ tally f ps
    → (xs : List Pc) × ((p : Pc) × ((ys : List Pc) × ((ps ≡ xs ++ (p ∷ ys)) × (f p ≡ true))))
unfolding tally
find_thread f [] h = absurd (ground arith)
find_thread f (p ∷ ps) h = elim (Bool-cases (f p)) [
  | inl e ↦ ([], (p, (ps, (refl, e))))
  | inr e ↦
      let (xs, (q, (ys, (at, g)))) = find_thread f ps (ground (arith, h, e)) in
      (p ∷ xs, (q, (ys, (ap (λ r. p ∷ r) at, g))))
]

-- A move of one thread that is not the end of a wait
abbrev pub CanMove : Model → Type 0
CanMove m =
    (xs : List Pc) × ((p : Pc) × ((ys : List Pc) × ((m.threads ≡ xs ++ (p ∷ ys))
          × ((v : ℕ) × ((k : Bool) × ((q : Pc) × Move m.waiters m.lock p v k q))))))

-- Whoever holds the lock moves, whatever the others do.
holder_moves :
    (w : ℕ) (l : Bool) (p : Pc)
    → holds p ≡ true
    → (v : ℕ) × ((k : Bool) × ((q : Pc) × Move w l p v k q))
unfolding holds
holder_moves w l decision_got h = (w - 1, (l, (decision_holds, Move.uncount w l)))
holder_moves w l decision_holds h = (w, (false, (done, Move.release w l)))
holder_moves w l background_holds h = (w, (false, (done, Move.give_back w l)))
holder_moves w l decision_start h = absurd (ground (arith, h))
holder_moves w l decision_waits h = absurd (ground (arith, h))
holder_moves w l decision_late h = absurd (ground (arith, h))
holder_moves w l background_yields h = absurd (ground (arith, h))
holder_moves w l background_waits h = absurd (ground (arith, h))
holder_moves w l done h = absurd (ground (arith, h))

-- With the lock free a counted decision moves.
counted_moves :
    (w : ℕ) (p : Pc)
    → is_counted p ≡ true
    → (v : ℕ) × ((k : Bool) × ((q : Pc) × Move w false p v k q))
unfolding is_counted
counted_moves w decision_waits h = (w, (true, (decision_got, Move.acquire w)))
counted_moves w decision_got h = (w - 1, (false, (decision_holds, Move.uncount w false)))
counted_moves w decision_late h = (w - 1, (false, (done, Move.give_up w false)))
counted_moves w decision_start h = absurd (ground (arith, h))
counted_moves w decision_holds h = absurd (ground (arith, h))
counted_moves w background_yields h = absurd (ground (arith, h))
counted_moves w background_waits h = absurd (ground (arith, h))
counted_moves w background_holds h = absurd (ground (arith, h))
counted_moves w done h = absurd (ground (arith, h))

-- With the lock free and no decision waiting, every thread that is not done moves.
free_moves :
    (p : Pc) → is_done p ≡ false → (v : ℕ) × ((k : Bool) × ((q : Pc) × Move 0 false p v k q))
unfolding is_done
free_moves decision_start h = (1, (false, (decision_waits, Move.count 0 false)))
free_moves decision_waits h = (0, (true, (decision_got, Move.acquire 0)))
free_moves decision_got h = (0, (false, (decision_holds, Move.uncount 0 false)))
free_moves decision_late h = (0, (false, (done, Move.give_up 0 false)))
free_moves decision_holds h = (0, (false, (done, Move.release 0 false)))
free_moves background_yields h = (0, (false, (background_waits, Move.yielded false)))
free_moves background_waits h = (0, (true, (background_holds, Move.take_lock 0)))
free_moves background_holds h = (0, (false, (done, Move.give_back 0 false)))
free_moves done h = absurd (ground (arith, h))

Inv-CanMove :
    (w : ℕ) (l : Bool) (threads : List Pc)
    → Inv (record { waiters = w; lock = l; threads = threads })
    → 1 ≤ tally (λ p. not (is_done p)) threads
    → CanMove (record { waiters = w; lock = l; threads = threads })
Inv-CanMove w true threads i u =
    let (xs, (p, (ys, (at, h)))) = find_thread holds threads (ground (arith, i.held)) in
    (xs, (p, (ys, (at, holder_moves w true p h))))
Inv-CanMove zero false threads i u =
    let (xs, (p, (ys, (at, h)))) = find_thread (λ p. not (is_done p)) threads u in
    (xs, (p, (ys, (at, free_moves p (ground (arith, h))))))
Inv-CanMove (suc w) false threads i u =
    let (xs, (p, (ys, (at, h)))) = find_thread is_counted threads (ground (arith, i.counted)) in
    (xs, (p, (ys, (at, counted_moves (suc w) p h))))

-- No run gets stuck: as long as a thread is not done, some thread has a next move that is not the end of its 100 or
-- 120 seconds of waiting.
pub no_deadlock : {m : Model} → Reach m → 1 ≤ tally (λ p. not (is_done p)) m.threads → CanMove m
no_deadlock {m} r u = Inv-CanMove m.waiters m.lock m.threads (Reach-Inv r) u
