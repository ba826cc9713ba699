-- ===== src/GraphTools/Path/Waves.antt =====
-- What the search for a path keeps: its deque goes by the length of the paths.
use codegraph_mcp.Base.{
  ==_refl, All, All-append, Bool, Bool-cases, List, Str, [], add, ap, arith, eq_of_==, false, inl,
  inr, length, length-append, member, member-add, nat_key, pair_key, refl, str_key, subst, sym,
  true, ℕ, ◌++◌, ◌+◌, ◌<◌, ◌==◌, ◌||◌, ◌∙◌, ◌∷◌, ◌≡◌, ◌≤◌, ◌⊎◌,
}
use codegraph_mcp.GraphTools.Path.{Queue, Expanded, arrived, going, expand}
use codegraph_mcp.GraphTools.Path.Sound.{PathTo}

-- The paths of the deque do not get shorter, and differ by one at most.
abbrev pub IsChain : ℕ → ℕ → Queue → Type 0
IsChain lo hi [] = Unit {0}
IsChain lo hi (e ∷ q) = ((lo ≤ length e.1) × (length e.1 ≤ hi)) × IsChain (length e.1) hi q

pub IsChain-weaken :
    (lo lo' hi hi' : ℕ) (q : Queue) → lo' ≤ lo → hi ≤ hi' → IsChain lo hi q → IsChain lo' hi' q
IsChain-weaken lo lo' hi hi' [] a b h = tt
IsChain-weaken lo lo' hi hi' (e ∷ q) a b h = (
  (omega (arith, a, h.0.0), omega (arith, b, h.0.1)),
  IsChain-weaken (length e.1) (length e.1) hi hi' q (omega arith) b h.1,
)

IsChain-snoc :
    (lo hi : ℕ) (q : Queue) (e : Str × List Str)
    → lo ≤ hi
    → length e.1 ≡ hi
    → IsChain lo hi q
    → IsChain lo hi (q ++ (e ∷ []))
IsChain-snoc lo hi [] e a b h = ((omega (arith, a, b), omega (arith, b)), tt)
IsChain-snoc lo hi (x ∷ q) e a b h = (h.0, IsChain-snoc (length x.1) hi q e h.0.1 b h.1)

unfoldable pub queued : Str → Queue → Bool
queued b [] = false
queued b (e ∷ q) = b == e.0 || queued b q

queued-append : (b : Str) (q r : Queue) → queued b (q ++ r) ≡ (queued b q || queued b r)
unfolding queued
queued-append b [] r = refl
queued-append b (e ∷ q) r = ground (arith, queued-append b q r)

module _ (nb : Str → List Str) (from to : Str) where
  -- No path from `from` to the symbol of the entry is shorter than that of the entry.
  abbrev pub Minimal : Str × List Str → Type 0
  Minimal e = (p : List Str) → PathTo nb from e.0 p → length e.1 ≤ length p

  abbrev pub Finished : List Str → Str → Type 0
  Finished v b = (c : Str) → member c (nb b) ≡ true → (member c v ≡ true) × ((c == to) ≡ false)

  -- What the loop keeps: each symbol reached waits in the deque, or all its neighbours are reached.
  pub record Kept (m : ℕ) (v : List Str) (q : Queue) : Type 0 where
    pub start : member from v ≡ true
    pub reached : (b : Str) → member b v ≡ true → (queued b q ≡ true) ⊎ Finished v b
    pub minimal : All Minimal q
    pub chain : IsChain m (m + 1) q

  -- The symbol of a path shorter than those of the deque does not wait there.
  not_queued :
      (m hi : ℕ) (b : Str) (p : List Str) (q : Queue)
      → All Minimal q
      → IsChain m hi q
      → PathTo nb from b p
      → length p < m
      → queued b q ≡ false
  unfolding queued
  not_queued m hi b p [] a c h l = refl
  not_queued m hi b p (e ∷ q) a c h l = elim (Bool-cases (b == e.0)) [
    | inl x ↦
        absurd
          (omega (arith, a.0 p (subst (λ t. PathTo nb from t p) (eq_of_== b e.0 x) h), c.0.0, l))
    | inr x ↦ rw x (not_queued (length e.1) hi b p q a.1 c.1 h (omega (arith, l, c.0.0)))
  ]

  -- The symbol of any path that is not longer than those of the deque is reached, and if the path has an edge, is
  -- not the goal.
  pub near_reached :
      (m hi : ℕ) (v : List Str) (q : Queue)
      → member from v ≡ true
      → ((b : Str) → member b v ≡ true → (queued b q ≡ true) ⊎ Finished v b)
      → All Minimal q
      → IsChain m hi q
      → (b : Str) (p : List Str) → PathTo nb from b p
      → length p ≤ m
      → (member b v ≡ true) × (2 ≤ length p → (b == to) ≡ false)
  near_reached m hi v q s r a c _ _ PathTo.here l = (s, λ k. absurd (omega (arith, k)))
  near_reached m hi v q s r a c _ _ (PathTo.further {b} {p} x h i) l =
      let short : length p < m = omega (arith, l, length-append p (x ∷ [])) in
      let seen = (near_reached m hi v q s r a c b p h (omega (arith, short))).0 in
      elim (r b seen) [
        | inl w ↦ absurd (ground (arith, w, not_queued m hi b p q a c h short))
        | inr f ↦ ((f x i).0, λ k. (f x i).1)
      ]

  -- What the loop over the neighbours keeps, from the set and the deque that it starts with.
  pub record Grown (v0 : List Str) (q0 : Queue) (m : ℕ) (v : List Str) (q : Queue) : Type 0 where
    pub keeps : (b : Str) → member b v0 ≡ true → member b v ≡ true
    pub fresh : (b : Str) → member b v ≡ true → (member b v0 ≡ true) ⊎ (queued b q ≡ true)
    pub waits : (b : Str) → queued b q0 ≡ true → queued b q ≡ true
    pub minimal : All Minimal q
    pub chain : IsChain m (m + 1) q

  -- A neighbour that is not reached joins the set and the deque.
  Grown-add :
      (v0 : List Str) (q0 : Queue) (m : ℕ) (v : List Str) (q : Queue) (n : Str) (p : List Str)
      → Minimal (n, p)
      → length p ≡ m + 1
      → Grown v0 q0 m v q
      → Grown v0 q0 m (add n v) (q ++ ((n, p) ∷ []))
  unfolding queued
  Grown-add v0 q0 m v q n p least size g = record {
    keeps = λ b h. ground (arith, h, g.keeps b, member-add b n v);
    fresh = λ b h. elim (Bool-cases (b == n)) [
      | inl e ↦ inr (ground (arith, e, queued-append b q ((n, p) ∷ [])))
      | inr e ↦ elim (g.fresh b (ground (arith, h, e, member-add b n v))) [
        | inl old ↦ inl old
        | inr w ↦ inr (ground (arith, w, queued-append b q ((n, p) ∷ [])))
      ]
    ];
    waits = λ b h. ground (arith, h, g.waits b, queued-append b q ((n, p) ∷ []));
    minimal = All-append Minimal q ((n, p) ∷ []) g.minimal (least, tt);
    chain = IsChain-snoc m (m + 1) q (n, p) (omega arith) size g.chain;
  }

  module _ (c : Str) (path v0 : List Str) (q0 : Queue) (m : ℕ) where
    -- Symbols that are not reached have no path as short as those of the deque.
    abbrev pub Far : Type 0
    Far = (a : Str) → member a v0 ≡ false → (p : List Str) → PathTo nb from a p → m + 1 ≤ length p

    abbrev pub AllSeen : List Str → List Str → Type 0
    AllSeen ns w = (a : Str) → member a ns ≡ true → (member a w ≡ true) × ((a == to) ≡ false)

    abbrev pub Grows : List Str → List Str → Expanded → Type 0
    Grows ns v (arrived p) = length p ≡ m + 1
    Grows ns v (going w r) =
        Grown v0 q0 m w r × ((b : Str) → member b v ≡ true → member b w ≡ true) × AllSeen ns w

    -- One more neighbour before those of the rest of the loop
    Grows-more :
        (n : Str) (ns v v' : List Str) (x : Expanded)
        → (n == to) ≡ false
        → member n v' ≡ true
        → ((b : Str) → member b v ≡ true → member b v' ≡ true)
        → Grows ns v' x
        → Grows (n ∷ ns) v x
    unfolding member
    Grows-more n ns v v' (arrived p) e h k g = g
    Grows-more n ns v v' (going w r) e h k g = (
      g.0,
      λ b i. g.1 b (k b i),
      λ a i. elim (Bool-cases (a == n)) [
        | inl y ↦
            subst (λ t. (member t w ≡ true) × ((t == to) ≡ false)) (sym (eq_of_== a n y))
              (g.1 n h, e)
        | inr y ↦ g.2 a (ground (arith, i, y))
      ],
    )

    pub expand-Grows :
        (ns v : List Str) (q : Queue)
        → Far
        → PathTo nb from c path
        → length path ≡ m
        → ((a : Str) → member a ns ≡ true → member a (nb c) ≡ true)
        → Grown v0 q0 m v q
        → Grows ns v (expand to path ns v q)
    unfolding expand member
    expand-Grows [] v q far h size sub g = (g, λ b i. i, λ a i. absurd (ground (arith, i)))
    expand-Grows (n ∷ ns) v q far h size sub g =
        let longer : length (path ++ (n ∷ [])) ≡ m + 1 =
          length-append path (n ∷ []) ∙ ap (λ k. k + 1) size in
        let rest : (a : Str) → member a ns ≡ true → member a (nb c) ≡ true =
          λ a i. sub a (ground (arith, i)) in
        elim (Bool-cases (n == to)) [
          | inl e ↦ rw e longer
          | inr e ↦ elim (Bool-cases (member n v)) [
            | inl i ↦
                rw (e, i)
                  (Grows-more n ns v v (expand to path ns v q) e i (λ b k. k)
                    (expand-Grows ns v q far h size rest g))
            | inr i ↦
                let q' = q ++ ((n, path ++ (n ∷ [])) ∷ []) in
                let new : member n v0 ≡ false = ground (arith, g.keeps n, i) in
                let least : Minimal (n, path ++ (n ∷ [])) =
                  λ p t. omega (arith, far n new p t, longer) in
                rw (e, i)
                  (Grows-more n ns v (add n v) (expand to path ns (add n v) q') e
                    (ground (arith, member-add n n v, ==_refl n))
                    (λ b k. ground (arith, k, member-add b n v))
                    (expand-Grows ns (add n v) q' far h size rest
                      (Grown-add v0 q0 m v q n (path ++ (n ∷ [])) least longer g)))
          ]
        ]
