-- ===== src/Graph/Traverse/Sound.antt =====
-- `traverse` ends without an error, and what it returns.
use codegraph_mcp.Base.{
  ==_refl, All, All-append, Bool, Bool-cases, IsDistinct, IsDistinct-append, List, List-cases,
  Option, Option-cases, Str, [], ap, arith, inl, inr, length, ltb, map, member, member-append,
  nat_key, none, not, pair_key, refl, some, str_key, subst, suc, sym, true, zero, ℕ, ◌&&◌, ◌++◌,
  ◌+◌, ◌-◌, ◌<◌, ◌==◌, ◌∙◌, ◌∷◌, ◌≡◌, ◌≤◌,
}
use mathlib.Core.List.{map-append}
use codegraph_mcp.Graph.{GraphIndex}
use codegraph_mcp.Graph.Query.{GraphNeighborhood, get_blast_radius}
use codegraph_mcp.Graph.Traverse.{
  Direction, up, down, Walk, forward, enqueue, emit, reuse, visit, start, rounds, done, loop,
  traverse,
}
use codegraph_mcp.Graph.Traverse.Steps.{work, work-start, forward-InUniverse, enqueue-Enqueues}

abbrev pub ids : List GraphNeighborhood → List Str
ids = map (λ n. n.symbol_id)

-- A neighborhood that the index reports now.
abbrev pub IsCurrent : GraphIndex → GraphNeighborhood → Type 0
IsCurrent g n = n ≡ get_blast_radius g n.symbol_id

-- `exclude` does not stop the symbol: it is not listed there, or it is the start.
abbrev pub is_allowed : Str → List Str → Str → Bool
is_allowed s blocked a = not (member a blocked && not (a == s))

abbrev pub first {ℓ} : {A : Type ℓ} → List A → Option A
first [] = none
first (x ∷ xs) = some x

first-append : (x : Str) (xs ys : List Str) → first xs ≡ some x → first (xs ++ ys) ≡ some x
first-append x [] ys h = cc
first-append x (y ∷ xs) ys h = h

not-member-nil : (a : Str) → member a [] ≡ true → ⊥
unfolding member
not-member-nil a h = cc

module _ (g : GraphIndex) (s : Str) (depth : ℕ) (blocked : List Str) where
  record IsSound (w : Walk) : Type 0 where
    bound : w.neighborhood ≡ none → w.emitted ≡ []
    fresh : (n : GraphNeighborhood) → w.neighborhood ≡ some n → IsCurrent g n
    listed : ids w.neighborhoods ≡ w.emitted
    current : All (IsCurrent g) w.neighborhoods
    distinct : IsDistinct w.emitted
    allowed : (a : Str) → member a w.emitted ≡ true → is_allowed s blocked a ≡ true

  emit-IsSound :
      (a : Str) (w : Walk) → is_allowed s blocked a ≡ true → IsSound w → IsSound (emit g a w)
  unfolding emit get_blast_radius member
  emit-IsSound a w ok h = elim (Bool-cases (member a w.emitted)) [
    | inl e ↦ rw e h
    | inr e ↦ rw e (record {
      bound = λ p. cc;
      fresh = λ n p. ground arith;
      listed =
          map-append (λ n. n.symbol_id) w.neighborhoods (get_blast_radius g a ∷ [])
          ∙ ap (λ l. l ++ a ∷ []) h.listed;
      current =
          All-append (IsCurrent g) w.neighborhoods (get_blast_radius g a ∷ []) h.current (refl, tt);
      distinct =
          IsDistinct-append w.emitted (a ∷ []) h.distinct (refl, tt)
            (λ b m. ground (arith, ==_refl b));
      allowed = λ b m. ground (arith, h.allowed b, member-append b w.emitted (a ∷ []));
    })
  ]

  blast_radius-IsCurrent : (a : Str) → IsCurrent g (get_blast_radius g a)
  unfolding get_blast_radius
  blast_radius-IsCurrent a = refl

  -- After the emission the variable holds a neighborhood that the index reports.
  reuse-some :
      (a : Str) (w : Walk)
      → IsSound (emit g a w)
      → (n : GraphNeighborhood) × (reuse g a (emit g a w) ≡ some n) × IsCurrent g n
  unfolding reuse
  reuse-some a w h =
      let w' = emit g a w in
      elim (Bool-cases (member a w'.emitted)) [
        | inl e ↦ elim (Option-cases w'.neighborhood) [
          | inl p ↦ absurd (clash (h.bound p) e)
          | inr (n, p) ↦ (n, rw e p, h.fresh n p)
        ]
        | inr e ↦ (get_blast_radius g a, rw e, blast_radius-IsCurrent a)
      ]
    where
      clash : {xs : List Str} → xs ≡ [] → member a xs ≡ true → ⊥
      clash p m = not-member-nil a (subst (λ l. member a l ≡ true) p m)

  work-emit : (a : Str) (w : Walk) → work g (emit g a w) ≡ work g w
  unfolding work emit
  work-emit a w = ground arith

  first-emit :
      (a x : Str) (w : Walk) → first w.emitted ≡ some x → first (emit g a w).emitted ≡ some x
  unfolding emit
  first-emit a x w h = ground (arith, first-append x w.emitted (a ∷ []))

  record Visits (item : Str × ℕ × Direction) (w w' : Walk) : Type 0 where
    ends : visit g s depth blocked item w ≡ some w'
    sound : IsSound w'
    works : work g w' ≤ work g w
    starts : (x : Str) → first w.emitted ≡ some x → first w'.emitted ≡ some x
    emits : is_allowed s blocked item.0 ≡ true → w'.emitted ≡ (emit g item.0 w).emitted

  -- The expansion of a symbol that is within the depth.
  expand-Visits :
      (a : Str) (n : ℕ) (d : Direction) (w : Walk)
      → is_allowed s blocked a ≡ true
      → ltb n depth ≡ true
      → IsSound w
      → (w' : Walk) × Visits (a, n, d) w w'
  unfolding visit work
  expand-Visits a n d w ok deep h =
      let h1 = emit-IsSound a w ok h in
      let (m, e, now) = reuse-some a w h1 in
      let w1 = record (emit g a w) { neighborhood = some m } in
      let q =
        enqueue-Enqueues g (n + 1) d (forward d m) w1
          (rw now (forward-InUniverse g d m.symbol_id)) in
      (
        enqueue (n + 1) d (forward d m) w1,
        record {
          ends = ground (arith, ok, deep, e);
          sound = record {
            bound = λ p. cc (q.neighborhood, p);
            fresh =
                λ k p. let same : m ≡ k = cc (q.neighborhood, p) in subst (IsCurrent g) same now;
            listed = ap ids q.neighborhoods ∙ h1.listed ∙ sym q.emitted;
            current = rw q.neighborhoods h1.current;
            distinct = rw q.emitted h1.distinct;
            allowed = rw q.emitted h1.allowed;
          };
          works = omega (arith, q.work_le, work-emit a w);
          starts = λ x p. rw q.emitted (first-emit a x w p);
          emits = λ _. q.emitted;
        },
      )

  visit-Visits :
      (a : Str) (n : ℕ) (d : Direction) (w : Walk) → IsSound w → (w' : Walk) × Visits (a, n, d) w w'
  unfolding visit
  visit-Visits a n d w h = elim (Bool-cases (is_allowed s blocked a)) [
    | inl ok ↦ elim (Bool-cases (ltb n depth)) [
      | inl deep ↦ expand-Visits a n d w ok deep h
      | inr shallow ↦ (
        emit g a w,
        record {
          ends = ground (arith, ok, shallow);
          sound = emit-IsSound a w ok h;
          works = omega (arith, work-emit a w);
          starts = λ x p. first-emit a x w p;
          emits = λ _. refl;
        },
      )
    ]
    | inr stopped ↦ (
      w,
      record {
        ends = ground (arith, stopped);
        sound = h;
        works = omega arith;
        starts = λ x p. p;
        emits = λ ok. cc;
      },
    )
  ]

  loop-cons :
      (fuel : ℕ) (w w' : Walk) (item : Str × ℕ × Direction) (rest : List (Str × ℕ × Direction))
      → w.queue ≡ item ∷ rest
      → visit g s depth blocked item (record w { queue = rest }) ≡ some w'
      → loop g s depth blocked (suc fuel) w ≡ loop g s depth blocked fuel w'
  unfolding loop
  loop-cons fuel w w' item rest e v = ground arith

  loop-nil :
      (fuel : ℕ) (w : Walk) → w.queue ≡ [] → loop g s depth blocked fuel w ≡ done w.neighborhoods
  unfolding loop
  loop-nil zero w e = ground arith
  loop-nil (suc fuel) w e = ground arith

  pop-IsSound :
      (w : Walk) (rest : List (Str × ℕ × Direction))
      → IsSound w
      → IsSound (record w { queue = rest })
  pop-IsSound w rest h = record {
    bound = h.bound;
    fresh = h.fresh;
    listed = h.listed;
    current = h.current;
    distinct = h.distinct;
    allowed = h.allowed;
  }

  work-pop :
      (w : Walk) (item : Str × ℕ × Direction) (rest : List (Str × ℕ × Direction))
      → w.queue ≡ item ∷ rest
      → work g (record w { queue = rest }) < work g w
  unfolding work
  work-pop w item rest e = omega (arith, ap length e)

  -- Enough fuel gives a result, which keeps the invariant and the first symbol.
  loop-IsSound :
      (fuel : ℕ) (w : Walk) (x : Str)
      → IsSound w
      → work g w ≤ fuel
      → first w.emitted ≡ some x
      → (t : Walk) × (loop g s depth blocked fuel w ≡ done t.neighborhoods)
        × IsSound t
        × (first t.emitted ≡ some x)
  loop-IsSound zero w x h enough p = elim (List-cases w.queue) [
    | inl e ↦ (w, loop-nil zero w e, h, p)
    | inr (item, rest, e) ↦ absurd (omega (arith, work-pop w item rest e))
  ]
  loop-IsSound (suc fuel) w x h enough p = elim (List-cases w.queue) [
    | inl e ↦ (w, loop-nil (suc fuel) w e, h, p)
    | inr (item, rest, e) ↦
        let (w', v) =
          visit-Visits item.0 item.1 item.2 (record w { queue = rest }) (pop-IsSound w rest h) in
        let (t, ends, sound, starts) =
          loop-IsSound fuel w' x v.sound (omega (arith, v.works, work-pop w item rest e))
            (v.starts x p) in
        (t, loop-cons fuel w w' item rest e v.ends ∙ ends, sound, starts)
  ]

  start-IsSound : IsSound (start s)
  unfolding member
  start-IsSound = record {
    bound = λ p. refl;
    fresh = λ n p. cc;
    listed = refl;
    current = tt;
    distinct = tt;
    allowed = λ a m. cc;
  }

  start-allowed : is_allowed s blocked s ≡ true
  start-allowed = ground (arith, ==_refl s)

  first-start :
      (q : List (Str × ℕ × Direction))
      → first (emit g s (record (start s) { queue = q })).emitted ≡ some s
  unfolding emit member
  first-start q = refl

  traverse-loop :
      0 < depth → traverse g s depth blocked ≡ loop g s depth blocked (rounds g) (start s)
  unfolding traverse
  traverse-loop deep = ground arith

  -- For a depth of at least 1 `traverse` returns, with no error: every neighborhood is the one that
  -- `get_blast_radius` reports for its symbol, no symbol comes twice, the first is the start, and an
  -- excluded symbol is not among them, unless it is the start.
  pub traverse_returns :
      0 < depth
      → (ns : List GraphNeighborhood) × (traverse g s depth blocked ≡ done ns)
        × All (IsCurrent g) ns
        × IsDistinct (ids ns)
        × (first (ids ns) ≡ some s)
        × ((a : Str) → member a (ids ns) ≡ true → is_allowed s blocked a ≡ true)
  traverse_returns deep =
      let w = record (start s) { queue = (s, 0, down) ∷ [] } in
      let (w', v) = visit-Visits s 0 up w (pop-IsSound (start s) w.queue start-IsSound) in
      let begun = ap first (v.emits start-allowed) ∙ first-start w.queue in
      let k = rounds g - 1 in
      let e : rounds g ≡ suc k =
        omega (arith, work-start g s, work-pop (start s) (s, 0, up) w.queue refl) in
      let (t, ends, sound, starts) =
        loop-IsSound k w' s v.sound
          (omega (arith, v.works, work-start g s, work-pop (start s) (s, 0, up) w.queue refl))
          begun in
      (
        t.neighborhoods,
        traverse-loop deep
            ∙ ap (λ f. loop g s depth blocked f (start s)) e
            ∙ loop-cons k (start s) w' (s, 0, up) w.queue refl v.ends
            ∙ ends,
        sound.current,
        rw sound.listed sound.distinct,
        ap first sound.listed ∙ starts,
        λ a m. sound.allowed a (rw sound.listed at m),
      )
