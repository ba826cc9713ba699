-- ===== src/TokenBucket/Supply.antt =====
-- How much a bucket grants over any sequence of requests.
use codegraph_mcp.Base.{
  All, Bool, List, [], ap, arith, if◌then◌else◌, nat_key, pair_key, str_key, subst, ℕ, ◌*◌, ◌+◌,
  ◌-◌, ◌<◌, ◌∙◌, ◌∷◌, ◌≡◌, ◌≤◌,
}
use codegraph_mcp.TokenBucket.{TokenBucket, refilled, take}

pub record IsFilled (b : TokenBucket) : Type 0 where
  pub within : b.tokens ≤ b.capacity

-- A later state of a bucket out of which `spent` units were taken: what is left and what was spent
-- came from the tokens it had and from the refill over the time between.
pub record Supplies (b r : TokenBucket) (spent : ℕ) : Type 0 where
  pub supply : spent + r.tokens + b.updated * b.refill ≤ b.tokens + r.updated * b.refill
  pub later : b.updated ≤ r.updated
  pub within : r.tokens ≤ r.capacity
  pub capacity : r.capacity ≡ b.capacity
  pub refill : r.refill ≡ b.refill

elapsed_product : (u now r : ℕ) → u < now → (now - u) * r + u * r ≡ now * r
elapsed_product u now r h =
    let d = now - u in let e : now ≡ u + d = omega arith in omega (arith, ap (λ (t : ℕ). t * r) e)

refilled-Supplies : (now : ℕ) (b : TokenBucket) → IsFilled b → Supplies b (refilled now b) 0
unfolding refilled
refilled-Supplies now b h = ground (arith, elapsed_product b.updated now b.refill)

refilled-updated-le :
    (now t : ℕ) (b : TokenBucket) → now ≤ t → b.updated ≤ t → (refilled now b).updated ≤ t
unfolding refilled
refilled-updated-le now t b h k = ground arith

Supplies-trans :
    {b c d : TokenBucket} (x y : ℕ) → Supplies b c x → Supplies c d y → Supplies b d (x + y)
Supplies-trans {b} {c} {d} x y p q = record {
  supply = omega (
    arith,
    p.supply,
    q.supply,
    ap (λ (t : ℕ). c.updated * t) p.refill,
    ap (λ (t : ℕ). d.updated * t) p.refill,
  );
  later = omega (arith, p.later, q.later);
  within = q.within;
  capacity = q.capacity ∙ p.capacity;
  refill = q.refill ∙ p.refill;
}

mul_mono : (a b c : ℕ) → a ≤ b → a * c ≤ b * c
mul_mono a b c h = grind arith

-- A request: the tokens asked for, and the clock.
abbrev pub Request : Type 0
Request = ℕ × ℕ

module _ (unit second : ℕ) where
  -- The tokens granted by a sequence of requests, and the bucket after it.
  unfoldable pub grants : List Request → TokenBucket → TokenBucket × ℕ
  grants [] b = (b, 0)
  grants ((n, now) ∷ rs) b =
      let (b', allowed, _) = take unit second n now b in
      let (last, granted) = grants rs b' in (last, (if allowed then n else 0) + granted)

  abbrev spent : TokenBucket × Bool × ℕ → ℕ → ℕ
  spent r n = if r.1 then n else 0

  take-Supplies :
      (n now : ℕ) (b : TokenBucket)
      → IsFilled b
      → Supplies b (take unit second n now b).0 (spent (take unit second n now b) n * unit)
  unfolding take
  take-Supplies n now b h = ground (arith, refilled-Supplies now b h)

  take-updated-le :
      (n now t : ℕ) (b : TokenBucket)
      → now ≤ t
      → b.updated ≤ t
      → (take unit second n now b).0.updated ≤ t
  unfolding take
  take-updated-le n now t b h k = ground (arith, refilled-updated-le now t b h k)

  grants-Supplies :
      (rs : List Request) (b : TokenBucket)
      → IsFilled b
      → Supplies b (grants rs b).0 ((grants rs b).1 * unit)
  unfolding grants
  grants-Supplies [] b h = ground arith
  grants-Supplies ((n, now) ∷ rs) b h =
      let first = take-Supplies n now b h in
      let (b', allowed, _) = take unit second n now b in
      let rest = grants-Supplies rs b' (record { within = first.within }) in
      let x = (if allowed then n else 0) * unit in
      let sum : x + (grants rs b').1 * unit
          ≡ ((if allowed then n else 0) + (grants rs b').1) * unit =
        omega arith in
      subst (Supplies b (grants rs b').0) sum
        (Supplies-trans x ((grants rs b').1 * unit) first rest)

  grants-updated-le :
      (rs : List Request) (t : ℕ) (b : TokenBucket)
      → All (λ r. r.1 ≤ t) rs
      → b.updated ≤ t
      → (grants rs b).0.updated ≤ t
  unfolding grants
  grants-updated-le [] t b h k = k
  grants-updated-le ((n, now) ∷ rs) t b h k =
      grants-updated-le rs t (take unit second n now b).0 h.1 (take-updated-le n now t b h.0 k)

  -- Over any sequence of requests up to a time `t`, in any order of their clocks, a bucket that holds
  -- at most its capacity grants no more than its capacity and the refill since its last update.
  pub grants_bounded :
      (rs : List Request) (t : ℕ) (b : TokenBucket)
      → b.tokens ≤ b.capacity
      → All (λ r. r.1 ≤ t) rs
      → b.updated ≤ t
      → (grants rs b).1 * unit ≤ b.capacity + (t - b.updated) * b.refill
  grants_bounded rs t b full h k =
      let total = grants-Supplies rs b (record { within = full }) in
      let last = mul_mono (grants rs b).0.updated t b.refill (grants-updated-le rs t b h k) in
      let d = t - b.updated in
      let e : t ≡ b.updated + d = omega arith in
      omega (arith, total.supply, last, ap (λ (x : ℕ). x * b.refill) e)
