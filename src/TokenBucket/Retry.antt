-- ===== src/TokenBucket/Retry.antt =====
-- The wait that a refused request is told is exact.
use codegraph_mcp.Base.{
  Bool-cases, ap, arith, false, inl, inr, leb, ltb, max, min, nat_key, pair_key, str_key, true, ℕ,
  ◌*◌, ◌+◌, ◌-◌, ◌<◌, ◌∙◌, ◌≡◌, ◌≤◌,
}
use native.Mathlib.Nat.{mul-le-mul_right}
use codegraph_mcp.TokenBucket.{TokenBucket, refilled, take, ceil_div, retry_after}

ceil_div_enough : (a b : ℕ) → 0 < b → a ≤ ceil_div a b * b
unfolding ceil_div
ceil_div_enough a b h = omega arith

ceil_div_least : (a b : ℕ) → 0 < b → 0 < a → (ceil_div a b - 1) * b < a
unfolding ceil_div
ceil_div_least a b h k = grind arith

module _ (unit second : ℕ) where
  -- The units refilled over the wait cover the deficit, and over a second less do not, unless the
  -- wait is the shortest one.
  wait_enough :
      (refill deficit : ℕ)
      → 0 < refill * second
      → deficit ≤ retry_after unit second refill deficit * (refill * second)
  unfolding retry_after
  wait_enough refill deficit h = ground (
    arith,
    ceil_div_enough deficit (refill * second),
    mul-le-mul_right {m = ceil_div deficit (refill * second)}
        {n = max 1 (ceil_div deficit (refill * second))} (refill * second) (omega arith),
  )

  wait_least :
      (refill deficit : ℕ)
      → 0 < refill * second
      → 0 < deficit
      → 1 < retry_after unit second refill deficit
      → (retry_after unit second refill deficit - 1) * (refill * second) < deficit
  unfolding retry_after
  wait_least refill deficit h k m = ground (arith, ceil_div_least deficit (refill * second))

  -- The units that a bucket holds at a later reading of the clock.
  refilled_tokens :
      (later : ℕ) (r : TokenBucket)
      → r.updated ≤ later
      → r.tokens ≤ r.capacity
      → (refilled later r).tokens ≡ min r.capacity (r.tokens + (later - r.updated) * r.refill)
  unfolding refilled
  refilled_tokens later r h k = elim (Bool-cases (ltb r.updated later)) [
    | inl e ↦ ground (arith, e)
    | inr e ↦
        let same : later - r.updated ≡ 0 = ground arith in
        ground (arith, e, ap (λ (t : ℕ). t * r.refill) same)
  ]

  refused : (n : ℕ) → TokenBucket → ℕ
  refused n r = retry_after unit second r.refill (n * unit - r.tokens)

  wait_product : (w d f s : ℕ) → w * s ≤ d → w * (f * s) ≤ d * f
  wait_product w d f s h = omega (arith, mul-le-mul_right {m = w * s} {n = d} f h)

  wait_product_below : (w d f s : ℕ) → d ≤ w * s → d * f ≤ w * (f * s)
  wait_product_below w d f s h = omega (arith, mul-le-mul_right {m = d} {n = w * s} f h)

  take-allowed :
      (n t : ℕ) (b : TokenBucket)
      → (take unit second n t b).1 ≡ leb (n * unit) (refilled t b).tokens
  unfolding take
  take-allowed n t b = ground arith

  module _ (n later : ℕ) (r : TokenBucket) (moves : 0 < r.refill * second)
      (full : r.tokens ≤ r.capacity) (short : r.tokens < n * unit) (late : r.updated ≤ later) where
    granted_later :
        n * unit ≤ r.capacity
        → refused n r * second ≤ later - r.updated
        → leb (n * unit) (refilled later r).tokens ≡ true
    unfolding refused
    granted_later fits waited = ground (
      arith,
      refilled_tokens later r late full,
      wait_enough r.refill (n * unit - r.tokens) moves,
      wait_product (refused n r) (later - r.updated) r.refill second waited,
    )

    refused_before :
        1 < refused n r
        → later - r.updated ≤ (refused n r - 1) * second
        → leb (n * unit) (refilled later r).tokens ≡ false
    unfolding refused
    refused_before long early = ground (
      arith,
      refilled_tokens later r late full,
      wait_least r.refill (n * unit - r.tokens) moves (omega arith) long,
      wait_product_below (refused n r - 1) (later - r.updated) r.refill second early,
    )

  record Refuses (n now : ℕ) (b : TokenBucket) : Type 0 where
    state : (take unit second n now b).0 ≡ refilled now b
    wait : (take unit second n now b).2 ≡ refused n (refilled now b)
    short : (refilled now b).tokens < n * unit
    full : (refilled now b).tokens ≤ (refilled now b).capacity
    capacity : (refilled now b).capacity ≡ b.capacity
    refill : (refilled now b).refill ≡ b.refill

  take-Refuses :
      (n now : ℕ) (b : TokenBucket)
      → b.tokens ≤ b.capacity
      → (take unit second n now b).1 ≡ false
      → Refuses n now b
  unfolding take refilled refused
  take-Refuses n now b full h = record {
    state = ground arith;
    wait = ground arith;
    short = ground arith;
    full = ground arith;
    capacity = ground arith;
    refill = ground arith;
  }

  -- A request for `n` tokens that is refused and told to wait `w` seconds, with no other request in
  -- between: after `w` seconds or more it is granted, and if `w` is over 1, up to a second earlier it
  -- is still refused. The bucket refills, is not over its capacity, and can hold `n` tokens.
  pub retry_exact :
      (n now later : ℕ) (b : TokenBucket)
      → 0 < b.refill * second
      → b.tokens ≤ b.capacity
      → n * unit ≤ b.capacity
      → (take unit second n now b).1 ≡ false
      → (take unit second n now b).0.updated ≤ later
      → ((take unit second n now b).2 * second ≤ later - (take unit second n now b).0.updated
          → (take unit second n later (take unit second n now b).0).1 ≡ true)
        × (1 < (take unit second n now b).2
            → later - (take unit second n now b).0.updated
              ≤ ((take unit second n now b).2 - 1) * second
            → (take unit second n later (take unit second n now b).0).1 ≡ false)
  retry_exact n now later b moves full fits denied late =
      let d = take-Refuses n now b full denied in
      let r = refilled now b in
      let moves' : 0 < r.refill * second = rw d.refill moves in
      let late' : r.updated ≤ later = rw d.state at late in
      (
        λ waited.
            take-allowed n later (take unit second n now b).0
            ∙ rw d.state (
                granted_later n later r moves' d.full d.short late' (rw d.capacity fits)
                  (rw (d.state, d.wait) at waited)),
        λ long early.
            take-allowed n later (take unit second n now b).0
            ∙ rw d.state (
                refused_before n later r moves' d.full d.short late' (rw d.wait at long)
                  (rw (d.state, d.wait) at early)),
      )
