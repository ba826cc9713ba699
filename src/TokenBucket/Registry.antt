-- ===== src/TokenBucket/Registry.antt =====
-- backend/app/core/token_bucket.py: the registry of named buckets. A call reads the clock up to three
-- times: `now` for the sweep, `made` for a new bucket, `taken` in the bucket.
use codegraph_mcp.Base.{
  Bool, Bool-cases, Dict, IsDistinct, Option, Option-cases, Str, ap, arith, get, get-keep, get-put,
  get_or, if◌then◌else◌, inl, inr, keep, keep-IsDistinct, keys, ltb, nat_key, none, not, pair_key,
  put, put-IsDistinct, refl, some, str_key, sym, ℕ, ◌*◌, ◌-◌, ◌<◌, ◌∙◌, ◌≡◌, ◌≤◌, ◌⊎◌,
}
use native.Mathlib.Nat.{mul-le-mul_right}
use codegraph_mcp.TokenBucket.{TokenBucket, init, refilled, take, peek_remaining}

pub record Registry : Type 0 where
  pub buckets : Dict Str TokenBucket
  pub last_sweep : ℕ

module _ (unit second : ℕ) where
  -- `_SWEEP_INTERVAL`
  abbrev pub sweep_interval : ℕ
  sweep_interval = 600 * second

  -- A bucket is kept if it was updated within the interval.
  pub drop_stale : ℕ → Dict Str TokenBucket → Dict Str TokenBucket
  drop_stale now = keep (λ e. not (ltb sweep_interval (now - e.1.updated)))

  unfoldable pub sweep : ℕ → Registry → Registry
  unfolding drop_stale
  sweep now g =
      if ltb sweep_interval (now - g.last_sweep)
      then record { buckets = drop_stale now g.buckets; last_sweep = now }
      else g

  -- The bucket that a call works on, in the registry after the sweep.
  unfoldable pub bucket_of : Str → ℕ → ℕ → ℕ → Registry → TokenBucket
  bucket_of key capacity refill made g = get_or key (init capacity refill made) g.buckets

  -- A new bucket is entered, and `take` writes to the entered object.
  unfoldable pub take_tokens : Str → ℕ → ℕ → ℕ → ℕ → ℕ → ℕ → Registry → Registry × Bool × ℕ
  unfolding sweep bucket_of drop_stale
  take_tokens key capacity refill n now made taken g =
      let swept = sweep now g in
      let (b, allowed, wait) =
        take unit second n taken (bucket_of key capacity refill made swept) in
      (record swept { buckets = put key b swept.buckets }, allowed, wait)

  -- The remaining tokens of a bucket, `none` if there is none; the bucket is refilled.
  unfoldable pub bucket_snapshot : Str → ℕ → Registry → Registry × Option ℕ
  bucket_snapshot key now g = elim (get key g.buckets) [
    | none ↦ (g, none)
    | some b ↦
        let (b', remaining) = peek_remaining unit second now b in
        (record g { buckets = put key b' g.buckets }, some remaining)
  ]

  refilled-idle :
      (capacity refill made taken : ℕ) (b : TokenBucket)
      → b.capacity ≡ capacity
      → b.refill ≡ refill
      → b.updated < taken
      → made ≤ taken
      → capacity ≤ (taken - b.updated) * refill
      → refilled taken b ≡ refilled taken (init capacity refill made)
  unfolding refilled init
  refilled-idle capacity refill made taken b c r u m full =
      ground (arith, ap (λ (f : ℕ). (taken - b.updated) * f) r)

  take-refilled :
      (n t : ℕ) (b c : TokenBucket)
      → refilled t b ≡ refilled t c
      → take unit second n t b ≡ take unit second n t c
  unfolding take
  take-refilled n t b c h = rw h

  -- The buckets of the registry have distinct names, no bucket was updated after `now`, and each one
  -- has the capacity and the refill that `take_tokens` is called with.
  pub record IsRegular (capacity refill now : ℕ) (g : Registry) : Type 0 where
    pub distinct : IsDistinct (keys g.buckets)
    pub shaped :
        (key : Str) (b : TokenBucket)
        → get key g.buckets ≡ some b
        → (b.capacity ≡ capacity)
          × (b.refill ≡ refill)
          × (b.updated ≤ now)
          × (b.tokens ≤ b.capacity)

  -- A bucket under the key, if there is one, has the capacity and the refill of the call.
  abbrev pub IsFitting : Str → ℕ → ℕ → ℕ → Registry → Type 0
  IsFitting key capacity refill now g =
      (b : TokenBucket)
      → get key g.buckets ≡ some b
      → (b.capacity ≡ capacity) × (b.refill ≡ refill) × (b.updated ≤ now)

  get-sweep :
      (key : Str) (now : ℕ) (g : Registry)
      → IsDistinct (keys g.buckets)
      → (get key (sweep now g).buckets ≡ get key g.buckets)
        ⊎ ((b : TokenBucket) × (get key g.buckets ≡ some b)
            × (get key (sweep now g).buckets ≡ none)
            × (sweep_interval < now - b.updated))
  unfolding sweep drop_stale
  get-sweep key now g h = elim (Bool-cases (ltb sweep_interval (now - g.last_sweep))) [
    | inl e ↦
        let kept = get-keep key (λ e. not (ltb sweep_interval (now - e.1.updated))) g.buckets h in
        elim (Option-cases (get key g.buckets)) [
          | inl absent ↦ inl (ground (arith, e, kept, absent))
          | inr (b, p) ↦ elim (Bool-cases (ltb sweep_interval (now - b.updated))) [
            | inl stale ↦ inr (b, p, ground (arith, e, kept, p, stale), ground (arith, stale))
            | inr fresh ↦ inl (ground (arith, e, kept, p, fresh))
          ]
        ]
    | inr e ↦ inl (ground (arith, e))
  ]

  bucket_of-some :
      (key : Str) (capacity refill made : ℕ) (g : Registry) (b : TokenBucket)
      → get key g.buckets ≡ some b
      → bucket_of key capacity refill made g ≡ b
  unfolding bucket_of get_or
  bucket_of-some key capacity refill made g b h = ground arith

  bucket_of-none :
      (key : Str) (capacity refill made : ℕ) (g : Registry)
      → get key g.buckets ≡ none
      → bucket_of key capacity refill made g ≡ init capacity refill made
  unfolding bucket_of get_or
  bucket_of-none key capacity refill made g h = ground arith

  take_tokens-answer :
      (key : Str) (capacity refill n now made taken : ℕ) (g : Registry)
      → (take_tokens key capacity refill n now made taken g).1
          ≡ (take unit second n taken (bucket_of key capacity refill made (sweep now g))).1
        × (take_tokens key capacity refill n now made taken g).2
          ≡ (take unit second n taken (bucket_of key capacity refill made (sweep now g))).2
  unfolding take_tokens
  take_tokens-answer key capacity refill n now made taken g = (refl, refl)

  take-sweep :
      (key : Str) (capacity refill n now made taken : ℕ) (g : Registry)
      → IsDistinct (keys g.buckets)
      → IsFitting key capacity refill now g
      → now ≤ made
      → made ≤ taken
      → capacity ≤ sweep_interval * refill
      → take unit second n taken (bucket_of key capacity refill made (sweep now g))
        ≡ take unit second n taken (bucket_of key capacity refill made g)
  unfolding bucket_of get_or
  take-sweep key capacity refill n now made taken g h fit m t full = elim (get-sweep key now g h) [
    | inl same ↦
        ap
          (λ (o : Option TokenBucket).
            take unit second n taken (elim o [ none ↦ init capacity refill made | some b ↦ b ]))
          same
    | inr (b, found, gone, idle) ↦
        let (c, r, u) = fit b found in
        let filled = refilled-idle capacity refill made taken b c r (omega arith) t (
          omega (
            arith,
            full,
            mul-le-mul_right {m = sweep_interval} {n = taken - b.updated} refill (omega arith),
          )) in
        ap (take unit second n taken) (bucket_of-none key capacity refill made (sweep now g) gone)
        ∙ sym (take-refilled n taken b (init capacity refill made) filled)
        ∙ sym (ap (take unit second n taken) (bucket_of-some key capacity refill made g b found))
  ]

  -- Dropping idle buckets is invisible: where the names are distinct, the refill fills a bucket within the
  -- sweep interval, the clock does not run back, and the bucket under the key, if there is one, has the
  -- capacity and the refill of the call, `take_tokens` grants and tells to wait, sweep or not, as the bucket
  -- that the registry held before would have. The other buckets may be of any shape.
  pub take_tokens-sweep :
      (key : Str) (capacity refill n now made taken : ℕ) (g : Registry)
      → IsDistinct (keys g.buckets)
      → IsFitting key capacity refill now g
      → now ≤ made
      → made ≤ taken
      → capacity ≤ sweep_interval * refill
      → ((take_tokens key capacity refill n now made taken g).1
          ≡ (take unit second n taken (bucket_of key capacity refill made g)).1)
        × ((take_tokens key capacity refill n now made taken g).2
            ≡ (take unit second n taken (bucket_of key capacity refill made g)).2)
  take_tokens-sweep key capacity refill n now made taken g h fit m t full =
      let e = take-sweep key capacity refill n now made taken g h fit m t full in
      let answer = take_tokens-answer key capacity refill n now made taken g in
      (answer.0 ∙ ap (λ r. r.1) e, answer.1 ∙ ap (λ r. r.2) e)

  sweep-IsDistinct :
      (now : ℕ) (g : Registry)
      → IsDistinct (keys g.buckets)
      → IsDistinct (keys (sweep now g).buckets)
  unfolding sweep drop_stale
  sweep-IsDistinct now g h = elim (Bool-cases (ltb sweep_interval (now - g.last_sweep))) [
    | inl e ↦ rw e (keep-IsDistinct (λ e. not (ltb sweep_interval (now - e.1.updated))) g.buckets h)
    | inr e ↦ rw e h
  ]

  -- The shape of one bucket, as the registry keeps it.
  abbrev HasShape : ℕ → ℕ → ℕ → TokenBucket → Type 0
  HasShape capacity refill now b =
      (b.capacity ≡ capacity) × (b.refill ≡ refill) × (b.updated ≤ now) × (b.tokens ≤ b.capacity)

  take-HasShape :
      (capacity refill now n taken : ℕ) (b : TokenBucket)
      → now ≤ taken
      → HasShape capacity refill now b
      → HasShape capacity refill taken (take unit second n taken b).0
  unfolding take refilled
  take-HasShape capacity refill now n taken b t h = ground arith

  bucket_of-HasShape :
      (key : Str) (capacity refill now made : ℕ) (g : Registry)
      → now ≤ made
      → IsRegular capacity refill now g
      → HasShape capacity refill made (bucket_of key capacity refill made g)
  unfolding init
  bucket_of-HasShape key capacity refill now made g m h = elim (Option-cases (get key g.buckets)) [
    | inl absent ↦
        rw (bucket_of-none key capacity refill made g absent) (refl, refl, omega arith, omega arith)
    | inr (b, found) ↦
        rw (bucket_of-some key capacity refill made g b found)
          (let s = h.shaped key b found in (s.0, s.1, omega (arith, s.2), s.3))
  ]

  sweep-IsRegular :
      (capacity refill now : ℕ) (g : Registry)
      → IsRegular capacity refill now g
      → IsRegular capacity refill now (sweep now g)
  sweep-IsRegular capacity refill now g h = record {
    distinct = sweep-IsDistinct now g h.distinct;
    shaped = λ key b found. elim (get-sweep key now g h.distinct) [
      | inl same ↦ h.shaped key b (sym same ∙ found)
      | inr (c, p, gone, idle) ↦ absurd (some≢none (sym found ∙ gone))
    ];
  }
    where
      some≢none : {b : TokenBucket} → some b ≡ none → ⊥
      some≢none e = cc

  -- `take_tokens` keeps the registry regular at the last reading of the clock.
  pub take_tokens-IsRegular :
      (key : Str) (capacity refill n now made taken : ℕ) (g : Registry)
      → IsRegular capacity refill now g
      → now ≤ made
      → made ≤ taken
      → IsRegular capacity refill taken (take_tokens key capacity refill n now made taken g).0
  unfolding take_tokens
  take_tokens-IsRegular key capacity refill n now made taken g h m t =
      let swept = sweep-IsRegular capacity refill now g h in
      let b = bucket_of key capacity refill made (sweep now g) in
      let b' = (take unit second n taken b).0 in
      let shape =
        take-HasShape capacity refill made n taken b t
          (bucket_of-HasShape key capacity refill now made (sweep now g) m swept) in
      record {
        distinct = put-IsDistinct key b' (sweep now g).buckets swept.distinct;
        shaped = λ j c found.
            ground (arith, get-put key j b' (sweep now g).buckets, swept.shaped j c, shape);
      }
