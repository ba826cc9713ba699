-- ===== src/TokenBucket.antt =====
-- backend/app/core/token_bucket.py. Tokens are counted in units, `unit` of them to a token, and the
-- clock in ticks, `second` of them to a second, so that a bucket refills by a whole number of units
-- in a tick; the rounding of the source's floats is not modelled. A reading of the clock is an argument.
pub mod Supply
pub mod Retry
pub mod Registry
use codegraph_mcp.Base.{
  ==_of_ne, ==_refl, All, All-append, All-keep, Bool, Bool-cases, Dict, IsBelow, IsDistinct,
  IsDistinct-append, IsSorted, Key, List, List-cases, Option, Option-cases, Str, Str-discrete, [],
  add, any, ap, arith, diff, eq_of_==, false, foldl, fun_ext, get, get-map_values, get-pop, get-put,
  get_or, has, has-put, if◌then◌else◌, inl, inr, insert_sorted, keep, keep-append, keys, leb,
  leb→le, length, length-append, length-keep-le, length-map, length-sorted, length-take-le, ltb,
  ltb→lt, map, map_values, max, member, member-add, member-append, member-diff, member-sorted,
  member-union, min, nat_key, neg_part, negsuc, none, not, pair_discrete, pair_key, pop, pos,
  pos_part, put, refl, some, sorted, sorted-IsSorted, starts_with, str, str_key, str_leb,
  str_leb_total, str_leb_trans, sub_ℕ, subst, suc, sym, true, union, zero, ℕ, ℕ_discrete, ℤ, ◌%◌,
  ◌&&◌, ◌*◌, ◌++◌, ◌+◌, ◌-◌, ◌/◌, ◌<◌, ◌==◌, ◌||◌, ◌↔◌, ◌∙◌, ◌∷◌, ◌≡◌, ◌≢◌, ◌≤ℤ◌, ◌≤◌, ◌⊎◌,
}

pub record TokenBucket : Type 0 where
  pub capacity : ℕ
  -- `refill_per_sec`, in units per tick
  pub refill : ℕ
  pub tokens : ℕ
  pub updated : ℕ

-- `TokenBucket(capacity, refill_per_sec)` at `now`
unfoldable pub init : ℕ → ℕ → ℕ → TokenBucket
init capacity refill now = record {
  capacity = capacity;
  refill = refill;
  tokens = capacity;
  updated = now;
}

unfoldable pub refilled : ℕ → TokenBucket → TokenBucket
refilled now b =
    if ltb b.updated now
    then record b {
      tokens = min b.capacity (b.tokens + (now - b.updated) * b.refill);
      updated = now;
    }
    else b

-- `math.ceil(a / b)`, for b > 0
unfoldable pub ceil_div : ℕ → ℕ → ℕ
ceil_div a b = (a + (b - 1)) / b

module _ (unit second : ℕ) where
  -- seconds until `deficit` units are refilled
  unfoldable pub retry_after : ℕ → ℕ → ℕ
  unfolding ceil_div
  retry_after refill deficit =
      max 1 (if ltb 0 (refill * second) then ceil_div deficit (refill * second) else 60)

  -- The bucket after the call, whether `n` tokens were taken, and the seconds to wait.
  unfoldable pub take : ℕ → ℕ → TokenBucket → TokenBucket × Bool × ℕ
  take n now b =
      let r = refilled now b in
      if leb (n * unit) r.tokens
      then (record r { tokens = r.tokens - n * unit }, true, 0)
      else (r, false, retry_after r.refill (n * unit - r.tokens))

  unfoldable pub peek_remaining : ℕ → TokenBucket → TokenBucket × ℕ
  peek_remaining now b = let r = refilled now b in (r, r.tokens / unit)
