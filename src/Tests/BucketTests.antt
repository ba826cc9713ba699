-- ===== src/Tests/BucketTests.antt =====
-- Token buckets of one unit to a token and one tick to a second.
use codegraph_mcp.Base.{
  IsDistinct, Str-discrete, [], arith, false, get, keys, member, nat_key, pair_key, refl, str,
  str_key, true, ◌*◌, ◌+◌, ◌-◌, ◌<◌, ◌∷◌, ◌≡◌, ◌≤◌,
}
use codegraph_mcp.TokenBucket.{TokenBucket, refilled, take, retry_after}
use codegraph_mcp.TokenBucket.Supply.{grants, grants_bounded}
use codegraph_mcp.TokenBucket.Retry.{retry_exact}
use codegraph_mcp.TokenBucket.Registry.{
  Registry, take_tokens, bucket_of, IsRegular, IsFitting, take_tokens-sweep, take_tokens-IsRegular,
}

abbrev small : TokenBucket
small = record { capacity = 3; refill = 2; tokens = 1; updated = 10 }

take_run :
    (take 1 1 3 10 small ≡ (small, false, 1))
    × (take 1 1 3 11 small ≡ (record small { tokens = 0; updated = 11 }, true, 0))
unfolding take refilled retry_after
take_run = (refl, refl)

grants_bounded_example :
    (grants 1 1 ((3, 10) ∷ (3, 11) ∷ (2, 12) ∷ []) small).1 * 1 ≤ 3 + (12 - 10) * 2
grants_bounded_example =
    grants_bounded 1 1 ((3, 10) ∷ (3, 11) ∷ (2, 12) ∷ []) 12 small (omega arith) (omega arith)
      (omega arith)

-- It refills by one token a second: three more tokens take two seconds.
abbrev slow : TokenBucket
slow = record { capacity = 3; refill = 1; tokens = 1; updated = 10 }

slow_run : (take 1 1 3 10 slow).2 ≡ 2
unfolding take refilled retry_after
slow_run = refl

retry_exact_example :
    ((take 1 1 3 10 slow).2 * 1 ≤ 11 - (take 1 1 3 10 slow).0.updated
      → (take 1 1 3 11 (take 1 1 3 10 slow).0).1 ≡ true)
    × (1 < (take 1 1 3 10 slow).2
        → 11 - (take 1 1 3 10 slow).0.updated ≤ ((take 1 1 3 10 slow).2 - 1) * 1
        → (take 1 1 3 11 (take 1 1 3 10 slow).0).1 ≡ false)
unfolding take refilled
retry_exact_example =
    retry_exact 1 1 3 10 11 slow (omega arith) (omega arith) (omega arith) refl (omega arith)

abbrev registry : Registry
registry = record { buckets = (str "mcp:a", small) ∷ []; last_sweep = 0 }

registry-IsRegular : IsRegular 1 1 3 2 2000 registry
unfolding get member
registry-IsRegular = record { distinct = (refl, tt); shaped = λ key b found. ground arith }

-- The bucket of the logins has another shape than those of the tool calls.
abbrev login : TokenBucket
login = record { capacity = 5; refill = 1; tokens = 0; updated = 3 }

abbrev shared : Registry
shared = record { buckets = (str "mcp:a", small) ∷ (str "login", login) ∷ []; last_sweep = 0 }

shared-IsDistinct : IsDistinct (keys shared.buckets)
unfolding member Str-discrete
shared-IsDistinct = (refl, (refl, tt))

shared-IsFitting : IsFitting 1 1 (str "mcp:a") 3 2 2000 shared
unfolding get Str-discrete
shared-IsFitting b found = ground arith

take_tokens-sweep_example :
    ((take_tokens 1 1 (str "mcp:a") 3 2 1 2000 2000 2001 shared).1
      ≡ (take 1 1 1 2001 (bucket_of 1 1 (str "mcp:a") 3 2 2000 shared)).1)
    × ((take_tokens 1 1 (str "mcp:a") 3 2 1 2000 2000 2001 shared).2
        ≡ (take 1 1 1 2001 (bucket_of 1 1 (str "mcp:a") 3 2 2000 shared)).2)
take_tokens-sweep_example =
    take_tokens-sweep 1 1 (str "mcp:a") 3 2 1 2000 2000 2001 shared shared-IsDistinct
      shared-IsFitting (omega arith) (omega arith) (omega arith)

take_tokens-IsRegular_example :
    IsRegular 1 1 3 2 2001 (take_tokens 1 1 (str "mcp:a") 3 2 1 2000 2000 2001 registry).0
take_tokens-IsRegular_example =
    take_tokens-IsRegular 1 1 (str "mcp:a") 3 2 1 2000 2000 2001 registry registry-IsRegular
      (omega arith) (omega arith)
