-- ===== src/QueryCache/Keys.antt =====
-- What the query cache returns, over any Redis and any codec.
use codegraph_mcp.Base.{
  ==_refl, Bool-cases, Call, Call-cases, List, Option, Option-cases, Str, Str-discrete, [], ap,
  arith, false, inl, inr, length, ltb, nat_key, none, pair_key, raised, refl, returned, some,
  str_key, true, ℕ, ◌++◌, ◌+◌, ◌==◌, ◌∙◌, ◌∷◌, ◌≡◌, ◌≢◌, ◌≤◌, ◌⊎◌,
}
use codegraph_mcp.QueryCache.{
  Redis, Codec, Stats, max_ttl, magic_compressed, clamp_ttl, entry_key, tag_key, bump_hits,
  after_prefix, read_blob, counts_hit, read_found, cache_get, blob_of, add_tags, cache_set,
}

-- What the cache relies on: a fetch returns what the last store at its key put there, a store with a time of at least
-- one second succeeds, and the calls on the set at one key leave the others as they are, even where they raise.
pub record RedisLaws {R : Type 0} (redis : Redis R) : Type 0 where
  pub lookup : R → Str → Option Str
  pub fetch_view : (k : Str) (r : R) → redis.fetch k r ≡ (r, returned (lookup r k))
  pub store_ok : (k b : Str) (t : ℕ) (r : R) → 1 ≤ t → (redis.store k b t r).1 ≡ returned tt
  pub store_view : (k b : Str) (t : ℕ) (r : R) → 1 ≤ t → lookup (redis.store k b t r).0 k ≡ some b
  pub sadd_view :
      (k m a : Str) (r : R) → (a == k) ≡ false → lookup (redis.sadd k m r).0 a ≡ lookup r a
  pub expire_view :
      (k : Str) (t : ℕ) (a : Str) (r : R)
      → (a == k) ≡ false
      → lookup (redis.expire k t r).0 a ≡ lookup r a

-- What the cache relies on for one payload: JSON and zlib give back what they are given, and the text of JSON does not
-- begin with the prefix of the compressed blobs.
pub record CodecLaws {J : Type 0} (codec : Codec J) (j : J) : Type 0 where
  pub json : Str
  pub dumps_ok : codec.dumps j ≡ returned json
  pub loads_ok : codec.loads json ≡ returned j
  pub no_magic : after_prefix magic_compressed json ≡ none
  pub zlib : codec.decompress (codec.compress json) ≡ returned json

after_prefix-append : (p s : Str) → after_prefix p (p ++ s) ≡ some s
unfolding after_prefix
after_prefix-append [] s = refl
after_prefix-append (c ∷ p) s = ground (arith, ==_refl c, after_prefix-append p s)

-- An entry and the set of a tag never share a key.
entry_ne_tag :
    (gen other : ℕ) (tool args_key tag : Str)
    → (entry_key gen tool args_key == tag_key other tag) ≡ false
unfolding Str-discrete entry_key tag_key
entry_ne_tag gen other tool args_key tag = refl

module _ {J : Type 0} (codec : Codec J) where
  abbrev Reads : J → Str → Type 0
  Reads j raw = (read_blob codec raw ≡ returned j) × (counts_hit codec raw ≡ true)

  packed-Reads :
      (j : J) (c : CodecLaws codec j) → Reads j (magic_compressed ++ codec.compress c.json)
  unfolding read_blob counts_hit
  packed-Reads j c =
      let opened = after_prefix-append magic_compressed (codec.compress c.json) in
      (rw (read_blob, opened, c.zlib, c.loads_ok) refl, rw (counts_hit, opened, c.zlib) refl)

  plain-Reads : (j : J) (c : CodecLaws codec j) → Reads j c.json
  unfolding read_blob counts_hit
  plain-Reads j c = (rw (read_blob, c.no_magic, c.loads_ok) refl, rw (counts_hit, c.no_magic) refl)

  blob_of-Reads : (j : J) (c : CodecLaws codec j) → Reads j (blob_of codec c.json)
  unfolding blob_of
  blob_of-Reads j c =
      elim (Bool-cases (ltb (length (magic_compressed ++ codec.compress c.json)) (length c.json))) [
        | inl e ↦ rw e (packed-Reads j c)
        | inr e ↦ rw e (plain-Reads j c)
      ]

clamp_ttl-ge : (ttl : ℕ) → (1 ≤ clamp_ttl ttl) × (clamp_ttl ttl ≤ max_ttl)
unfolding clamp_ttl
clamp_ttl-ge ttl = ground arith

module _ {R : Type 0} (redis : Redis R) (laws : RedisLaws redis) where
  -- The sets of the tags leave an entry as it is.
  lookup-add_tags :
      (gen : ℕ) (tags : List Str) (key a : Str) (ttl : ℕ) (r : R)
      → ((tag : Str) → (a == tag_key gen tag) ≡ false)
      → laws.lookup (add_tags redis gen tags key ttl r).0 a ≡ laws.lookup r a
  unfolding add_tags
  lookup-add_tags gen [] key a ttl r h = refl
  lookup-add_tags gen (t ∷ ts) key a ttl r h = ground (
    arith,
    laws.sadd_view (tag_key gen t) key a r (h t),
    laws.expire_view (tag_key gen t) ttl a (redis.sadd (tag_key gen t) key r).0 (h t),
    lookup-add_tags gen ts key a ttl
        (redis.expire (tag_key gen t) ttl (redis.sadd (tag_key gen t) key r).0).0 h,
  )

module _ {R J : Type 0} (redis : Redis R) (codec : Codec J) (laws : RedisLaws redis) (j : J)
    (c : CodecLaws codec j) where
  lookup-cache_set :
      (gen : ℕ) (key : Str) (ttl : ℕ) (tags : List Str) (r : R) (s : Stats)
      → ((tag : Str) → (key == tag_key gen tag) ≡ false)
      → laws.lookup (cache_set redis codec true gen (returned key) j ttl tags r s).0 key
        ≡ some (blob_of codec c.json)
  unfolding cache_set blob_of
  lookup-cache_set gen key ttl tags r s h =
      let blob = blob_of codec c.json in
      let a = redis.store key blob (clamp_ttl ttl) r in
      let seen =
        lookup-add_tags redis laws gen tags key key (clamp_ttl ttl) a.0 h
        ∙ laws.store_view key blob (clamp_ttl ttl) r (clamp_ttl-ge ttl).0 in
      let ok = laws.store_ok key blob (clamp_ttl ttl) r (clamp_ttl-ge ttl).0 in
      elim (Bool-cases (add_tags redis gen tags key (clamp_ttl ttl) a.0).1) [
        | inl e ↦ rw (cache_set, c.dumps_ok, ok, e) seen
        | inr e ↦ rw (cache_set, c.dumps_ok, ok, e) seen
      ]

  -- What cache_set puts under the key of a tool and its arguments, cache_get gives back, as a hit: for any time to
  -- live, 0 included, any tags, and even where the calls on the sets of the tags raise.
  pub cache_get-cache_set :
      (gen : ℕ) (tool args_key : Str) (ttl : ℕ) (tags : List Str) (r : R) (s t : Stats)
      → (cache_get redis codec true
          (returned (entry_key gen tool args_key))
          (cache_set redis codec true gen (returned (entry_key gen tool args_key)) j ttl tags r s).0
          t).1
        ≡ (bump_hits t, returned (some j))
  unfolding cache_get read_found
  cache_get-cache_set gen tool args_key ttl tags r s t =
      let key = entry_key gen tool args_key in
      let after = (cache_set redis codec true gen (returned key) j ttl tags r s).0 in
      let found = lookup-cache_set gen key ttl tags r s (entry_ne_tag gen gen tool args_key) in
      let read = blob_of-Reads codec j c in
      rw (cache_get, laws.fetch_view key after, found, read_found, read.0, read.1) refl

raised_ne : {J : Type 0} (e : Str) (j : J) → ◌≢◌ {A = Call J} (raised e) (returned j)
raised_ne e j p = ground (arith, p)

module _ {R J : Type 0} (redis : Redis R) (codec : Codec J) where
  -- Every outcome of a get, as the theorem below states them of the pair that it gives
  abbrev Outcome : Stats → Stats × Option J → Type 0
  Outcome s x =
      ((j : J) × (x ≡ (bump_hits s, some j)))
      ⊎ ((x.1 ≡ none) × (x.0.misses + x.0.errors ≡ s.misses + s.errors + 1))

  counts_hit-of :
      (raw : Str) (j : J) → read_blob codec raw ≡ returned j → counts_hit codec raw ≡ true
  unfolding read_blob counts_hit
  counts_hit-of raw j h = elim (Option-cases (after_prefix magic_compressed raw)) [
    | inl e ↦ rw (counts_hit, e) refl
    | inr (body, e) ↦ elim (Call-cases (codec.decompress body)) [
      | inl (x, d) ↦ absurd (raised_ne x j (ground (arith, h, e, d)))
      | inr (plain, d) ↦ rw (counts_hit, e, d) refl
    ]
  ]

  read_found-Outcome : (raw : Str) (s : Stats) → Outcome s (read_found codec raw s)
  unfolding read_found
  read_found-Outcome raw s = elim (Call-cases (read_blob codec raw)) [
    | inl (e, h) ↦ elim (Bool-cases (counts_hit codec raw)) [
      | inl c ↦ inr (rw (read_found, h, c) (refl, omega arith))
      | inr c ↦ inr (rw (read_found, h, c) (refl, omega arith))
    ]
    | inr (j, h) ↦ inl (j, rw (read_found, h, counts_hit-of raw j h) refl)
  ]

  GetOutcome : Stats → Stats × Call (Option J) → Type 0
  GetOutcome s x =
      ((j : J) × (x ≡ (bump_hits s, returned (some j))))
      ⊎ ((x.1 ≡ returned none) × (x.0.misses + x.0.errors ≡ s.misses + s.errors + 1))

  Outcome-GetOutcome :
      (s : Stats) (f : Stats × Option J) → Outcome s f → GetOutcome s (f.0, returned f.1)
  unfolding GetOutcome
  Outcome-GetOutcome s f (inl (j, e)) = inl (j, ap (λ x. (x.0, returned x.1)) e)
  Outcome-GetOutcome s f (inr (e, h)) = inr (ap returned e, h)

  -- Without a client cache_get returns nothing, and no counter moves. With one it raises, with no counter moved,
  -- exactly where the key cannot be made of the arguments; however Redis, zlib or the JSON of the entry fail, it
  -- returns: a payload with the hits one up, or nothing with the misses and errors together one up.
  pub cache_get-outcome :
      (key : Str) (e : Str) (r : R) (s : Stats)
      → ((k : Call Str) → (cache_get redis codec false k r s).1 ≡ (s, returned none))
        × ((cache_get redis codec true (raised e) r s).1 ≡ (s, raised e))
        × (((j : J) × ((cache_get redis codec true (returned key) r s).1
                ≡ (bump_hits s, returned (some j))))
            ⊎ (((cache_get redis codec true (returned key) r s).1.1 ≡ returned none)
                × ((cache_get redis codec true (returned key) r s).1.0.misses
                      + (cache_get redis codec true (returned key) r s).1.0.errors
                    ≡ s.misses + s.errors + 1)))
  unfolding cache_get GetOutcome
  cache_get-outcome key e r s = (
    λ k. refl,
    refl,
    elim (Call-cases (redis.fetch key r).1) [
      | inl (x, h) ↦ rw (cache_get, h) (inr (refl, omega arith))
      | inr (o, h) ↦ elim (Option-cases o) [
        | inl n ↦ rw (cache_get, h, n) (inr (refl, omega arith))
        | inr (raw, n) ↦
            rw (cache_get, h, n)
              (Outcome-GetOutcome s (read_found codec raw s) (read_found-Outcome raw s))
      ]
    ],
  )
