-- ===== src/QueryCache.antt =====
-- The query cache over Redis (backend/app/core/query_cache.py). Redis, zlib, JSON and SHA-256 are parameters.
pub mod Keys
use codegraph_mcp.Base.{
  ==_of_ne, ==_refl, All, All-append, All-get, All-keep, All-put, Bool, Bool-cases, Call, Dict,
  IsBelow, IsDistinct, IsDistinct-append, IsSorted, Key, List, List-cases, Option, Option-cases,
  Str, Str-discrete, [], add, add-IsDistinct, any, ap, arith, decimal, diff, digits, ends_with,
  eq_of_==, false, foldl, fun_ext, get, get-keep, get-map_values, get-pop, get-put, get_absent,
  get_or, has, has-put, if◌then◌else◌, inl, inr, insert_sorted, is_space, keep, keep-IsDistinct,
  keep-append, keys, keys-put, last_piece, leb, leb→le, length, length-append, length-keep-le,
  length-map, length-sorted, length-take-le, lstrip, ltb, ltb→lt, map, map_values, max, member,
  member-add, member-append, member-diff, member-sorted, member-union, min, nat_key, neg_part,
  negsuc, none, not, pair_discrete, pair_key, pop, pos, pos_part, put, put-IsDistinct, raised, refl,
  returned, rstrip, short_name, some, sorted, sorted-IsSorted, starts_with, str, str_key, str_leb,
  str_leb_total, str_leb_trans, strip, strip-strip, sub_ℕ, subst, suc, sym, take, true, union, zero,
  ℕ, ℕ_discrete, ℤ, ◌%◌, ◌&&◌, ◌*◌, ◌++◌, ◌+◌, ◌-◌, ◌/◌, ◌<◌, ◌==◌, ◌||◌, ◌↔◌, ◌∙◌, ◌∷◌, ◌≡◌, ◌≢◌,
  ◌≤ℤ◌, ◌≤◌, ◌⊎◌,
}

-- The client of Redis over a state `R`: each call gives the state after it and what it returns or raises.
pub record Redis (R : Type 0) : Type 0 where
  pub fetch : Str → R → R × Call (Option Str)
  pub store : Str → Str → ℕ → R → R × Call (Unit {0})
  pub sadd : Str → Str → R → R × Call (Unit {0})
  pub expire : Str → ℕ → R → R × Call (Unit {0})
  pub scan : (Str → Bool) → R → R × Call (List Str)
  pub smembers : Str → R → R × Call (List Str)
  pub delete : List Str → R → R × Call ℕ

-- `json.dumps` and `json.loads` of payloads `J`, and zlib
pub record Codec (J : Type 0) : Type 0 where
  pub dumps : J → Call Str
  pub loads : Str → Call J
  pub compress : Str → Str
  pub decompress : Str → Call Str

pub record Stats : Type 0 where
  pub hits : ℕ
  pub misses : ℕ
  pub errors : ℕ
  pub sets : ℕ
  pub tag_invalidations : ℕ
  pub bytes_stored : ℕ

abbrev pub max_ttl : ℕ
max_ttl = 4 * 3600

abbrev pub magic_compressed : Str
magic_compressed = str "Z1:"

-- `max(1, min(ttl, MAX_TTL))`; a negative ttl is 0 here
unfoldable pub clamp_ttl : ℕ → ℕ
clamp_ttl ttl = max 1 (min ttl max_ttl)

unfoldable pub entry_key : ℕ → Str → Str → Str
entry_key gen tool args_key =
    str "cg:gen" ++ (decimal gen ++ (str ":" ++ (tool ++ (str ":" ++ args_key))))

unfoldable pub tag_key : ℕ → Str → Str
tag_key gen tag = str "cg:tag:" ++ (decimal gen ++ (str ":" ++ tag))

abbrev pub bump_hits : Stats → Stats
bump_hits s = record s { hits = s.hits + 1 }

abbrev pub bump_misses : Stats → Stats
bump_misses s = record s { misses = s.misses + 1 }

abbrev pub bump_errors : Stats → Stats
bump_errors s = record s { errors = s.errors + 1 }

-- What follows the prefix, none where the text does not start with it
unfoldable pub after_prefix : Str → Str → Option Str
after_prefix [] s = some s
after_prefix (c ∷ p) [] = none
after_prefix (c ∷ p) (d ∷ s) = let rest = after_prefix p s in if c == d then rest else none

module _ {J : Type 0} (codec : Codec J) where
  -- A stored blob as a payload
  unfoldable pub read_blob : Str → Call J
  read_blob raw = elim (after_prefix magic_compressed raw) [
    | none ↦ codec.loads raw
    | some body ↦ elim (codec.decompress body) [
      | raised e ↦ raised e
      | returned plain ↦ codec.loads plain
    ]
  ]

  -- Whether the blob is decompressed without an exception: then the hit is counted before `json.loads`.
  unfoldable pub counts_hit : Str → Bool
  counts_hit raw = elim (after_prefix magic_compressed raw) [
    | none ↦ true
    | some body ↦ elim (codec.decompress body) [ raised e ↦ false | returned plain ↦ true ]
  ]

  unfoldable pub read_found : Str → Stats → Stats × Option J
  read_found raw s =
      let t = if counts_hit raw then bump_hits s else s in
      elim (read_blob raw) [ raised e ↦ (bump_errors t, none) | returned j ↦ (t, some j) ]

  -- The blob: compressed only where that is shorter
  unfoldable pub blob_of : Str → Str
  blob_of plain =
      let compressed = magic_compressed ++ codec.compress plain in
      if ltb (length compressed) (length plain) then compressed else plain

module _ {R : Type 0} (redis : Redis R) where
  -- The loop over the tags, up to the first exception
  unfoldable pub add_tags : ℕ → List Str → Str → ℕ → R → R × Bool
  unfolding tag_key
  add_tags gen [] key ttl r = (r, true)
  add_tags gen (t ∷ ts) key ttl r =
      let a = redis.sadd (tag_key gen t) key r in
      let b = redis.expire (tag_key gen t) ttl a.0 in
      let rest = add_tags gen ts key ttl b.0 in
      elim a.1 [
        | raised e ↦ (a.0, false)
        | returned u ↦ elim b.1 [ raised e ↦ (b.0, false) | returned v ↦ rest ]
      ]

module _ {R J : Type 0} (redis : Redis R) (codec : Codec J) where
  -- The first argument says whether there is a client. The key is what `_entry_key` makes of the tool and the arguments,
  -- or raises where the arguments are no JSON: cache_get computes it outside of its try, and then raises too.
  unfoldable pub cache_get : Bool → Call Str → R → Stats → R × (Stats × Call (Option J))
  cache_get false key r s = (r, (s, returned none))
  cache_get true (raised e) r s = (r, (s, raised e))
  cache_get true (returned key) r s =
      let a = redis.fetch key r in
      let found : Str → Stats × Call (Option J) =
        λ raw. let f = read_found codec raw s in (f.0, returned f.1) in
      elim a.1 [
        | raised e ↦ (a.0, (bump_errors s, returned none))
        | returned none ↦ (a.0, (bump_misses s, returned none))
        | returned (some raw) ↦ (a.0, found raw)
      ]

  -- cache_set computes the key inside of its try.
  unfoldable pub cache_set : Bool → ℕ → Call Str → J → ℕ → List Str → R → Stats → R × Stats
  cache_set false gen key payload ttl tags r s = (r, s)
  cache_set true gen (raised e) payload ttl tags r s = (r, bump_errors s)
  cache_set true gen (returned key) payload ttl tags r s = elim (codec.dumps payload) [
    | raised e ↦ (r, bump_errors s)
    | returned plain ↦
        let blob = blob_of codec plain in
        let a = redis.store key blob (clamp_ttl ttl) r in
        let b = add_tags redis gen tags key (clamp_ttl ttl) a.0 in
        elim a.1 [
          | raised e ↦ (a.0, bump_errors s)
          | returned u ↦
              if b.1
              then (
                b.0,
                record s { sets = s.sets + 1; bytes_stored = s.bytes_stored + length blob },
              )
              else (b.0, bump_errors s)
        ]
  ]

-- The text ends with ":" and the tag, which `scan_iter` matches with "cg:tag:*:" and the
-- tag, for a tag without the signs of patterns.
unfoldable pub is_tag_key : Str → Str → Bool
unfolding after_prefix
is_tag_key tag key = elim (after_prefix (str "cg:tag:") key) [
  | none ↦ false
  | some rest ↦ ends_with (58 ∷ tag) rest
]

module _ {R : Type 0} (redis : Redis R) where
  -- One tag key: its members go, and it; the count so far, and whether nothing raised
  unfoldable pub drop_tag_key : Str → ℕ → R → R × (ℕ × Bool)
  drop_tag_key key removed r =
      let a = redis.smembers key r in
      elim a.1 [
        | raised e ↦ (a.0, (removed, false))
        | returned members ↦
            let b : R × Call ℕ =
              if length members == 0 then (a.0, returned 0) else redis.delete members a.0 in
            let c = redis.delete (key ∷ []) b.0 in
            elim b.1 [
              | raised e ↦ (b.0, (removed, false))
              | returned n ↦ elim c.1 [
                | raised e ↦ (c.0, (removed + n, false))
                | returned m ↦ (c.0, (removed + n, true))
              ]
            ]
      ]

  unfoldable pub drop_tag_keys : List Str → ℕ → R → R × (ℕ × Bool)
  drop_tag_keys [] removed r = (r, (removed, true))
  drop_tag_keys (key ∷ rest) removed r =
      let a = drop_tag_key key removed r in
      let b = drop_tag_keys rest a.1.0 a.0 in if a.1.1 then b else a

  unfoldable pub drop_tags : List Str → ℕ → R → R × (ℕ × Bool)
  unfolding is_tag_key
  drop_tags [] removed r = (r, (removed, true))
  drop_tags (tag ∷ tags) removed r =
      let a = redis.scan (is_tag_key tag) r in
      elim a.1 [
        | raised e ↦ (a.0, (removed, false))
        | returned found ↦
            let b = drop_tag_keys found removed a.0 in
            let rest = drop_tags tags b.1.0 b.0 in if b.1.1 then rest else b
      ]

  -- The count of the entries removed, which is also that up to an exception
  unfoldable pub invalidate_tags : Bool → List Str → R → Stats → R × (Stats × ℕ)
  invalidate_tags false tags r s = (r, (s, 0))
  invalidate_tags true [] r s = (r, (s, 0))
  invalidate_tags true (t ∷ ts) r s =
      let a = drop_tags (t ∷ ts) 0 r in
      if a.1.1
      then (a.0, (record s { tag_invalidations = s.tag_invalidations + a.1.0 }, a.1.0))
      else (a.0, (bump_errors s, a.1.0))

  unfoldable pub drop_keys : List Str → ℕ → R → R × (ℕ × Bool)
  drop_keys [] removed r = (r, (removed, true))
  drop_keys (key ∷ rest) removed r =
      let a = redis.delete (key ∷ []) r in
      elim a.1 [
        | raised e ↦ (a.0, (removed, false))
        | returned n ↦ drop_keys rest (removed + n) a.0
      ]

  unfoldable pub flush_all : Bool → R → Stats → R × (Stats × ℕ)
  flush_all false r s = (r, (s, 0))
  flush_all true r s =
      let a = redis.scan (λ key. starts_with (str "cg:") key) r in
      elim a.1 [
        | raised e ↦ (a.0, (bump_errors s, 0))
        | returned found ↦
            let b = drop_keys found 0 a.0 in
            if b.1.1 then (b.0, (s, b.1.0)) else (b.0, (bump_errors s, b.1.0))
      ]

-- The hit rate of `stats`, hits and the number of gets: none without gets, before its rounding
unfoldable pub hit_rate : Stats → Option (ℕ × ℕ)
hit_rate s = if leb 1 (s.hits + s.misses) then some (s.hits, s.hits + s.misses) else none
