-- ===== src/GraphTools/Content.antt =====
-- get_symbol_content and the click-through (`get_symbol_content`, `_record_click_through`).
pub mod Pages
use codegraph_mcp.Base.{
  ==_of_ne, ==_refl, All, All-append, All-get, All-keep, All-put, Bool, Bool-cases, Call, Dict,
  IsBelow, IsDistinct, IsDistinct-append, IsSorted, Key, List, List-cases, Option, Option-cases,
  Str, Str-discrete, [], add, add-IsDistinct, any, ap, arith, decimal, diff, digits, ends_with,
  eq_of_==, false, foldl, fun_ext, get, get-keep, get-map_values, get-pop, get-put, get_absent,
  get_or, has, has-put, if◌then◌else◌, inl, inr, insert_sorted, is_space, keep, keep-IsDistinct,
  keep-append, keys, keys-put, last_piece, leb, leb→le, length, length-append, length-keep-le,
  length-map, length-sorted, length-take-le, lstrip, ltb, ltb→lt, map, map_values, max, member,
  member-add, member-append, member-diff, member-sorted, member-union, min, nat_key, neg_part,
  negsuc, none, not, pair_discrete, pair_key, pop, pos, pos_part, put, put-IsDistinct, raised, refl,
  returned, rstrip, short_name, some, sorted, sorted-IsSorted, starts_with, str, str_key, str_leb,
  str_leb_total, str_leb_trans, strip, strip-strip, sub_ℕ, subst, suc, sym, take, true, union,
  unseen, unseen-le, unseen_drops, zero, ℕ, ℕ_discrete, ℤ, ◌%◌, ◌&&◌, ◌*◌, ◌++◌, ◌+◌, ◌-◌, ◌/◌, ◌<◌,
  ◌==◌, ◌||◌, ◌↔◌, ◌∙◌, ◌∷◌, ◌≡◌, ◌≢◌, ◌≤ℤ◌, ◌≤◌, ◌⊎◌,
}

-- A chunk of the snapshot, its content as lines
pub record Source : Type 0 where
  pub symbol_id : Str
  pub start_line : ℕ
  pub end_line : ℕ
  pub lines : List Str

-- The first list is the enrichment, the second what follows it.
unfoldable pub split_enrichment : List Str → List Str × List Str
split_enrichment [] = ([], [])
split_enrichment (l ∷ ls) =
    let rest = split_enrichment ls in
    if starts_with (str "// ") l then (l ∷ rest.0, rest.1) else ([], l ∷ ls)

unfoldable pub drop_blank : List Str → List Str
drop_blank [] = []
drop_blank (l ∷ ls) = if l == [] then ls else l ∷ ls

unfoldable pub source_lines : List Str → List Str
source_lines ls = drop_blank (split_enrichment ls).1

unfoldable pub skip : ℕ → List Str → List Str
skip zero ls = ls
skip (suc n) [] = []
skip (suc n) (l ∷ ls) = skip n ls

-- `ls[a:b]` for a ≤ b
unfoldable pub slice : ℕ → ℕ → List Str → List Str
slice a b ls = take (b - a) (skip a ls)

-- `"\n".join(ls)`
unfoldable pub join_lines : List Str → Str
join_lines [] = []
join_lines (l ∷ []) = l
join_lines (l ∷ m ∷ ls) = l ++ (10 ∷ join_lines (m ∷ ls))

-- `start_line or chunk.start_line`
unfoldable pub or_else : Option ℕ → ℕ → ℕ
or_else none d = d
or_else (some n) d = if n == 0 then d else n

-- The lines from `lo` to `hi`, as numbers of the file, of a symbol that starts at `start`
unfoldable pub page_lines : ℕ → List Str → ℕ → ℕ → List Str
unfolding slice
page_lines start ls lo hi = slice (lo - start) (hi - start + 1) ls

pub data Content : Type 0 where
  not_in_index no_content : Content
  outside : ℕ → ℕ → Content
  page : ℕ → ℕ → Str → Bool → Content
  whole : Str → Bool → Content

abbrev pub page_content : Source → ℕ → ℕ → Content
page_content c lo hi =
    let text = join_lines (page_lines c.start_line (source_lines c.lines) lo hi) in
    if ltb hi lo then outside lo hi else page lo hi (take 16000 text) (ltb 400 (hi - lo + 1))

unfoldable pub chunk_content : Source → Option ℕ → Option ℕ → Content
unfolding or_else
chunk_content c none none =
    let text = join_lines (source_lines c.lines) in whole (take 8000 text) (ltb 8000 (length text))
chunk_content c (some a) end =
    page_content c (max (or_else (some a) c.start_line) c.start_line)
      (min (or_else end c.end_line) c.end_line)
chunk_content c none (some b) =
    page_content c (max c.start_line c.start_line) (min (or_else (some b) c.end_line) c.end_line)

unfoldable pub find_chunk : Str → List Source → Option Source
find_chunk s [] = none
find_chunk s (c ∷ cs) = let rest = find_chunk s cs in if c.symbol_id == s then some c else rest

-- `known` says whether the metadata has the symbol; without a snapshot there are no chunks.
unfoldable pub get_symbol_content : Bool → List Source → Str → Option ℕ → Option ℕ → Content
unfolding find_chunk
get_symbol_content known chunks s start end =
    if known
    then (elim (find_chunk s chunks) [ none ↦ no_content | some c ↦ chunk_content c start end ])
    else not_in_index

-- A search that was answered: when, its query, and its results
pub record Recent : Type 0 where
  pub at : ℕ
  pub query : Str
  pub results : List Str

unfoldable pub clicked : ℕ → ℕ → Str → Recent → Bool
clicked sec now s r = leb (now - r.at) (600 * sec) && member s (take 10 r.results)

-- The query that gets the vote, and the searches that are left: the first that fits goes.
unfoldable pub record_click_through : ℕ → ℕ → Str → Dict Str Recent → Option Str × Dict Str Recent
unfolding clicked
record_click_through sec now s [] = (none, [])
record_click_through sec now s ((key, r) ∷ rest) =
    let later = record_click_through sec now s rest in
    if clicked sec now s r then (some r.query, rest) else (later.0, (key, r) ∷ later.1)
