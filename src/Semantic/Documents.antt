-- ===== src/Semantic/Documents.antt =====
-- One document to a symbol.
use codegraph_mcp.Base.{
  ==_refl, IsDistinct, IsDistinct-append, List, Option, Str, [], ap, arith, eq_of_==, if◌then◌else◌,
  keep, map, member, nat_key, not, pair_key, refl, some, str_key, ◌&&◌, ◌++◌, ◌==◌, ◌∙◌, ◌∷◌, ◌≡◌,
}
use codegraph_mcp.Snapshot.{CodeChunk}
use mathlib.Core.List.{map-append}
use codegraph_mcp.Semantic.{upsert_chunk, upsert_chunks, get_chunk}

-- The last of the chunks with the symbol, or else what there was.
abbrev pub last_chunk : Str → List CodeChunk → Option CodeChunk → Option CodeChunk
last_chunk a [] old = old
last_chunk a (c ∷ cs) old = last_chunk a cs (if c.symbol_id == a then some c else old)

module _ {Embedding : Type 0} where
  abbrev pub symbols : List (CodeChunk × Embedding) → List Str
  symbols documents = map (λ item. item.0.symbol_id) documents

  get_chunk-append :
      (a : Str) (c : CodeChunk) (e : Embedding) (ds : List (CodeChunk × Embedding))
      → get_chunk a (keep (λ item. not (item.0.symbol_id == c.symbol_id)) ds ++ ((c, e) ∷ []))
        ≡ (if c.symbol_id == a then some c else get_chunk a ds)
  unfolding get_chunk
  get_chunk-append a c e [] = refl
  get_chunk-append a c e (d ∷ ds) = ground (
    arith,
    get_chunk-append a c e ds,
    eq_of_== d.0.symbol_id c.symbol_id,
    eq_of_== d.0.symbol_id a,
    eq_of_== c.symbol_id a,
    ==_refl a,
    ==_refl c.symbol_id,
  )

  member-kept :
      (a b : Str) (ds : List (CodeChunk × Embedding))
      → member a (symbols (keep (λ item. not (item.0.symbol_id == b)) ds))
        ≡ (not (a == b) && member a (symbols ds))
  unfolding member
  member-kept a b [] = ground arith
  member-kept a b (d ∷ ds) = ground (
    arith,
    member-kept a b ds,
    eq_of_== d.0.symbol_id b,
    eq_of_== a d.0.symbol_id,
    eq_of_== a b,
    ==_refl b,
    ==_refl d.0.symbol_id,
  )

  kept-IsDistinct :
      (b : Str) (ds : List (CodeChunk × Embedding))
      → IsDistinct (symbols ds)
      → IsDistinct (symbols (keep (λ item. not (item.0.symbol_id == b)) ds))
  kept-IsDistinct b [] h = tt
  kept-IsDistinct b (d ∷ ds) h =
      ground (arith, kept-IsDistinct b ds h.1, member-kept d.0.symbol_id b ds, h.0)

  upsert_chunk-IsDistinct :
      (embed : Str → Embedding) (c : CodeChunk) (ds : List (CodeChunk × Embedding))
      → IsDistinct (symbols ds)
      → IsDistinct (symbols (upsert_chunk embed c ds))
  unfolding upsert_chunk member
  upsert_chunk-IsDistinct embed c ds h =
      let kept = keep (λ item. not (item.0.symbol_id == c.symbol_id)) ds in
      rw
        (map-append (λ (item : CodeChunk × Embedding). item.0.symbol_id) kept
          ((c, embed c.content) ∷ []))
        (IsDistinct-append (symbols kept) (c.symbol_id ∷ []) (kept-IsDistinct c.symbol_id ds h)
          (refl, tt) (λ a m. ground (arith, member-kept a c.symbol_id ds)))

  -- After upsert_chunks a symbol has the last of the given chunks with that symbol, or else the chunk that
  -- it had; and the index keeps one document to a symbol.
  pub get_chunk-upsert_chunks :
      (embed : Str → Embedding) (a : Str) (cs : List CodeChunk) (ds : List (CodeChunk × Embedding))
      → (get_chunk a (upsert_chunks embed cs ds) ≡ last_chunk a cs (get_chunk a ds))
        × (IsDistinct (symbols ds) → IsDistinct (symbols (upsert_chunks embed cs ds)))
  unfolding upsert_chunks upsert_chunk
  get_chunk-upsert_chunks embed a [] ds = (refl, λ h. h)
  get_chunk-upsert_chunks embed a (c ∷ cs) ds =
      let rest = get_chunk-upsert_chunks embed a cs (upsert_chunk embed c ds) in
      (
        rest.0 ∙ ap (last_chunk a cs) (get_chunk-append a c (embed c.content) ds),
        λ h. rest.1 (upsert_chunk-IsDistinct embed c ds h),
      )
