-- ===== src/Graph/History.antt =====
-- Sequences of writes to the index, as the indexing service makes them: `upsert_symbol` is always
-- called with `calls` and `uses_with_modes` alone.
use codegraph_mcp.Base.{
  All, List, Str, [], get, get_or, member, member-sorted, nat_key, pair_key, refl, str_key, sym,
  ◌∙◌, ◌∷◌, ◌≡◌,
}
use codegraph_mcp.Graph.{GraphIndex, Upsert, empty, reset, upsert_symbol, remove_symbols, neighbors}
use codegraph_mcp.Graph.Mirror.{IsMirrored, upsert_symbol-IsMirrored, remove_symbols-IsMirrored}
use codegraph_mcp.Graph.Query.{get_blast_radius}

pub data Operation : Type 0 where
  upsert : Str → Upsert → Operation
  remove : List Str → Operation
  clear : Operation

unfoldable pub apply : Operation → GraphIndex → GraphIndex
apply (upsert s u) g = upsert_symbol s u g
apply (remove gone) g = remove_symbols gone g
apply clear g = reset g

unfoldable pub run : List Operation → GraphIndex → GraphIndex
unfolding apply
run [] g = g
run (o ∷ os) g = run os (apply o g)

abbrev pub IsOneSided : Operation → Type 0
IsOneSided (upsert s u) = (u.called_by ≡ []) × (u.used_by ≡ [])
IsOneSided (remove gone) = Unit
IsOneSided clear = Unit

empty-IsMirrored : IsMirrored empty
unfolding neighbors get_or get member
empty-IsMirrored = record { calls = λ s t. refl; uses = λ s t. refl }

apply-IsMirrored :
    (o : Operation) (g : GraphIndex) → IsOneSided o → IsMirrored g → IsMirrored (apply o g)
unfolding apply reset
apply-IsMirrored (upsert s u) g h m = upsert_symbol-IsMirrored s u g h.0 h.1 m
apply-IsMirrored (remove gone) g h m = remove_symbols-IsMirrored gone g m
apply-IsMirrored clear g h m = empty-IsMirrored

run-IsMirrored :
    (os : List Operation) (g : GraphIndex)
    → All IsOneSided os
    → IsMirrored g
    → IsMirrored (run os g)
unfolding run
run-IsMirrored [] g h m = m
run-IsMirrored (o ∷ os) g h m = run-IsMirrored os (apply o g) h.1 (apply-IsMirrored o g h.0 m)

-- After any sequence of writes to an empty index in which no upsert names callers or users, `t` is
-- among the callees of `s` exactly if `s` is among the callers of `t`, and `t` among the types that
-- `s` uses exactly if `s` is among the users of `t`, as `get_blast_radius` reports them.
pub blast_radius_symmetric :
    (os : List Operation) (s t : Str)
    → All IsOneSided os
    → (member t (get_blast_radius (run os empty) s).downstream
        ≡ member s (get_blast_radius (run os empty) t).upstream)
      × (member t (get_blast_radius (run os empty) s).uses
          ≡ member s (get_blast_radius (run os empty) t).used_by)
unfolding get_blast_radius
blast_radius_symmetric os s t h =
    let g = run os empty in
    let m = run-IsMirrored os empty h empty-IsMirrored in
    (
      member-sorted t (neighbors s g.downstream)
          ∙ m.calls s t
          ∙ sym (member-sorted s (neighbors t g.upstream)),
      member-sorted t (neighbors s g.uses)
          ∙ m.uses s t
          ∙ sym (member-sorted s (neighbors t g.used_by)),
    )
