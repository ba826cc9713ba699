-- ===== src/Resolve/Names.antt =====
-- What a name resolves to.
use codegraph_mcp.Base.{
  ==_refl, Bool, Bool-cases, Dict, List, Option, Option-cases, Str, [], arith, ends_with, eq_of_==,
  get, get-put, get_or, if◌then◌else◌, inl, inr, keep, leb, length, length-map, map, member,
  nat_key, none, pair_key, put, refl, short_name, some, str_key, subst, sym, true, ◌++◌, ◌==◌, ◌∙◌,
  ◌∷◌, ◌≡◌, ◌≤◌, ◌⊎◌,
}
use mathlib.Core.List.{append-nil, append_assoc}
use codegraph_mcp.Snapshot.{CodeChunk}
use codegraph_mcp.Resolve.{
  Entry, NameIndex, entry_of, symbol_name, add_chunks, build_name_index, parent_dir, admits,
  or_next, ids_of, resolve_scoped, resolve_candidates, hub_limit, resolve_skip_names,
}

abbrev pub named : Str → List CodeChunk → List Entry
named n chunks = map entry_of (keep (λ c. n == symbol_name c.symbol_id) chunks)

get_or-put :
    (a b : Str) (w : List Entry) (d : NameIndex)
    → get_or b [] (put a w d) ≡ (if b == a then w else get_or b [] d)
unfolding get_or
get_or-put a b w d = ground (arith, get-put a b w d)

get_or-add_chunks :
    (n : Str) (idx : NameIndex) (chunks : List CodeChunk)
    → get_or n [] (add_chunks idx chunks) ≡ get_or n [] idx ++ named n chunks
unfolding add_chunks
get_or-add_chunks n idx [] = sym (append-nil (get_or n [] idx))
get_or-add_chunks n idx (c ∷ cs) =
    let name = symbol_name c.symbol_id in
    let next = put name (get_or name [] idx ++ (entry_of c ∷ [])) idx in
    get_or-add_chunks n next cs ∙ (elim (Bool-cases (n == name)) [
      | inl e ↦ ground (
        arith,
        e,
        eq_of_== n name,
        get_or-put name n (get_or name [] idx ++ (entry_of c ∷ [])) idx,
        append_assoc (get_or name [] idx) (entry_of c ∷ []) (named n cs),
      )
      | inr e ↦ ground (arith, e, get_or-put name n (get_or name [] idx ++ (entry_of c ∷ [])) idx)
    ])

-- The index holds for each short name the symbols of that name, in the order of the chunks.
pub build_name_index-named :
    (n : Str) (chunks : List CodeChunk) → get_or n [] (build_name_index chunks) ≡ named n chunks
unfolding build_name_index get_or get
build_name_index-named n chunks = get_or-add_chunks n [] chunks

member-ids-keep :
    (i : Str) (p q : Entry → Bool) (es : List Entry)
    → ((e : Entry) → p e ≡ true → q e ≡ true)
    → member i (ids_of (keep p es)) ≡ true
    → member i (ids_of (keep q es)) ≡ true
unfolding member
member-ids-keep i p q [] sub h = h
member-ids-keep i p q (e ∷ es) sub h = elim (Bool-cases (p e)) [
  | inl f ↦ ground (arith, f, sub e, h, member-ids-keep i p q es sub)
  | inr f ↦ ground (arith, f, h, member-ids-keep i p q es sub)
]

member-ids :
    (i : Str) (p : Entry → Bool) (es : List Entry)
    → member i (ids_of (keep p es)) ≡ true
    → member i (ids_of es) ≡ true
unfolding member
member-ids i p [] h = h
member-ids i p (e ∷ es) h = ground (arith, h, member-ids i p es)

or_next_cases : (xs ys : List Str) → (or_next xs ys ≡ xs) ⊎ (or_next xs ys ≡ ys)
or_next_cases [] ys = inr refl
or_next_cases (x ∷ xs) ys = inl refl

from_few :
    (i : Str) (es : List Entry)
    → member i (if leb (length es) hub_limit then ids_of es else []) ≡ true
    → member i (ids_of es) ≡ true
unfolding member
from_few i es h = elim (Bool-cases (leb (length es) hub_limit)) [
  | inl e ↦ ground (arith, e, h)
  | inr e ↦ ground (arith, e, h)
]

length-few :
    (es : List Entry) → length (if leb (length es) hub_limit then ids_of es else []) ≤ hub_limit
length-few es = elim (Bool-cases (leb (length es) hub_limit)) [
  | inl e ↦ ground (arith, e, length-map (λ (x : Entry). x.id) es)
  | inr e ↦ ground (arith, e)
]

member-resolve_scoped :
    (i c f : Str) (index : NameIndex) (kinds : Option (List Str))
    → member i (resolve_scoped c f index kinds) ≡ true
    → member i (ids_of (keep (admits kinds) (get_or c [] index))) ≡ true
unfolding resolve_scoped
member-resolve_scoped i c f index kinds h =
    let es = keep (admits kinds) (get_or c [] index) in
    let near = ids_of (keep (λ e. parent_dir e.file == parent_dir f) es) in
    let few = if leb (length es) hub_limit then ids_of es else [] in
    elim (or_next_cases (ids_of (keep (λ e. e.file == f) es)) (or_next near few)) [
      | inl p ↦ member-ids i (λ e. e.file == f) es (subst (λ l. member i l ≡ true) p h)
      | inr p ↦ elim (or_next_cases near few) [
        | inl q ↦
            member-ids i (λ e. parent_dir e.file == parent_dir f) es
              (subst (λ l. member i l ≡ true) (p ∙ q) h)
        | inr q ↦ from_few i es (subst (λ l. member i l ≡ true) (p ∙ q) h)
      ]
    ]

from_import :
    (i target f : Str) (index : NameIndex) (kinds : Option (List Str))
    → member i (
        or_next
          (ids_of (
            keep
              (λ e. ends_with target e.id)
              (keep (admits kinds) (get_or (short_name target) [] index))))
          (resolve_scoped (short_name target) f index kinds))
      ≡ true
    → member i (ids_of (keep (admits kinds) (get_or (short_name target) [] index))) ≡ true
from_import i target f index kinds h =
    let es = keep (admits kinds) (get_or (short_name target) [] index) in
    elim (or_next_cases (ids_of (keep (λ e. ends_with target e.id) es))
      (resolve_scoped (short_name target) f index kinds)) [
        | inl p ↦ member-ids i (λ e. ends_with target e.id) es (subst (λ l. member i l ≡ true) p h)
        | inr p ↦
            member-resolve_scoped i (short_name target) f index kinds
              (subst (λ l. member i l ≡ true) p h)
      ]

-- The name that is looked up: the last piece of the import's target, if the candidate is imported.
abbrev pub looked_up : Str → Dict Str Str → Str
looked_up c import_map = elim (get c import_map) [ none ↦ c | some target ↦ short_name target ]

from_index :
    (i n : Str) (chunks : List CodeChunk) (kinds : Option (List Str)) (m : Str)
    → m ≡ n
    → member i (ids_of (keep (admits kinds) (get_or n [] (build_name_index chunks)))) ≡ true
    → member i (ids_of (keep (admits kinds) (named m chunks))) ≡ true
from_index i n chunks kinds m e h =
    subst (λ x. member i (ids_of (keep (admits kinds) (named x chunks))) ≡ true) (sym e)
      (subst (λ l. member i (ids_of (keep (admits kinds) l)) ≡ true)
        (build_name_index-named n chunks) h)

-- Every symbol that a name resolves to is a symbol of the chunks, of an admitted kind, with the short name
-- that was looked up.
pub member-resolve_candidates :
    (i c f : Str) (chunks : List CodeChunk) (kinds : Option (List Str)) (import_map : Dict Str Str)
    → member i (resolve_candidates c f (build_name_index chunks) kinds import_map) ≡ true
    → member i (ids_of (keep (admits kinds) (named (looked_up c import_map) chunks))) ≡ true
unfolding resolve_candidates member
member-resolve_candidates i c f chunks kinds import_map h =
    elim (Bool-cases (member c resolve_skip_names)) [
      | inl s ↦ ground (arith, s, h)
      | inr s ↦ elim (Option-cases (get c import_map)) [
        | inl g ↦
            from_index i c chunks kinds (looked_up c import_map) (ground (arith, g)) (
              member-resolve_scoped i c f (build_name_index chunks) kinds (ground (arith, s, g, h)))
        | inr (t, g) ↦
            from_index i (short_name t) chunks kinds (looked_up c import_map) (ground (arith, g))
              (from_import i t f (build_name_index chunks) kinds (ground (arith, s, g, h)))
      ]
    ]

-- A name never resolves to a hub: to more than three symbols only if all stand in the directory of the
-- file that mentions it.
pub resolve_scoped-local :
    (c f : Str) (index : NameIndex) (kinds : Option (List Str))
    → (length (resolve_scoped c f index kinds) ≤ hub_limit)
      ⊎ ((i : Str)
          → member i (resolve_scoped c f index kinds) ≡ true
          → member i (
              ids_of (
                keep
                  (λ e. parent_dir e.file == parent_dir f)
                  (keep (admits kinds) (get_or c [] index))))
            ≡ true)
unfolding resolve_scoped
resolve_scoped-local c f index kinds =
    let es = keep (admits kinds) (get_or c [] index) in
    let near = ids_of (keep (λ e. parent_dir e.file == parent_dir f) es) in
    let few = if leb (length es) hub_limit then ids_of es else [] in
    elim (or_next_cases (ids_of (keep (λ e. e.file == f) es)) (or_next near few)) [
      | inl p ↦ inr (λ i h.
          member-ids-keep i (λ e. e.file == f) (λ e. parent_dir e.file == parent_dir f) es
            (λ e q.
              subst (λ x. (parent_dir e.file == parent_dir x) ≡ true) (eq_of_== e.file f q)
                (==_refl (parent_dir e.file)))
            (subst (λ l. member i l ≡ true) p h))
      | inr p ↦ elim (or_next_cases near few) [
        | inl q ↦ inr (λ i h. subst (λ l. member i l ≡ true) (p ∙ q) h)
        | inr q ↦ inl (subst (λ l. length l ≤ hub_limit) (sym (p ∙ q)) (length-few es))
      ]
    ]
