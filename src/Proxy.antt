-- ===== src/Proxy.antt =====
-- GraphIndexProxy of backend/app/rag/retrieval/graph.py, over any type of backends; its lock makes each
-- operation one step. All other methods call the same method of the active backend.
pub mod Undo
pub mod Calls
use codegraph_mcp.Base.{
  ==_of_ne, ==_refl, All, All-append, All-get, All-keep, All-put, Bool, Bool-cases, Dict, IsBelow,
  IsDistinct, IsDistinct-append, IsSorted, Key, List, List-cases, Option, Option-cases, Str,
  Str-discrete, [], add, add-IsDistinct, any, ap, arith, diff, ends_with, eq_of_==, false, foldl,
  fun_ext, get, get-keep, get-map_values, get-pop, get-put, get_absent, get_or, has, has-put,
  if◌then◌else◌, inl, inr, insert_sorted, keep, keep-IsDistinct, keep-append, keys, keys-put,
  last_piece, leb, leb→le, length, length-append, length-keep-le, length-map, length-sorted,
  length-take-le, ltb, ltb→lt, map, map_values, max, member, member-add, member-append, member-diff,
  member-sorted, member-union, min, nat_key, neg_part, negsuc, none, not, pair_discrete, pair_key,
  pop, pos, pos_part, put, put-IsDistinct, refl, short_name, some, sorted, sorted-IsSorted,
  starts_with, str, str_key, str_leb, str_leb_total, str_leb_trans, sub_ℕ, subst, suc, sym, take,
  true, union, zero, ℕ, ℕ_discrete, ℤ, ◌%◌, ◌&&◌, ◌*◌, ◌++◌, ◌+◌, ◌-◌, ◌/◌, ◌<◌, ◌==◌, ◌||◌, ◌↔◌,
  ◌∙◌, ◌∷◌, ◌≡◌, ◌≢◌, ◌≤ℤ◌, ◌≤◌, ◌⊎◌,
}

pub record GraphIndexProxy (Backend : Type 0) : Type 0 where
  pub backend : Backend
  -- The previous backends, the last one last
  pub history : List Backend

-- `list.pop()`: the last item and the list without it.
unfoldable pub pop_last {ℓ} : {A : Type ℓ} → List A → Option (A × List A)
pop_last [] = none
pop_last (x ∷ xs) = elim (pop_last xs) [ none ↦ some (x, []) | some r ↦ some (r.0, x ∷ r.1) ]

-- `max(1, min(int(depth), 5))`, and 1 where int() raises
unfoldable pub clamp_depth : Option ℤ → ℕ
clamp_depth none = 1
clamp_depth (some d) = max 1 (min (pos_part d) 5)

module _ {Backend : Type 0} where
  unfoldable pub swap : Backend → GraphIndexProxy Backend → GraphIndexProxy Backend × Backend
  swap fresh p = (record { backend = fresh; history = p.history ++ (p.backend ∷ []) }, p.backend)

  -- The old and the current backend; nothing without a history.
  unfoldable pub rollback :
      GraphIndexProxy Backend → GraphIndexProxy Backend × Option (Backend × Backend)
  rollback p = elim (pop_last p.history) [
    | none ↦ (p, none)
    | some r ↦ (record { backend = r.0; history = r.1 }, some (r.0, p.backend))
  ]
