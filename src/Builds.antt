-- ===== src/Builds.antt =====
-- backend/app/rag/reinforcement/build_registry.py: the table build_registry is the list of its rows,
-- each function one transaction on it. The ids (uuid4) and the times are arguments.
pub mod Table
pub mod Active
pub mod Steps
pub mod LastBuild
pub mod Undone
use codegraph_mcp.Base.{
  ==_of_ne, ==_refl, All, All-append, All-keep, Bool, Bool-cases, Dict, IsBelow, IsDistinct,
  IsDistinct-append, IsSorted, Key, List, List-cases, Option, Option-cases, Str, Str-discrete, [],
  add, add-IsDistinct, any, ap, arith, diff, eq_of_==, false, foldl, fun_ext, get, get-keep,
  get-map_values, get-pop, get-put, get_absent, get_or, has, has-put, if◌then◌else◌, inl, inr,
  insert_sorted, keep, keep-IsDistinct, keep-append, keys, keys-put, leb, leb→le, length,
  length-append, length-keep-le, length-map, length-sorted, length-take-le, ltb, ltb→lt, map,
  map_values, max, member, member-add, member-append, member-diff, member-sorted, member-union, min,
  nat_key, neg_part, negsuc, none, not, pair_discrete, pair_key, pop, pos, pos_part, put,
  put-IsDistinct, refl, some, sorted, sorted-IsSorted, starts_with, str, str_key, str_leb,
  str_leb_total, str_leb_trans, sub_ℕ, subst, suc, sym, take, true, union, zero, ℕ, ℕ_discrete, ℤ,
  ◌%◌, ◌&&◌, ◌*◌, ◌++◌, ◌+◌, ◌-◌, ◌/◌, ◌<◌, ◌==◌, ◌||◌, ◌↔◌, ◌∙◌, ◌∷◌, ◌≡◌, ◌≢◌, ◌≤ℤ◌, ◌≤◌, ◌⊎◌,
}

pub data Status : Type 0 where
  building active superseded rolled_back : Status

abbrev code : Status → ℕ
code building = 0
code active = 1
code superseded = 2
code rolled_back = 3

-- `status = ...`
abbrev pub has_status : Status → Status → Bool
has_status s t = code s == code t

-- A row, with a type of quality scores; the feedback ids and the metadata as their JSON values.
pub record Build (Score : Type 0) : Type 0 where
  pub build_id : Str
  pub parent_build_id : Option Str
  pub build_type : Str
  pub status : Status
  pub weaviate_collection : Option Str
  pub neo4j_gen : Option ℕ
  pub chunk_count : ℕ
  pub graph_nodes : ℕ
  pub graph_edges : ℕ
  pub feedback_ids : List Str
  pub feedback_count : ℕ
  pub quality_score : Option Score
  pub parent_quality_score : Option Score
  pub created_at : ℕ
  pub completed_at : Option ℕ
  pub superseded_at : Option ℕ
  pub rolled_back_at : Option ℕ
  pub rollback_reason : Option Str
  pub metadata : Str

-- SELECT * ... LIMIT 1
unfoldable pub select_one {ℓ} : {A : Type ℓ} → (A → Bool) → List A → Option A
select_one p [] = none
select_one p (x ∷ xs) = if p x then some x else select_one p xs

-- UPDATE ... SET f WHERE p
unfoldable pub update_rows {ℓ} : {A : Type ℓ} → (A → Bool) → (A → A) → List A → List A
update_rows p f [] = []
update_rows p f (x ∷ xs) = (if p x then f x else x) ∷ update_rows p f xs

-- `if parent_build_id`: neither None nor ''
abbrev pub given_parent : Option Str → Option Str
given_parent none = none
given_parent (some []) = none
given_parent (some (c ∷ cs)) = some (c ∷ cs)

-- ORDER BY completed_at DESC, where NULL comes first
abbrev pub comes_after : Option ℕ → Option ℕ → Bool
comes_after none t = false
comes_after (some s) none = true
comes_after (some s) (some t) = ltb s t

-- `status in ("active", "superseded")`
abbrev pub can_roll_back : Status → Bool
can_roll_back s = has_status s active || has_status s superseded

-- `status in ("superseded", "rolled_back")`
abbrev pub can_restore : Status → Bool
can_restore s = has_status s superseded || has_status s rolled_back

pub record BuildStats (Score : Type 0) : Type 0 where
  pub total_builds : ℕ
  pub active_builds : ℕ
  pub superseded_builds : ℕ
  pub rolled_back_builds : ℕ
  pub building_builds : ℕ
  pub active_build : Option (Build Score)

module _ {Score : Type 0} where
  abbrev pub has_id : Str → Build Score → Bool
  has_id i b = b.build_id == i

  abbrev pub is_active : Build Score → Bool
  is_active b = has_status b.status active

  unfoldable pub get_build : Str → List (Build Score) → Option (Build Score)
  get_build i rows = select_one (has_id i) rows

  unfoldable pub quality_of : Option Str → List (Build Score) → Option Score
  quality_of parent rows = elim (given_parent parent) [
    | none ↦ none
    | some p ↦ elim (get_build p rows) [ none ↦ none | some b ↦ b.quality_score ]
  ]

  abbrev pub new_row :
      Str
      → Str
      → Option Str
      → Option Str
      → Option ℕ
      → List Str
      → Str
      → ℕ
      → Option Score
      → Build Score
  new_row new kind parent collection gen feedback meta now quality = record {
    build_id = new;
    parent_build_id = parent;
    build_type = kind;
    status = building;
    weaviate_collection = collection;
    neo4j_gen = gen;
    chunk_count = 0;
    graph_nodes = 0;
    graph_edges = 0;
    feedback_ids = feedback;
    feedback_count = length feedback;
    quality_score = none;
    parent_quality_score = quality;
    created_at = now;
    completed_at = none;
    superseded_at = none;
    rolled_back_at = none;
    rollback_reason = none;
    metadata = meta;
  }

  -- The primary key refuses a second row with the id.
  unfoldable pub register_build :
      Str
      → Str
      → Option Str
      → Option Str
      → Option ℕ
      → List Str
      → Str
      → ℕ
      → List (Build Score)
      → Option (List (Build Score))
  register_build new kind parent collection gen feedback meta now rows = elim (get_build new rows) [
    | some _ ↦ none
    | none ↦ some (
        rows
        ++ (new_row new kind parent collection gen feedback meta now (quality_of parent rows) ∷ []))
  ]

  abbrev pub completed : ℕ → ℕ → ℕ → ℕ → Build Score → Build Score
  completed now chunks nodes edges b = record b {
    status = active;
    completed_at = some now;
    chunk_count = chunks;
    graph_nodes = nodes;
    graph_edges = edges;
  }

  abbrev pub supersede : ℕ → Build Score → Build Score
  supersede now b = record b { status = superseded; superseded_at = some now }

  -- The clock is read for each of the two updates.
  unfoldable pub complete_build : Str → ℕ → ℕ → ℕ → ℕ → ℕ → List (Build Score) → List (Build Score)
  complete_build i chunks nodes edges now later rows =
      update_rows (λ b. is_active b && not (has_id i b)) (supersede later)
        (update_rows (has_id i) (completed now chunks nodes edges) rows)

  unfoldable pub latest : List (Build Score) → Option (Build Score)
  latest [] = none
  latest (b ∷ bs) =
      let rest = latest bs in
      elim rest [
        | none ↦ some b
        | some c ↦ if comes_after b.completed_at c.completed_at then some c else some b
      ]

  unfoldable pub get_active_build : List (Build Score) → Option (Build Score)
  get_active_build rows = latest (keep is_active rows)

  unfoldable pub update_quality_score : Str → Score → List (Build Score) → List (Build Score)
  update_quality_score i score rows =
      update_rows (has_id i) (λ b. record b { quality_score = some score }) rows

  abbrev pub rolled : ℕ → Str → Build Score → Build Score
  rolled now reason b = record b {
    status = rolled_back;
    rolled_back_at = some now;
    rollback_reason = some reason;
  }

  abbrev pub restored : Build Score → Build Score
  restored b = record b { status = active; superseded_at = none; rolled_back_at = none }

  -- The parent as it was read, and the table with the parent active again.
  unfoldable pub restore_parent :
      Option Str → List (Build Score) → Option (Build Score) × List (Build Score)
  restore_parent parent rows = elim (given_parent parent) [
    | none ↦ (none, rows)
    | some p ↦ elim (get_build p rows) [
      | none ↦ (none, rows)
      | some b ↦
          (some b, if can_restore b.status then update_rows (has_id p) restored rows else rows)
    ]
  ]

  unfoldable pub rollback_build :
      Str → Str → ℕ → List (Build Score) → Option (Build Score) × List (Build Score)
  rollback_build i reason now rows = elim (get_build i rows) [
    | none ↦ (none, rows)
    | some b ↦
        if can_roll_back b.status
        then restore_parent b.parent_build_id (update_rows (has_id i) (rolled now reason) rows)
        else (none, rows)
  ]

  -- GROUP BY status, COUNT(*)
  unfoldable pub count_status : Status → List (Build Score) → ℕ
  count_status s rows = length (keep (λ b. has_status b.status s) rows)

  unfoldable pub get_build_stats : List (Build Score) → BuildStats Score
  get_build_stats rows = record {
    total_builds =
        count_status building rows
        + count_status active rows
        + count_status superseded rows
        + count_status rolled_back rows;
    active_builds = count_status active rows;
    superseded_builds = count_status superseded rows;
    rolled_back_builds = count_status rolled_back rows;
    building_builds = count_status building rows;
    active_build = select_one is_active rows;
  }
