-- ===== src/Base/Dicts.antt =====
-- A Python dict, as an association list in insertion order.
use mathlib.Core.Path.{◌≡◌, refl, subst}
use mathlib.Core.Bool.{Bool, true, false}
use mathlib.Core.Option.{Option, none, some, some-injective}
use mathlib.Core.List.{List, [], ◌∷◌, map}
use mathlib.Core.Logic.{inl, inr}
use native.Mathlib.Omega.{arith}
use codegraph_mcp.Base.Tests.{Key, ◌==◌, if◌then◌else◌, Bool-cases}
use codegraph_mcp.Base.Lists.{keep, All}
use codegraph_mcp.Base.Sets.{member, add, IsDistinct, add-IsDistinct}

abbrev pub Dict {ℓ κ} : Type ℓ → Type κ → Type (ℓ ⊔ κ)
Dict K V = List (K × V)

module _ {ℓ κ} {K : Type ℓ} {V : Type κ} ⦃k : Key K⦄ where
  -- `d.get(a)`
  unfoldable pub get : K → Dict K V → Option V
  get a [] = none
  get a ((b, v) ∷ d) = if a == b then some v else get a d

  -- `d.get(a, v)`
  unfoldable pub get_or : K → V → Dict K V → V
  unfolding get
  get_or a v d = elim (get a d) [ none ↦ v | some w ↦ w ]

  -- `a in d`
  unfoldable pub has : K → Dict K V → Bool
  unfolding get
  has a d = elim (get a d) [ none ↦ false | some _ ↦ true ]

  -- `d[a] = v`
  unfoldable pub put : K → V → Dict K V → Dict K V
  put a v [] = (a, v) ∷ []
  put a v ((b, w) ∷ d) = if a == b then (b, v) ∷ d else (b, w) ∷ put a v d

  -- `d.pop(a, None)`; a key stands once in a dict
  unfoldable pub pop : K → Dict K V → Dict K V
  pop a [] = []
  pop a ((b, w) ∷ d) = let rest = pop a d in if a == b then rest else (b, w) ∷ rest

  pub get-put :
      (a b : K) (v : V) (d : Dict K V) → get b (put a v d) ≡ (if b == a then some v else get b d)
  unfolding get put
  get-put a b v [] = refl
  get-put a b v ((c, w) ∷ d) = ground (arith, get-put a b v d)

  pub get-pop : (a b : K) (d : Dict K V) → get b (pop a d) ≡ (if b == a then none else get b d)
  unfolding get pop
  get-pop a b [] = ground arith
  get-pop a b ((c, w) ∷ d) = ground (arith, get-pop a b d)

  pub has-put :
      (a b : K) (v : V) (d : Dict K V) → has b (put a v d) ≡ (if b == a then true else has b d)
  unfolding has
  has-put a b v d = ground (arith, get-put a b v d)

-- `{a: f(v) for a, v in d.items()}`
unfoldable pub map_values {ℓ κ} : {K : Type ℓ} {V W : Type κ} → (V → W) → Dict K V → Dict K W
map_values f [] = []
map_values f ((a, v) ∷ d) = (a, f v) ∷ map_values f d

abbrev pub keys {ℓ κ} : {K : Type ℓ} {V : Type κ} → Dict K V → List K
keys = map (λ e. e.0)

pub get-map_values {ℓ κ} :
    {K : Type ℓ} {V W : Type κ} ⦃k : Key K⦄ (f : V → W) (a : K) (d : Dict K V)
    → get a (map_values f d) ≡ (elim (get a d) [ none ↦ none | some v ↦ some (f v) ])
unfolding get map_values
get-map_values f a [] = refl
get-map_values f a ((b, v) ∷ d) = ground (arith, get-map_values f a d)

module _ {ℓ κ} {K : Type ℓ} {V : Type κ} ⦃k : Key K⦄ where
  pub keys-put : (a : K) (v : V) (d : Dict K V) → keys (put a v d) ≡ add a (keys d)
  unfolding put add member
  keys-put a v [] = refl
  keys-put a v ((b, w) ∷ d) = ground (arith, keys-put a v d)

  pub put-IsDistinct :
      (a : K) (v : V) (d : Dict K V) → IsDistinct (keys d) → IsDistinct (keys (put a v d))
  put-IsDistinct a v d h = rw keys-put (add-IsDistinct a (keys d) h)

  pub get_absent : (a : K) (d : Dict K V) → member a (keys d) ≡ false → get a d ≡ none
  unfolding get member
  get_absent a [] h = refl
  get_absent a ((b, w) ∷ d) h = ground (arith, get_absent a d)

  member-keys-keep :
      (a : K) (p : K × V → Bool) (d : Dict K V)
      → member a (keys d) ≡ false
      → member a (keys (keep p d)) ≡ false
  unfolding member
  member-keys-keep a p [] h = refl
  member-keys-keep a p ((b, w) ∷ d) h = ground (arith, member-keys-keep a p d)

  pub get-keep :
      (a : K) (p : K × V → Bool) (d : Dict K V)
      → IsDistinct (keys d)
      → get a (keep p d)
        ≡ (elim (get a d) [ none ↦ none | some v ↦ if p (a, v) then some v else none ])
  unfolding get
  get-keep a p [] h = refl
  get-keep a p ((b, w) ∷ d) h =
      ground (arith, get-keep a p d h.1, get_absent b (keep p d), member-keys-keep b p d h.0)

  pub keep-IsDistinct :
      (p : K × V → Bool) (d : Dict K V) → IsDistinct (keys d) → IsDistinct (keys (keep p d))
  keep-IsDistinct p [] h = tt
  keep-IsDistinct p ((b, w) ∷ d) h =
      ground (arith, member-keys-keep b p d h.0, keep-IsDistinct p d h.1)

module _ {ℓ κ μ} {K : Type ℓ} {V : Type κ} ⦃k : Key K⦄ (P : V → Type μ) where
  -- A property of all values is one of the value put in, and of the value got.
  pub All-put :
      (a : K) (v : V) (d : Dict K V) → P v → All (λ e. P e.1) d → All (λ e. P e.1) (put a v d)
  unfolding put
  All-put a v [] p h = (p, tt)
  All-put a v ((b, w) ∷ d) p h = elim (Bool-cases (a == b)) [
    | inl e ↦ rw e (p, h.1)
    | inr e ↦ rw e (h.0, All-put a v d p h.1)
  ]

  pub All-get : (a : K) (v : V) (d : Dict K V) → All (λ e. P e.1) d → get a d ≡ some v → P v
  unfolding get
  All-get a v [] h e = ground (arith, e)
  All-get a v ((b, w) ∷ d) h e = elim (Bool-cases (a == b)) [
    | inl f ↦ subst P (some-injective w v (ground (arith, e, f))) h.0
    | inr f ↦ All-get a v d h.1 (ground (arith, e, f))
  ]
