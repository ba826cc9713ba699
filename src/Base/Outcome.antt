-- ===== src/Base/Outcome.antt =====
-- A call that may raise, `str.strip`, and `hmac.compare_digest`.
use Prim.Native.Nat.{ℕ, zero, suc, ◌+◌, ◌/◌, ◌%◌}
use mathlib.Core.Path.{◌≡◌, refl}
use mathlib.Core.Bool.{Bool, true, false, ◌&&◌, ◌||◌}
use mathlib.Core.List.{[], ◌∷◌}
use mathlib.Core.Logic.{inl, inr, ◌⊎◌}
use native.Mathlib.Omega.{arith}
use codegraph_mcp.Base.Tests.{eq_of_==, ltb, leb, ◌==◌, if◌then◌else◌, nat_key, Bool-cases}
use codegraph_mcp.Base.Text.{Str, str, str_key}

-- What a call of other code does: it raises, with the text of the exception, or returns.
pub data Call {ℓ} (A : Type ℓ) : Type ℓ where
  raised : Str → Call A
  returned : A → Call A

-- The white space of ASCII that `str.strip` removes
unfoldable pub is_space : ℕ → Bool
is_space c = c == 32 || (leb 9 c && leb c 13) || (leb 28 c && leb c 31)

unfoldable pub lstrip : Str → Str
lstrip [] = []
lstrip (c ∷ cs) = elim (is_space c) [ true ↦ lstrip cs | false ↦ c ∷ cs ]

unfoldable pub rstrip : Str → Str
rstrip [] = []
rstrip (c ∷ cs) = elim (rstrip cs) [ [] ↦ if is_space c then [] else c ∷ [] | d ∷ ds ↦ c ∷ d ∷ ds ]

unfoldable pub strip : Str → Str
strip s = rstrip (lstrip s)

-- The digits of a number, least first; as many rounds as the number itself are enough.
unfoldable pub digits : ℕ → ℕ → Str
digits zero n = []
digits (suc fuel) n =
    let rest = digits fuel (n / 10) in (48 + n % 10) ∷ (if ltb n 10 then [] else rest)

reversed : Str → Str → Str
reversed acc [] = acc
reversed acc (c ∷ cs) = reversed (c ∷ acc) cs

-- `str(n)` of a number
unfoldable pub decimal : ℕ → Str
unfolding reversed
decimal n = reversed [] (digits (suc n) n)

lstrip-lstrip : (s : Str) → lstrip (lstrip s) ≡ lstrip s
unfolding lstrip
lstrip-lstrip [] = refl
lstrip-lstrip (c ∷ cs) = elim (Bool-cases (is_space c)) [
  | inl e ↦ ground (arith, e, lstrip-lstrip cs)
  | inr e ↦ ground (arith, e)
]

rstrip-rstrip : (s : Str) → rstrip (rstrip s) ≡ rstrip s
unfolding rstrip
rstrip-rstrip [] = refl
rstrip-rstrip (c ∷ cs) = ground (arith, rstrip-rstrip cs)

lstrip-rstrip : (s : Str) → lstrip (rstrip s) ≡ rstrip (lstrip s)
unfolding lstrip rstrip
lstrip-rstrip [] = refl
lstrip-rstrip (c ∷ cs) = elim (Bool-cases (is_space c)) [
  | inl e ↦ ground (arith, e, lstrip-rstrip cs)
  | inr e ↦ ground (arith, e)
]

pub strip-strip : (s : Str) → strip (strip s) ≡ strip s
unfolding strip
strip-strip s = rw (lstrip-rstrip (lstrip s), lstrip-lstrip s, rstrip-rstrip (lstrip s))

pub Call-cases {ℓ} :
    {A : Type ℓ} (c : Call A) → ((e : Str) × (c ≡ raised e)) ⊎ ((a : A) × (c ≡ returned a))
Call-cases (raised e) = inl (e, refl)
Call-cases (returned a) = inr (a, refl)

unfoldable pub is_ascii : Str → Bool
is_ascii [] = true
is_ascii (c ∷ cs) = ltb c 128 && is_ascii cs

-- `hmac.compare_digest(a, b)` of texts, which raises TypeError unless both are ASCII
unfoldable pub compare_digest : Str → Str → Call Bool
compare_digest a b =
    if is_ascii a && is_ascii b
    then returned (a == b)
    else raised (str "comparing strings with non-ASCII characters is not supported")

pub compare_digest-eq : (a b : Str) → compare_digest a b ≡ returned true → a ≡ b
unfolding compare_digest
compare_digest-eq a b h = elim (Bool-cases (is_ascii a && is_ascii b)) [
  | inl e ↦ eq_of_== a b (ground (arith, e, h))
  | inr e ↦ absurd (ground (arith, e, h))
]
