-- ===== src/Base/Text.antt =====
-- A Python str, as the list of its code points.
use Prim.Native.Nat.{ℕ, compare, Ordering}
use Prim.Native.Char.{code}
use Prim.Native.String.{String}
use mathlib.Core.Bool.{Bool, true, false, ◌&&◌, ◌||◌}
use mathlib.Core.List.{List, [], ◌∷◌}
use native.Mathlib.Decide.{ℕ_discrete}
use codegraph_mcp.Base.Tests.{Key, ◌==◌, nat_key}

abbrev pub Str : Type 0
Str = List ℕ

-- The code points of a literal.
abbrev pub str : String → Str
str String.[] = []
str (String.◌∷◌ c s) = code c ∷ str s

unfoldable pub Str-discrete : Discrete Str
unfolding ℕ_discrete
Str-discrete = hlevel ℕ_discrete

instance abbrev pub str_key : Key Str
str_key = record { decide_eq = Str-discrete }

-- `a <= b` on str
unfoldable pub str_leb : Str → Str → Bool
str_leb [] b = true
str_leb (x ∷ a) [] = false
str_leb (x ∷ a) (y ∷ b) = elim (compare x y) [
  | Ordering.lt ↦ true
  | Ordering.gt ↦ false
  | Ordering.eq ↦ str_leb a b
]

-- `s.startswith(p)` is `starts_with p s`.
unfoldable pub starts_with : Str → Str → Bool
unfolding ℕ_discrete
starts_with p [] = elim p [ [] ↦ true | _ ∷ _ ↦ false ]
starts_with [] (y ∷ b) = true
starts_with (x ∷ a) (y ∷ b) = x == y && starts_with a b

-- What follows the last "::" of the text, found from the left; `start` is what follows the last one so far.
unfoldable pub last_piece : Str → Str → Str
last_piece start [] = start
last_piece start (c ∷ []) = start
last_piece start (c ∷ d ∷ cs) = elim (c == 58 && d == 58) [
  | true ↦ last_piece cs cs
  | false ↦ last_piece start (d ∷ cs)
]

-- `symbol_id.split("::")[-1]`
abbrev pub short_name : Str → Str
short_name s = last_piece s s

-- `text.endswith(suffix)`
unfoldable pub ends_with : Str → Str → Bool
ends_with suffix [] = suffix == []
ends_with suffix (c ∷ cs) = suffix == c ∷ cs || ends_with suffix cs

-- `p in s`
unfoldable pub contains : Str → Str → Bool
contains p [] = p == []
contains p (c ∷ s) = starts_with p (c ∷ s) || contains p s
