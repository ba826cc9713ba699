-- ===== src/RateLimit/Bodies.antt =====
-- What the body limit passes on and what it refuses.
use codegraph_mcp.Base.{
  ==_refl, List, Str, [], arith, false, if◌then◌else◌, length, length-append, ltb, nat_key,
  pair_key, refl, str, str_key, true, ℕ, ◌++◌, ◌==◌, ◌||◌, ◌∷◌, ◌≡◌, ◌≤◌,
}
use mathlib.Core.List.{append_assoc}
use codegraph_mcp.RateLimit.{
  Message, http_request, replayed, refused_413, buffer, limit_body, max_body_bytes,
}

-- The chunks of a request, with the mark `more_body` on all but the last.
abbrev pub stream : List (List ℕ) → List ℕ → List Message
stream [] last = http_request last false ∷ []
stream (c ∷ cs) last = http_request c true ∷ stream cs last

abbrev pub whole : List (List ℕ) → List ℕ → List ℕ
whole [] last = last
whole (c ∷ cs) last = c ++ whole cs last

buffer-stream :
    (body : List ℕ) (cs : List (List ℕ)) (last : List ℕ)
    → length body ≤ max_body_bytes
    → buffer body (stream cs last) ≡ (
        if ltb max_body_bytes (length (body ++ whole cs last))
        then refused_413
        else replayed (body ++ whole cs last))
unfolding buffer
buffer-stream body [] last h = refl
buffer-stream body (c ∷ cs) last h = ground (
  arith,
  append_assoc body c (whole cs last),
  length-append (body ++ c) (whole cs last),
  buffer-stream (body ++ c) cs last,
)

-- An HTTP request of a method other than GET, HEAD and OPTIONS whose chunks are whole at most 10 MiB
-- reaches the application as one body, the chunks in order; a larger one is refused; and so whatever the
-- chunks are.
pub limit_body-stream :
    (method : Str) (cs : List (List ℕ)) (last : List ℕ)
    → (method == str "GET" || method == str "HEAD" || method == str "OPTIONS") ≡ false
    → limit_body (str "http") method (stream cs last) ≡ (
        if ltb max_body_bytes (length (whole cs last))
        then refused_413
        else replayed (whole cs last))
unfolding limit_body
limit_body-stream method cs last h =
    rw (limit_body, ==_refl (str "http"), h) (buffer-stream [] cs last (omega arith))
