-- ===== src/Graph/Traverse/Steps.antt =====
-- One round of `traverse`: what it keeps, and what the queue may grow by.
use codegraph_mcp.Base.{
  ==_refl, Bool-cases, List, Str, [], arith, false, get, get_or, if◌then◌else◌, inl, inr, length,
  length-append, length-map, map, member, member-append, member-sorted, nat_key, pair_discrete,
  pair_key, refl, sorted, str_key, suc, true, ℕ, ◌++◌, ◌+◌, ◌<◌, ◌∷◌, ◌≡◌, ◌≤◌,
}
use codegraph_mcp.Graph.{GraphIndex, Edges, neighbors}
use codegraph_mcp.Graph.Edges.{linked}
use codegraph_mcp.Graph.Query.{get_blast_radius, edge_total}
use codegraph_mcp.Graph.Traverse.{
  Direction, up, down, direction_key, Visit, Walk, forward, enqueue, start, rounds,
}

unfoldable pub values : Edges → List Str
values [] = []
values ((s, ts) ∷ e) = ts ++ values e

pub length-values : (e : Edges) → length (values e) ≡ edge_total e
unfolding values edge_total
length-values [] = refl
length-values ((s, ts) ∷ e) = omega (arith, length-append ts (values e), length-values e)

pub member-values : (s a : Str) (e : Edges) → linked s a e ≡ true → member a (values e) ≡ true
unfolding values neighbors get_or get member
member-values s a [] h = h
member-values s a ((t, ts) ∷ e) h =
    ground (arith, member-append a ts (values e), member-values s a e)

facing : Direction → List Str → List Visit
facing d = map (λ a. (a, d))

member-facing :
    (d : Direction) (a : Str) (xs : List Str)
    → member a xs ≡ true
    → member (a, d) (facing d xs) ≡ true
unfolding facing member pair_discrete
member-facing d a [] h = h
member-facing d a (x ∷ xs) h = ground (arith, member-facing d a xs)

-- All visits that a walk can make beyond its start.
pub universe : GraphIndex → List Visit
universe g =
    facing up (values g.upstream ++ values g.used_by)
    ++ facing down (values g.downstream ++ values g.uses)

pub length-universe : (g : GraphIndex) → length (universe g) + 2 ≡ rounds g
unfolding universe facing rounds
length-universe g = omega (
  arith,
  length-append (facing up (values g.upstream ++ values g.used_by))
      (facing down (values g.downstream ++ values g.uses)),
  length-map {B = Visit} (λ (a : Str). (a, up)) (values g.upstream ++ values g.used_by),
  length-map {B = Visit} (λ (a : Str). (a, down)) (values g.downstream ++ values g.uses),
  length-append (values g.upstream) (values g.used_by),
  length-append (values g.downstream) (values g.uses),
  length-values g.upstream,
  length-values g.used_by,
  length-values g.downstream,
  length-values g.uses,
)

-- How many entries of the universe are not visited yet.
pub missing : List Visit → List Visit → ℕ
missing [] seen = 0
missing (v ∷ vs) seen = if member v seen then missing vs seen else suc (missing vs seen)

missing_mono : (v : Visit) (vs seen : List Visit) → missing vs (v ∷ seen) ≤ missing vs seen
unfolding missing member
missing_mono v [] seen = omega arith
missing_mono v (x ∷ vs) seen = ground (arith, missing_mono v vs seen)

missing_drops :
    (v : Visit) (vs seen : List Visit)
    → member v vs ≡ true
    → member v seen ≡ false
    → missing vs (v ∷ seen) < missing vs seen
unfolding missing member
missing_drops v [] seen h k = absurd (ground arith)
missing_drops v (x ∷ vs) seen h k = ground (arith, missing_drops v vs seen, missing_mono v vs seen)

missing-le : (vs seen : List Visit) → missing vs seen ≤ length vs
unfolding missing
missing-le [] seen = omega arith
missing-le (x ∷ vs) seen = ground (arith, missing-le vs seen)

unfoldable pub work : GraphIndex → Walk → ℕ
work g w = length w.queue + missing (universe g) w.visited

-- The neighbours that a walk follows are in the universe.
abbrev pub InUniverse : GraphIndex → Direction → List Str → Type 0
InUniverse g d xs = (a : Str) → member a xs ≡ true → member (a, d) (universe g) ≡ true

linked-append :
    (a s : Str) (e e' : Edges)
    → member a (sorted (neighbors s e) ++ sorted (neighbors s e')) ≡ true
    → member a (values e ++ values e') ≡ true
linked-append a s e e' h = ground (
  arith,
  member-append a (sorted (neighbors s e)) (sorted (neighbors s e')),
  member-append a (values e) (values e'),
  member-sorted a (neighbors s e),
  member-sorted a (neighbors s e'),
  member-values s a e,
  member-values s a e',
)

pub forward-InUniverse :
    (g : GraphIndex) (d : Direction) (s : Str) → InUniverse g d (forward d (get_blast_radius g s))
unfolding universe get_blast_radius
forward-InUniverse g up s a h = ground (
  arith,
  linked-append a s g.upstream g.used_by,
  member-facing up a (values g.upstream ++ values g.used_by),
  member-append (a, up) (facing up (values g.upstream ++ values g.used_by))
      (facing down (values g.downstream ++ values g.uses)),
)
forward-InUniverse g down s a h = ground (
  arith,
  linked-append a s g.downstream g.uses,
  member-facing down a (values g.downstream ++ values g.uses),
  member-append (a, down) (facing up (values g.upstream ++ values g.used_by))
      (facing down (values g.downstream ++ values g.uses)),
)

-- What `enqueue` leaves alone, and the work that it does not raise.
pub record Enqueues (g : GraphIndex) (w w' : Walk) : Type 0 where
  pub neighborhoods : w'.neighborhoods ≡ w.neighborhoods
  pub emitted : w'.emitted ≡ w.emitted
  pub neighborhood : w'.neighborhood ≡ w.neighborhood
  pub work_le : work g w' ≤ work g w

pub enqueue-Enqueues :
    (g : GraphIndex) (n : ℕ) (d : Direction) (xs : List Str) (w : Walk)
    → InUniverse g d xs
    → Enqueues g w (enqueue n d xs w)
unfolding enqueue work member
enqueue-Enqueues g n d [] w h = record {
  neighborhoods = refl;
  emitted = refl;
  neighborhood = refl;
  work_le = omega arith;
}
enqueue-Enqueues g n d (x ∷ xs) w h =
    let h' = λ (a : Str) (m : member a xs ≡ true). h a (ground arith) in
    elim (Bool-cases (member (x, d) w.visited)) [
      | inl e ↦ rw e (enqueue-Enqueues g n d xs w h')
      | inr e ↦ rw e (
          let w' = record w { visited = (x, d) ∷ w.visited; queue = w.queue ++ (x, n, d) ∷ [] } in
          let rest = enqueue-Enqueues g n d xs w' h' in
          record {
            neighborhoods = rest.neighborhoods;
            emitted = rest.emitted;
            neighborhood = rest.neighborhood;
            work_le = omega (
              arith,
              rest.work_le,
              missing_drops (x, d) (universe g) w.visited (h x (ground (arith, ==_refl x))) e,
              length-append w.queue ((x, n, d) ∷ []),
            );
          })
    ]

pub work-start : (g : GraphIndex) (s : Str) → work g (start s) ≤ rounds g
unfolding work
work-start g s =
    omega (arith, missing-le (universe g) ((s, up) ∷ (s, down) ∷ []), length-universe g)
