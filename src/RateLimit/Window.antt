-- ===== src/RateLimit/Window.antt =====
-- The sliding window over any sequence of requests.
use codegraph_mcp.Base.{
  ==_refl, Bool-cases, List, Option, Str, [], arith, false, get-put, get_or, if◌then◌else◌, inl,
  inr, leb, length, length-append, ltb, nat_key, pair_key, put, refl, str, str_key, ℕ, ℤ, ◌&&◌, ◌*◌,
  ◌++◌, ◌+◌, ◌<◌, ◌==◌, ◌∷◌, ◌≡◌, ◌≤◌, ◌⊎◌,
}
use codegraph_mcp.RateLimit.{
  expire, check_window, check_rate, Counts, Request, dispatch, window_name, class_of, is_oversize,
  is_local,
}

-- The requests that are served, of requests at the given times.
unfoldable pub served : ℕ → ℕ → List ℕ → List ℕ → List ℕ
served sec limit [] window = []
served sec limit (now ∷ times) window =
    let r = check_window sec limit now window in
    let rest = served sec limit times r.0 in if r.1 then now ∷ rest else rest

-- The times do not go back, from a start.
abbrev pub IsOrdered : ℕ → List ℕ → Type 0
IsOrdered start [] = Unit
IsOrdered start (t ∷ ts) = (start ≤ t) × IsOrdered t ts

-- How many of the times lie in the 60 seconds from `a` on, both ends included.
abbrev pub count_from : ℕ → ℕ → List ℕ → ℕ
count_from sec a [] = 0
count_from sec a (t ∷ ts) = (if leb a t && leb t (a + 60 * sec) then 1 else 0) + count_from sec a ts

get_or-put :
    (a b : Str) (w : List ℕ) (d : Counts)
    → get_or b [] (put a w d) ≡ (if b == a then w else get_or b [] d)
unfolding get_or
get_or-put a b w d = ground (arith, get-put a b w d)

module _ (sec : ℕ) where
  count_from-le : (a : ℕ) (ts : List ℕ) → count_from sec a ts ≤ length ts
  count_from-le a [] = omega arith
  count_from-le a (t ∷ ts) = ground (arith, count_from-le a ts)

  count_from-append :
      (a : ℕ) (xs ys : List ℕ)
      → count_from sec a (xs ++ ys) ≡ count_from sec a xs + count_from sec a ys
  count_from-append a [] ys = ground arith
  count_from-append a (x ∷ xs) ys = ground (arith, count_from-append a xs ys)

  -- What expires lies before the 60 seconds.
  count_from-expire :
      (a now : ℕ) (ts : List ℕ)
      → now ≤ a + 60 * sec
      → count_from sec a (expire sec now ts) ≡ count_from sec a ts
  unfolding expire
  count_from-expire a now [] h = refl
  count_from-expire a now (t ∷ ts) h = ground (arith, count_from-expire a now ts)

  pub length-expire : (now : ℕ) (ts : List ℕ) → length (expire sec now ts) ≤ length ts
  unfolding expire
  length-expire now [] = omega arith
  length-expire now (t ∷ ts) = ground (arith, length-expire now ts)

  late :
      (limit a start : ℕ) (ts window : List ℕ)
      → IsOrdered start ts
      → a + 60 * sec < start
      → count_from sec a (served sec limit ts window) ≡ 0
  unfolding served check_window
  late limit a start [] window o h = refl
  late limit a start (t ∷ ts) window o h =
      elim (Bool-cases (leb limit (length (expire sec t window)))) [
        | inl e ↦ ground (arith, e, o.0, late limit a t ts (expire sec t window) o.1)
        | inr e ↦ ground (arith, e, o.0, late limit a t ts (expire sec t window ++ (t ∷ [])) o.1)
      ]

  window_bound :
      (limit a start : ℕ) (ts window : List ℕ)
      → IsOrdered start ts
      → length window ≤ limit
      → count_from sec a window + count_from sec a (served sec limit ts window) ≤ limit
  unfolding served check_window
  window_bound limit a start [] window o h = ground (arith, count_from-le a window)
  window_bound limit a start (t ∷ ts) window o h = elim (Bool-cases (ltb (a + 60 * sec) t)) [
    | inl f ↦
        ground (arith, f, late limit a t (t ∷ ts) window (omega arith, o.1), count_from-le a window)
    | inr f ↦ elim (Bool-cases (leb limit (length (expire sec t window)))) [
      | inl e ↦ ground (
        arith,
        f,
        e,
        count_from-expire a t window,
        length-expire t window,
        window_bound limit a t ts (expire sec t window) o.1,
      )
      | inr e ↦ ground (
        arith,
        f,
        e,
        count_from-expire a t window,
        length-expire t window,
        count_from-append a (expire sec t window) (t ∷ []),
        length-append (expire sec t window) (t ∷ []),
        window_bound limit a t ts (expire sec t window ++ (t ∷ [])) o.1,
      )
    ]
  ]

  -- Of requests at times that do not go back, at most `limit` of one window are served in any 60 seconds.
  pub served_bounded :
      (limit a start : ℕ) (times : List ℕ)
      → IsOrdered start times
      → count_from sec a (served sec limit times []) ≤ limit
  served_bounded limit a start times o = ground (arith, window_bound limit a start times [] o)

  length-check_window :
      (limit now : ℕ) (window : List ℕ)
      → length window ≤ limit
      → length (check_window sec limit now window).0 ≤ limit
  unfolding check_window
  length-check_window limit now window h =
      ground (arith, length-expire now window, length-append (expire sec now window) (now ∷ []))

  -- A request leaves the windows alone, or checks and replaces its own.
  dispatch_cases :
      (parse_int : Str → Option ℤ) (environment : Str) (now : ℕ) (r : Request) (counts : Counts)
      → ((dispatch sec parse_int environment now r counts).0 ≡ counts)
        ⊎ ((dispatch sec parse_int environment now r counts).0
            ≡ put
                (window_name r)
                (check_window sec (class_of r.path).limit now (get_or (window_name r) [] counts)).0
                counts)
  unfolding dispatch check_rate
  dispatch_cases parse_int environment now r counts =
      elim (Bool-cases (r.method == str "OPTIONS")) [
        | inl e ↦ inl (rw e refl)
        | inr e ↦ rw e (elim (Bool-cases (is_local environment r)) [
          | inl f ↦ inl (rw f refl)
          | inr f ↦ rw f (elim (Bool-cases (is_oversize parse_int r)) [
            | inl g ↦ inl (rw g refl)
            | inr g ↦
                rw g
                  (elim (Bool-cases
                    (check_window sec (class_of r.path).limit now
                      (get_or (window_name r) [] counts)).1) [
                        | inl c ↦ inr (rw c refl)
                        | inr c ↦ inr (rw c refl)
                      ])
          ])
        ])
      ]

  -- A request is judged by its own window alone: it changes no other, and its window holds at most the
  -- limit of its class if it did before.
  pub dispatch-windows :
      (parse_int : Str → Option ℤ) (environment : Str) (now : ℕ) (r : Request) (counts : Counts)
      (name : Str)
      → ((name == window_name r) ≡ false
          → get_or name [] (dispatch sec parse_int environment now r counts).0
            ≡ get_or name [] counts)
        × (length (get_or (window_name r) [] counts) ≤ (class_of r.path).limit
            → length (get_or (window_name r) [] (dispatch sec parse_int environment now r counts).0)
              ≤ (class_of r.path).limit)
  dispatch-windows parse_int environment now r counts name =
      let k = class_of r.path in
      let w = (check_window sec k.limit now (get_or (window_name r) [] counts)).0 in
      elim (dispatch_cases parse_int environment now r counts) [
        | inl e ↦ rw e (λ h. refl, λ h. h)
        | inr e ↦ rw e (
          λ h. ground (arith, h, get_or-put (window_name r) name w counts),
          λ h. ground (
            arith,
            h,
            get_or-put (window_name r) (window_name r) w counts,
            ==_refl (window_name r),
            length-check_window k.limit now (get_or (window_name r) [] counts),
          ),
        )
      ]
