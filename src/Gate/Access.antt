-- ===== src/Gate/Access.antt =====
-- Who is admitted.
use codegraph_mcp.Base.{
  Bool, Bool-cases, Call-cases, Option, Str, [], ap, arith, compare_digest, compare_digest-eq,
  ends_with, eq_of_==, false, get_or, inl, inr, nat_key, none, pair_key, put, returned, some, str,
  str_key, subst, true, ℕ, ◌&&◌, ◌++◌, ◌==◌, ◌≡◌, ◌≢◌,
}
use codegraph_mcp.ClientTokens.{KeyStore, User, is_plausible}
use codegraph_mcp.ClientTokens.Keys.{holder}
use codegraph_mcp.ClientTokens.Cache.{IsKeyring, resolve_user_token-holder}
use codegraph_mcp.TokenBucket.Registry.{take_tokens}
use codegraph_mcp.Gate.{
  Moment, Gate, Request, Settings, Reply, admitted, not_configured, locked_out, slowed_down,
  unauthorized, unhandled, bearer, is_rate_limited, current_bucket_shape, client_key, identity,
  admit, user_of, authenticate, dispatch,
}

reply_user : Reply → Option User
reply_user (admitted u) = u
reply_user not_configured = none
reply_user locked_out = none
reply_user (slowed_down n) = none
reply_user unauthorized = none
reply_user unhandled = none

admitted-injective : {u v : Option User} → admitted u ≡ admitted v → u ≡ v
unfolding reply_user
admitted-injective h = ap reply_user h

module _ (digest : Str → Str) (show : ℕ → Str) (trusted : Str → Bool)
    (unit sec capacity refill : ℕ) where
  abbrev pub serve : Moment → Settings → Request → Gate → Gate × Reply
  serve = dispatch digest show trusted unit sec capacity refill

  -- What admits a request: the health check, local development without a token, the shared token, or
  -- the key of a user.
  pub data IsEntitled (config : Settings) (r : Request) (store : KeyStore)
      : Option User → Type 0 where
    by_health : r.path ≡ str "/health" → IsEntitled config r store none
    by_local :
        config.auth_token ≡ [] → config.environment ≡ str "local" → IsEntitled config r store none
    by_token :
        config.auth_token ≢ []
        → bearer r.authorization ≡ config.auth_token
        → IsEntitled config r store none
    by_key :
        (u : User)
        → config.auth_token ≢ []
        → holder (digest (bearer r.authorization)) store ≡ some u
        → IsEntitled config r store (some u)

  abbrev pub taken : Moment → Request → Str → Option User → Gate → Bool
  taken t r client user g =
      let shaped = current_bucket_shape sec capacity refill t g in
      (take_tokens unit sec
        (str "mcp:" ++ identity digest show trusted unit sec capacity refill user client) shaped.1.0
        shaped.1.1 1 t.sweep_at t.made_at t.taken_at shaped.0.buckets).1

  admit-admitted :
      (t : Moment) (r : Request) (client : Str) (user u : Option User) (g : Gate)
      → (admit digest show trusted unit sec capacity refill t r client user g).1 ≡ admitted u
      → user ≡ u
  unfolding admit
  admit-admitted t r client user u g h =
      elim (Bool-cases (r.method == str "POST" && ends_with (str "/mcp") r.path)) [
        | inr e ↦ admitted-injective (ground (arith, e, h))
        | inl e ↦ elim (Bool-cases (taken t r client user g)) [
          | inl f ↦ admitted-injective (ground (arith, e, f, h))
          | inr f ↦ ground (arith, e, f, h)
        ]
      ]

  user_of-holder :
      (t : Moment) (config : Settings) (provided : Str) (g : Gate) (u : User)
      → IsKeyring g.keys
      → (user_of digest show trusted unit sec capacity refill t config provided g).1
        ≡ returned (some u)
      → holder (digest provided) g.keys.store ≡ some u
  unfolding user_of
  user_of-holder t config provided g u w h = elim (Bool-cases (provided == [])) [
    | inl e ↦ absurd (ground (arith, e, h))
    | inr e ↦ elim (Call-cases (compare_digest provided config.auth_token)) [
      | inl (x, c) ↦ absurd (ground (arith, e, c, h))
      | inr (true, c) ↦ absurd (ground (arith, e, c, h))
      | inr (false, c) ↦
          let found =
            resolve_user_token-holder digest sec provided t.monotonic t.store_clock g.keys w in
          elim (Bool-cases (is_plausible provided)) [
            | inl p ↦ ground (arith, e, c, p, h, found)
            | inr p ↦ ground (arith, e, c, p, h, found)
          ]
    ]
  ]

  authenticate-IsEntitled :
      (t : Moment) (config : Settings) (r : Request) (client : Str) (g : Gate) (u : Option User)
      → IsKeyring g.keys
      → config.auth_token ≢ []
      → (authenticate digest show trusted unit sec capacity refill t config r client g).1
        ≡ admitted u
      → IsEntitled config r g.keys.store u
  unfolding authenticate
  authenticate-IsEntitled t config r client g u w set h =
      let token = bearer r.authorization in
      let looked = user_of digest show trusted unit sec capacity refill t config token g in
      let same : (user : Option User)
          → (admit digest show trusted unit sec capacity refill t r client user looked.0).1
            ≡ admitted u
          → IsEntitled config r g.keys.store user
          → IsEntitled config r g.keys.store u =
        λ user e.
          subst (IsEntitled config r g.keys.store) (admit-admitted t r client user u looked.0 e) in
      elim (Call-cases looked.1) [
        | inl (x, e) ↦ absurd (ground (arith, e, h))
        | inr (some x, e) ↦ elim (Call-cases (compare_digest token config.auth_token)) [
          | inl (y, c) ↦ absurd (ground (arith, e, c, h))
          | inr (true, c) ↦
              same (some x) (ground (arith, e, c, h))
                (by_key x set (user_of-holder t config token g x w e))
          | inr (false, c) ↦
              same (some x) (ground (arith, e, c, h))
                (by_key x set (user_of-holder t config token g x w e))
        ]
        | inr (none, e) ↦ elim (Call-cases (compare_digest token config.auth_token)) [
          | inl (y, c) ↦ absurd (ground (arith, e, c, h))
          | inr (true, c) ↦
              same none (ground (arith, e, c, h))
                (by_token set (compare_digest-eq token config.auth_token c))
          | inr (false, c) ↦ absurd (ground (arith, e, c, h))
        ]
      ]

  -- The gate after the lockout is checked.
  abbrev pub pruned : Moment → Request → Gate → Gate
  pruned t r g = record g {
    failed_attempts =
        put (client_key trusted r)
          (is_rate_limited sec t.wall (get_or (client_key trusted r) [] g.failed_attempts)).0
          g.failed_attempts;
  }

  -- Only who is entitled is admitted, and as the user of the key presented: the health check and local
  -- development without a token aside, a request goes on only with the shared token or an active user key.
  pub dispatch-IsEntitled :
      (t : Moment) (config : Settings) (r : Request) (g : Gate) (u : Option User)
      → IsKeyring g.keys
      → (serve t config r g).1 ≡ admitted u
      → IsEntitled config r g.keys.store u
  unfolding dispatch
  dispatch-IsEntitled t config r g u w h = elim (Bool-cases (r.path == str "/health")) [
    | inl e ↦
        subst (IsEntitled config r g.keys.store) (admitted-injective (ground (arith, e, h)))
          (by_health (eq_of_== r.path (str "/health") e))
    | inr e ↦ elim (Bool-cases (config.auth_token == [])) [
      | inl f ↦ elim (Bool-cases (config.environment == str "local")) [
        | inl l ↦
            subst (IsEntitled config r g.keys.store)
              (admitted-injective (ground (arith, e, f, l, h)))
              (by_local (eq_of_== config.auth_token [] f)
                (eq_of_== config.environment (str "local") l))
        | inr l ↦ ground (arith, e, f, l, h)
      ]
      | inr f ↦
          elim (Bool-cases
            (is_rate_limited sec t.wall (get_or (client_key trusted r) [] g.failed_attempts)).1) [
              | inl l ↦ ground (arith, e, f, l, h)
              | inr l ↦
                  authenticate-IsEntitled t config r (client_key trusted r) (pruned t r g) u w
                    (λ q. ground (arith, f, q)) (ground (arith, e, f, l, h))
            ]
    ]
  ]
