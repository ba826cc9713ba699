-- ===== src/Health/Ready.antt =====
-- What the two answers of the health checks say of the backends.
use codegraph_mcp.Base.{
  Bool, Bool-cases, Call, Dict, Option, Str, [], arith, false, inl, inr, nat_key, pair_key, raised,
  refl, returned, str, str_key, true, ℕ, ℕ_discrete, ◌&&◌, ◌==◌, ◌||◌, ◌↔◌, ◌∷◌, ◌≡◌, ◌≢◌,
}
use codegraph_mcp.Health.{
  healthy, disabled, same_status, BackendHealthResult, HealthSettings, Outcomes, row_ok, record_ok,
  check_postgres, check_weaviate, check_neo4j, neo4j_session, neo4j_answer, collect_ready,
  check_readiness,
}

-- Each backend that the settings name gave the right answer, and nothing on the way raised.
pub record Answering (s : HealthSettings) (o : Outcomes) : Type 0 where
  pub postgres :
      (s.index_metadata_backend == str "postgres") ≡ true
      → (row : Option (Dict Str ℕ)) × (o.select ≡ returned row) × (row_ok row ≡ true)
  pub weaviate : (s.semantic_index_backend == str "weaviate") ≡ true → o.response ≡ returned 200
  pub neo4j :
      (s.graph_index_backend == str "neo4j") ≡ true
      → (o.driver ≡ returned tt)
        × (o.close ≡ returned tt)
        × ((row : Option (Dict Str ℕ)) × (o.single ≡ returned row)
            × (record_ok row ≡ returned true))

is_fine : BackendHealthResult → Bool
is_fine c = same_status c.status disabled || same_status c.status healthy

collect_ready-all :
    (a b c : BackendHealthResult)
    → (collect_ready true [] (a ∷ b ∷ c ∷ [])).0 ≡ (is_fine a && is_fine b && is_fine c)
unfolding collect_ready is_fine same_status
collect_ready-all a b c = ground arith

module _ (s : HealthSettings) where
  postgres_fine :
      (q : Call (Option (Dict Str ℕ)))
      → is_fine (check_postgres s q) ≡ true
      → (s.index_metadata_backend == str "postgres") ≡ true
      → (row : Option (Dict Str ℕ)) × (q ≡ returned row) × (row_ok row ≡ true)
  unfolding check_postgres is_fine same_status
  postgres_fine (raised e) h c = ground (arith, h, c)
  postgres_fine (returned row) h c = (row, refl, ground (arith, h, c))

  postgres_fine_of :
      (q : Call (Option (Dict Str ℕ)))
      → ((s.index_metadata_backend == str "postgres") ≡ true
          → (row : Option (Dict Str ℕ)) × (q ≡ returned row) × (row_ok row ≡ true))
      → is_fine (check_postgres s q) ≡ true
  unfolding check_postgres is_fine same_status
  postgres_fine_of q h = elim (Bool-cases (s.index_metadata_backend == str "postgres")) [
    | inl c ↦ rw (c, (h c).1, (h c).2) refl
    | inr c ↦ rw c refl
  ]

  weaviate_fine :
      (q : Call ℕ)
      → is_fine (check_weaviate s q) ≡ true
      → (s.semantic_index_backend == str "weaviate") ≡ true
      → q ≡ returned 200
  unfolding check_weaviate is_fine same_status
  weaviate_fine (raised e) h c = ground (arith, h, c)
  weaviate_fine (returned n) h c = ground (arith, h, c)

  weaviate_fine_of :
      (q : Call ℕ)
      → ((s.semantic_index_backend == str "weaviate") ≡ true → q ≡ returned 200)
      → is_fine (check_weaviate s q) ≡ true
  unfolding check_weaviate is_fine same_status ℕ_discrete
  weaviate_fine_of q h = elim (Bool-cases (s.semantic_index_backend == str "weaviate")) [
    | inl c ↦ rw (c, h c) refl
    | inr c ↦ rw c refl
  ]

  answer_fine : (q : Call Bool) → is_fine (neo4j_answer q) ≡ true → q ≡ returned true
  unfolding neo4j_answer is_fine same_status
  answer_fine (raised e) h = ground (arith, h)
  answer_fine (returned true) h = refl
  answer_fine (returned false) h = ground (arith, h)

  raised_ne : (e : Str) → ◌≢◌ {A = Call Bool} (raised e) (returned true)
  raised_ne e p = ground (arith, p)

  neo4j_fine :
      (d : Call (Unit {0})) (q : Call (Option (Dict Str ℕ))) (x : Call (Unit {0}))
      → is_fine (check_neo4j s d q x) ≡ true
      → (s.graph_index_backend == str "neo4j") ≡ true
      → (d ≡ returned tt)
        × (x ≡ returned tt)
        × ((row : Option (Dict Str ℕ)) × (q ≡ returned row) × (record_ok row ≡ returned true))
  unfolding check_neo4j neo4j_session
  neo4j_fine (raised e) q x h c =
      absurd (raised_ne e (answer_fine (raised e) (ground (arith, h, c))))
  neo4j_fine (returned u) q (raised e) h c =
      absurd (raised_ne e (answer_fine (raised e) (ground (arith, h, c))))
  neo4j_fine (returned u) (raised e) (returned v) h c =
      absurd (raised_ne e (answer_fine (raised e) (ground (arith, h, c))))
  neo4j_fine (returned u) (returned row) (returned v) h c =
      (refl, refl, (row, refl, answer_fine (record_ok row) (ground (arith, h, c))))

  neo4j_fine_of :
      (d : Call (Unit {0})) (q : Call (Option (Dict Str ℕ))) (x : Call (Unit {0}))
      → ((s.graph_index_backend == str "neo4j") ≡ true
          → (d ≡ returned tt)
            × (x ≡ returned tt)
            × ((row : Option (Dict Str ℕ)) × (q ≡ returned row) × (record_ok row ≡ returned true)))
      → is_fine (check_neo4j s d q x) ≡ true
  unfolding check_neo4j neo4j_session neo4j_answer is_fine same_status
  neo4j_fine_of d q x h = elim (Bool-cases (s.graph_index_backend == str "neo4j")) [
    | inl c ↦ rw (c, (h c).0, (h c).1, (h c).2.1, (h c).2.2) refl
    | inr c ↦ rw c refl
  ]

  -- The service is ready exactly if each of Postgres, Weaviate and Neo4j that the settings name gave the right
  -- answer, and no call on the way to it raised, the close of the driver of Neo4j included.
  pub check_readiness-Answering : (o : Outcomes) → ((check_readiness s o).0 ≡ true) ↔ Answering s o
  unfolding check_readiness
  check_readiness-Answering o = (
    λ h.
        let fine : (is_fine p ≡ true) × (is_fine w ≡ true) × (is_fine n ≡ true) =
          ground (arith, h, collect_ready-all p w n) in
        record {
          postgres = postgres_fine o.select fine.0;
          weaviate = weaviate_fine o.response fine.1;
          neo4j = neo4j_fine o.driver o.single o.close fine.2;
        },
    λ a. ground (
      arith,
      collect_ready-all p w n,
      postgres_fine_of o.select a.postgres,
      weaviate_fine_of o.response a.weaviate,
      neo4j_fine_of o.driver o.single o.close a.neo4j,
    ),
  )
    where
      p : BackendHealthResult
      p = check_postgres s o.select

      w : BackendHealthResult
      w = check_weaviate s o.response

      n : BackendHealthResult
      n = check_neo4j s o.driver o.single o.close
