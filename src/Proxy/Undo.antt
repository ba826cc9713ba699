-- ===== src/Proxy/Undo.antt =====
-- Rollbacks undo swaps.
use codegraph_mcp.Base.{
  List, [], ap, arith, length, nat_key, pair_key, refl, some, str_key, suc, zero, ℕ, ◌++◌, ◌∙◌, ◌∷◌,
  ◌≡◌,
}
use codegraph_mcp.Proxy.{GraphIndexProxy, pop_last, swap, rollback}

pop_last-append {ℓ} : {A : Type ℓ} (x : A) (xs : List A) → pop_last (xs ++ (x ∷ [])) ≡ some (x, xs)
unfolding pop_last
pop_last-append x [] = refl
pop_last-append x (y ∷ ys) = ground (arith, pop_last-append x ys)

module _ {Backend : Type 0} where
  abbrev pub swaps : List Backend → GraphIndexProxy Backend → GraphIndexProxy Backend
  swaps [] p = p
  swaps (b ∷ bs) p = swaps bs (swap b p).0

  abbrev pub rollbacks : ℕ → GraphIndexProxy Backend → GraphIndexProxy Backend
  rollbacks zero p = p
  rollbacks (suc n) p = (rollback (rollbacks n p)).0

  rollback-swap :
      (b : Backend) (p : GraphIndexProxy Backend) → rollback (swap b p).0 ≡ (p, some (p.backend, b))
  unfolding rollback swap
  rollback-swap b p = rw (rollback, pop_last-append p.backend p.history) refl

  -- As many rollbacks as there were swaps restore the proxy, and each returns the backend before its swap
  -- and the one it takes away.
  pub rollbacks-swaps :
      (bs : List Backend) (p : GraphIndexProxy Backend)
      → (rollbacks (length bs) (swaps bs p) ≡ p)
        × ((b : Backend) → (rollback (swap b p).0).1 ≡ some (p.backend, b))
  rollbacks-swaps bs p = (undo bs p, λ b. ap (λ r. r.1) (rollback-swap b p))
    where
      undo :
          (bs : List Backend) (p : GraphIndexProxy Backend) → rollbacks (length bs) (swaps bs p) ≡ p
      undo [] p = refl
      undo (b ∷ bs) p =
          ap (λ q. (rollback q).0) (undo bs (swap b p).0) ∙ ap (λ r. r.0) (rollback-swap b p)
