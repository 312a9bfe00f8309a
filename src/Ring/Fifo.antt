-- ===== src/Ring/Fifo.antt =====
-- The specification of the buffer: a queue of sized entries, oldest first, that keeps the newest
-- entries which fit its two bounds.
use groundcover_go.Base.{
  ℕ, zero, suc, ◌≤◌, ◌<◌, ◌⊎◌, List, ◌∷◌, arith, length, drop, ◌+◌, ◌≡◌, ap, ◌∙◌, drop-drop,
}
use groundcover_go.Ring.Core.{total}

module _ {ℓ} {T : Type ℓ} where
  -- Within the item bound, and within the byte bound unless it is a single entry.
  abbrev pub Fits : ℕ → ℕ → List (T × ℕ) → Type 0
  Fits max_items max_bytes q = (length q ≤ max_items) × ((total q ≤ max_bytes) ⊎ (length q ≤ 1))

  -- `n` is the least number of oldest entries whose loss makes the queue fit.
  pub record Evicts (max_items max_bytes : ℕ) (q : List (T × ℕ)) (n : ℕ) : Type 0 where
    pub fits : Fits max_items max_bytes (drop n q)
    pub least : (k : ℕ) → k < n → ¬ Fits max_items max_bytes (drop k q)
    pub keeps : n < length q

  -- a queue that is over the byte bound, with an entry to spare
  abbrev pub Over : ℕ → List (T × ℕ) → Type 0
  Over max_bytes q = (max_bytes < total q) × (1 < length q)

  -- The oldest entry goes, and then those before the `n`-th.
  pub Over-cons :
      (m n : ℕ) (x : T × ℕ) (q : List (T × ℕ))
      → Over m (x ∷ q)
      → ((k : ℕ) → k < n → Over m (drop k q))
      → (k : ℕ) → k < suc n
      → Over m (drop k (x ∷ q))
  Over-cons m n x q first rest zero h = first
  Over-cons m n x q first rest (suc k) h = rest k (omega arith)

  -- Entries that go for the item bound, one at most, and then for the byte bound, are all needed.
  pub all_needed :
      (m bound : ℕ) (q : List (T × ℕ)) (first more : ℕ)
      → (first ≡ 0) ⊎ ((first ≡ 1) × (m < length q))
      → ((k : ℕ) → k < more → Over bound (drop k (drop first q)))
      → (k : ℕ) → k < first + more
      → ¬ Fits m bound (drop k q)
  all_needed m bound q zero more h over k p fit = omega (arith, over k (omega arith), fit)
  all_needed m bound q (suc zero) more h over zero p fit = omega (arith, h, fit)
  all_needed m bound q (suc zero) more h over (suc k) p fit =
      let same : drop k (drop 1 q) ≡ drop (suc k) q =
        drop-drop k 1 q ∙ ap (λ n. drop n q) {y = suc k} (omega arith) in
      omega (arith, over k (omega arith), fit, ap length same, ap total same)
  all_needed m bound q (suc (suc n)) more h over k p fit = omega (arith, h)
