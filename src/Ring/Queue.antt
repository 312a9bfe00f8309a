-- ===== src/Ring/Queue.antt =====
-- The specification of the buffer as a program: a plain queue of sized entries that answers calls.
use groundcover_go.Base.{
  ℕ, zero, suc, ◌+◌, ◌≤◌, ◌<◌, ◌≡◌, refl, ap, List, [], ◌∷◌, ◌++◌, Bool, true, false, not, ◌&&◌,
  ◌||◌, ◌⊎◌, arith, length, drop, take, ltb, leb, ◌==◌, if◌then◌else◌,
}
use groundcover_go.Base.Int.{ℤ, is_positive, to_nat}
use groundcover_go.Ring.Core.{values, total}
use groundcover_go.Ring.Fifo.{Evicts}

pub data Call (T : Type 0) : Type 0 where
  push_item : T → Call T
  take_some : (max_items max_bytes : ℤ) → Call T
  take_all : Call T
  measure : Call T

pub data Reply (T : Type 0) : Type 0 where
  evicted : ℕ → Reply T
  given : List T → Reply T
  measured : (items bytes : ℕ) → Reply T

-- whether an entry of `s` bytes may join `n` entries of `w` bytes
abbrev pub may_join : ℤ → ℤ → ℕ → ℕ → ℕ → Bool
may_join max_items max_bytes n w s =
    (not (is_positive max_items) || ltb n (to_nat max_items))
    && (not (is_positive max_bytes) || (leb (w + s) (to_nat max_bytes) || n == 0))

-- whether a queue of `n` entries and `w` bytes fits
abbrev pub fits : ℕ → ℕ → ℕ → ℕ → Bool
fits max_items max_bytes n w = leb n max_items && (leb w max_bytes || leb n 1)

module _ {T : Type 0} where
  -- The specification. Entries leave at the front until the rest fits both bounds, or is one entry.
  pub evict : ℕ → ℕ → List (T × ℕ) → List (T × ℕ) × ℕ
  evict max_items max_bytes [] = ([], 0)
  evict max_items max_bytes (e ∷ q) =
      let (rest, n) = evict max_items max_bytes q in
      if fits max_items max_bytes (length (e ∷ q)) (total (e ∷ q))
      then (e ∷ q, 0)
      else (rest, n + 1)

  -- entries from the front, as long as they may join
  pub greedy : ℤ → ℤ → ℕ → ℕ → List (T × ℕ) → List (T × ℕ)
  greedy max_items max_bytes n w [] = []
  greedy max_items max_bytes n w ((x, s) ∷ q) =
      let rest = greedy max_items max_bytes (n + 1) (w + s) q in
      if may_join max_items max_bytes n w s then (x, s) ∷ rest else []

  -- the queue of a buffer with these bounds and this size function
  unfoldable pub answer : ℕ → ℕ → (T → ℕ) → List (T × ℕ) → Call T → Reply T × List (T × ℕ)
  answer max_items max_bytes size q (push_item x) =
      let (rest, n) = evict max_items max_bytes (q ++ ((x, size x) ∷ [])) in (evicted n, rest)
  answer max_items max_bytes size q (take_some mi mb) =
      let batch = greedy mi mb 0 0 q in (given (values batch), drop (length batch) q)
  answer max_items max_bytes size q take_all = (given (values q), [])
  answer max_items max_bytes size q measure = (measured (length q) (total q), q)

  unfoldable pub replay : ℕ → ℕ → (T → ℕ) → List (T × ℕ) → List (Call T) → List (Reply T)
  replay max_items max_bytes size q [] = []
  replay max_items max_bytes size q (c ∷ calls) =
      let (r, q') = answer max_items max_bytes size q c in
      r ∷ replay max_items max_bytes size q' calls

  pub evict-Evicts :
      (mi mb : ℕ) (q : List (T × ℕ)) (n : ℕ) → Evicts mi mb q n → evict mi mb q ≡ (drop n q, n)
  unfolding evict
  evict-Evicts mi mb [] n e = absurd (omega (arith, e.keeps))
  evict-Evicts mi mb (x ∷ q) zero e =
      let whole : fits mi mb (length (x ∷ q)) (total (x ∷ q)) ≡ true = ground (arith, e.fits) in
      rw whole refl
  evict-Evicts mi mb (x ∷ q) (suc n) e =
      let over : fits mi mb (length (x ∷ q)) (total (x ∷ q)) ≡ false =
        ground (arith, e.least 0 (omega arith)) in
      let later : Evicts mi mb q n = record {
        fits = e.fits;
        least = λ k p. e.least (suc k) (omega arith);
        keeps = omega (arith, e.keeps);
      } in
      rw (over, evict-Evicts mi mb q n later) (ap (λ m. (drop n q, m)) (omega arith))

  pub greedy-prefix :
      (mi mb : ℤ) (n w : ℕ) (taken rest : List (T × ℕ))
      → (is_positive mi ≡ true → n + length taken ≤ to_nat mi)
      → (is_positive mb ≡ true → (w + total taken ≤ to_nat mb) ⊎ (n + length taken ≤ 1))
      → (0 < length rest
          → ¬ (
              (is_positive mi ≡ true → n + length taken + 1 ≤ to_nat mi)
              × (is_positive mb ≡ true
                  → (w + total taken + total (take 1 rest) ≤ to_nat mb)
                    ⊎ (n + length taken + 1 ≤ 1))))
      → greedy mi mb n w (taken ++ rest) ≡ taken
  unfolding greedy
  greedy-prefix mi mb n w [] [] h k m = refl
  greedy-prefix mi mb n w [] ((x, s) ∷ rest) h k m =
      let full : may_join mi mb n w s ≡ false = ground (arith, m (omega arith)) in rw full refl
  greedy-prefix mi mb n w ((x, s) ∷ taken) rest h k m =
      let free : may_join mi mb n w s ≡ true = ground arith in
      rw (free, greedy)
        (ap (λ q. (x, s) ∷ q)
          (greedy-prefix mi mb (n + 1) (w + s) taken rest (λ p. omega (arith, h p))
            (λ p. omega (arith, k p))
            (λ p q. m p (λ a. omega (arith, q.0 a), λ a. omega (arith, q.1 a)))))
