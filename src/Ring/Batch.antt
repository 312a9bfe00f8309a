-- ===== src/Ring/Batch.antt =====
-- `PopBatch` and `DrainAll` take entries from the front, in order.
use groundcover_go.Base.{
  ℕ, zero, suc, ◌+◌, ◌^◌, ◌≤◌, ◌<◌, ◌≡◌, refl, sym, ap, ◌∙◌, List, [], ◌∷◌, ◌++◌, ◌⊎◌, inl, inr,
  true, false, arith, length, length-append, length-map, length-take-le, append_assoc, ltb, ltb→lt,
  take, ◌==◌, Bool-cases,
}
use native.Mathlib.Decide.{dec_lt}
use mathlib.Core.Path.{subst₃}
use groundcover_go.Base.Int.{ℤ, is_positive→lt, is_positive, to_nat}
use groundcover_go.Ring.{Buffer, HasZero, pop_oldest, batch_full, take_batch, pop_batch}
use groundcover_go.Ring.Core.{
  values, values-append, oldest, contents, total-append, total, contents-pop_oldest,
  length-contents,
}
use groundcover_go.Ring.Inv.{IsValid, pop_oldest-IsValid, pop_oldest_fields}

-- The limits of a batch: a limit that is not positive is none, and a single entry may be as
-- large as it is.
module _ (max_items max_bytes : ℤ) where
  abbrev pub Within {ℓ} : {T : Type ℓ} → List (T × ℕ) → Type 0
  Within q =
      (is_positive max_items ≡ true → length q ≤ to_nat max_items)
      × (is_positive max_bytes ≡ true → (total q ≤ to_nat max_bytes) ⊎ (length q ≤ 1))

  full_reads {ℓ} :
      {T : Type ℓ} (out : List T) (w s : ℕ)
      → to_nat max_bytes < 2 ^ 63
      → w + s < 2 ^ 63
      → batch_full max_items max_bytes out w s ≡ true
      → ((is_positive max_items ≡ true) × (to_nat max_items ≤ length out))
        ⊎ ((0 < length out) × (is_positive max_bytes ≡ true) × (to_nat max_bytes < w + s))
  unfolding batch_full
  full_reads out w s h k e = ground arith

  free_reads {ℓ} :
      {T : Type ℓ} (out : List T) (w s : ℕ)
      → to_nat max_bytes < 2 ^ 63
      → w + s < 2 ^ 63
      → batch_full max_items max_bytes out w s ≡ false
      → (is_positive max_items ≡ true → length out < to_nat max_items)
        × (is_positive max_bytes ≡ true → (w + s ≤ to_nat max_bytes) ⊎ (length out ≡ 0))
  unfolding batch_full
  free_reads out w s h k e = (λ p. ground arith, λ p. ground arith)

module _ {ℓ} {T : Type ℓ} ⦃z : HasZero T⦄ where
  -- what `PopBatch` returns from the entries `q`: those `taken` from the front, within the limits
  -- and no entry fewer than the limits allow
  pub record Batch (max_items max_bytes : ℤ) (q : List (T × ℕ)) (out : List T × Buffer T)
      : Type ℓ where
    pub taken : List (T × ℕ)
    pub returned : out.0 ≡ values taken
    pub split : q ≡ taken ++ contents out.1
    pub within : Within max_items max_bytes taken
    pub maximal :
        0 < length (contents out.1)
        → ¬ Within max_items max_bytes (taken ++ take 1 (contents out.1))
    pub valid : IsValid out.1

module _ {ℓ} {T : Type ℓ} ⦃z : HasZero T⦄ (max_items max_bytes : ℤ) where
  -- The loop ends with the buffer empty.
  Batch-ends :
      (b : Buffer T) (taken : List (T × ℕ))
      → IsValid b
      → b.count ≡ 0
      → Within max_items max_bytes taken
      → Batch max_items max_bytes (taken ++ contents b) (values taken, b)
  Batch-ends b taken v h w = record {
    taken = taken;
    returned = refl;
    split = refl;
    within = w;
    maximal = λ p. absurd (omega (arith, length-contents b));
    valid = v;
  }

  -- The loop stops before an entry that has no place.
  Batch-stops :
      (b : Buffer T) (taken : List (T × ℕ))
      → IsValid b
      → 0 < b.count
      → Within max_items max_bytes taken
      → ((is_positive max_items ≡ true) × (to_nat max_items ≤ length taken))
        ⊎ ((0 < length taken)
            × (is_positive max_bytes ≡ true)
            × (to_nat max_bytes < total taken + (oldest b).1))
      → Batch max_items max_bytes (taken ++ contents b) (values taken, b)
  Batch-stops b taken v h w full =
      let next = ap (take 1) (contents-pop_oldest b v.sound h) in
      let longer = length-append taken (take 1 (contents b)) in
      let heavier = total-append taken (take 1 (contents b)) in
      record {
        taken = taken;
        returned = refl;
        split = refl;
        within = w;
        maximal = λ _ fit.
            over (taken ++ take 1 (contents b)) (length taken) (total taken + (oldest b).1)
              (omega (arith, longer, ap length next)) (omega (arith, heavier, ap total next)) full
              fit;
        valid = v;
      }
    where
      over :
          (q : List (T × ℕ)) (n w : ℕ)
          → length q ≡ suc n
          → total q ≡ w
          → ((is_positive max_items ≡ true) × (to_nat max_items ≤ n))
            ⊎ ((0 < n) × (is_positive max_bytes ≡ true) × (to_nat max_bytes < w))
          → Within max_items max_bytes q
          → ⊥
      over q n w e f (inl why) fit = omega (arith, fit.0 why.0, why.1)
      over q n w e f (inr why) fit = omega (arith, fit.1 why.1, why.0, why.2)

  -- One more entry fits.
  Within-snoc :
      (taken : List (T × ℕ)) (e : T × ℕ)
      → (is_positive max_items ≡ true → length taken < to_nat max_items)
        × (is_positive max_bytes ≡ true
            → (total taken + e.1 ≤ to_nat max_bytes) ⊎ (length taken ≡ 0))
      → Within max_items max_bytes (taken ++ (e ∷ []))
  Within-snoc taken e free =
      let longer = length-append taken (e ∷ []) in
      let heavier = total-append taken (e ∷ []) in
      (λ p. omega (arith, free.0 p, longer), λ p. omega (arith, free.1 p, longer, heavier))

  -- The loop returns a batch of the entries that it was given, in at most `count` rounds.
  take_batch-Batch :
      (rounds : ℕ) (b : Buffer T) (taken : List (T × ℕ))
      → IsValid b
      → b.count ≤ rounds
      → to_nat max_bytes < 2 ^ 63
      → total taken + total (contents b) < 2 ^ 63
      → Within max_items max_bytes taken
      → Batch max_items max_bytes
          (taken ++ contents b)
          (take_batch max_items max_bytes rounds b (values taken) (total taken))
  unfolding take_batch
  take_batch-Batch zero b taken v h lim sum w = Batch-ends b taken v (omega arith) w
  take_batch-Batch (suc rounds) b taken v h lim sum w = elim (Bool-cases (ltb 0 b.count)) [
    | inr done ↦ rw (done, take_batch) (Batch-ends b taken v (ground arith) w)
    | inl more ↦
        let left = ltb→lt 0 b.count more in
        let split = contents-pop_oldest b v.sound left in
        let size = (oldest b).1 in
        let small : total taken + size < 2 ^ 63 = omega (arith, ap total split) in
        let same = length-map (λ (e : T × ℕ). e.0) taken in
        elim (Bool-cases (batch_full max_items max_bytes (values taken) (total taken) size)) [
          | inl full ↦
              let why =
                rw same at (
                  full_reads max_items max_bytes (values taken) (total taken) size lim small
                    full) in
              rw (more, full, take_batch) (Batch-stops b taken v left w why)
          | inr free ↦
              let why =
                free_reads max_items max_bytes (values taken) (total taken) size lim small free in
              let taken' = taken ++ (oldest b ∷ []) in
              let heavier = total-append taken (oldest b ∷ []) in
              let rest =
                take_batch-Batch rounds (pop_oldest b) taken' (pop_oldest-IsValid b v left)
                  (omega (arith, pop_oldest_fields b)) lim (omega (arith, ap total split, heavier))
                  (Within-snoc taken (oldest b)
                    (λ p. omega (arith, why.0 p, same), λ p. omega (arith, why.1 p, same))) in
              rw (more, free, take_batch)
                (subst₃
                  (λ q out w.
                    Batch max_items max_bytes q
                      (take_batch max_items max_bytes rounds (pop_oldest b) out w))
                  (append_assoc taken (oldest b ∷ []) (contents (pop_oldest b))
                    ∙ ap (◌++◌ taken) (sym split))
                  (values-append taken (oldest b ∷ [])) (omega (arith, heavier)) rest)
        ]
  ]

  pop_batch-Batch :
      (b : Buffer T)
      → IsValid b
      → to_nat max_bytes < 2 ^ 63
      → Batch max_items max_bytes (contents b) (pop_batch b max_items max_bytes)
  unfolding pop_batch
  pop_batch-Batch b v lim = elim (Bool-cases (b.count == 0)) [
    | inl empty ↦ rw empty (Batch-ends b [] v (ground arith) nothing)
    | inr some_left ↦ rw some_left (
        take_batch-Batch b.count b [] v (omega arith) lim
          (omega (arith, v.bytes_exact, v.bytes_small)) nothing)
  ]
    where
      nothing : Within max_items max_bytes {T = T} []
      nothing = (λ _. omega arith, λ _. omega arith)

  -- A batch of a non-empty queue is not empty: one entry is always within the limits.
  Batch-ne-nil :
      (q : List (T × ℕ)) (out : List T × Buffer T)
      → Batch max_items max_bytes q out
      → 0 < length q
      → 0 < length out.0
  Batch-ne-nil q out t h = elim (dec_lt 0 (length t.taken)) [
    | yes p ↦ omega (arith, p, ap length t.returned, length-map (λ (e : T × ℕ). e.0) t.taken)
    | no n ↦
        let rest = contents out.1 in
        let one = length-take-le 1 rest in
        let all = length-append t.taken (take 1 rest) in
        absurd (
          t.maximal (omega (arith, n, ap length t.split, length-append t.taken rest)) (
            λ p. omega (arith, n, all, one, is_positive→lt max_items p),
            λ p. omega (arith, n, all, one),
          ))
  ]

  -- On a valid buffer, under a byte limit that fits an `int`, `PopBatch` takes entries from the
  -- front, in order, and leaves the others in a valid buffer; it stays within both limits, and
  -- stops only where one entry more would break one; and it returns an entry at least unless the
  -- buffer is empty.
  pub pop_batch_lem :
      (b : Buffer T)
      → IsValid b
      → to_nat max_bytes < 2 ^ 63
      → Batch max_items max_bytes (contents b) (pop_batch b max_items max_bytes)
        × (0 < b.count → 0 < length (pop_batch b max_items max_bytes).0)
  pop_batch_lem b v lim =
      let t = pop_batch-Batch b v lim in
      (
        t,
        λ h.
            Batch-ne-nil (contents b) (pop_batch b max_items max_bytes) t
              (omega (arith, length-contents b)),
      )
