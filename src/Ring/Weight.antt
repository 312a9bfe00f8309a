-- ===== src/Ring/Weight.antt =====
-- The byte account stays small: entries and bounds below 2 ^ 62 keep every sum within an `int`.
use groundcover_go.Base.{
  ℕ, zero, suc, ◌+◌, ◌^◌, ◌≤◌, ◌<◌, ◌≡◌, ap, ◌∙◌, ◌⊎◌, inl, inr, List, [], ◌∷◌, ◌++◌, arith, length,
  length-append, length-drop, drop,
}
use groundcover_go.Base.Int.{ℤ}
use groundcover_go.Ring.{Buffer, HasZero, clamp_size, push}
use groundcover_go.Ring.Core.{contents, total, total-append, length-contents}
use groundcover_go.Ring.Inv.{IsValid}
use groundcover_go.Ring.Push.{push_lem, with_new}
use groundcover_go.Ring.Batch.{Batch}

-- The last entry of a queue that has only one.
total_last :
    {T : Type 0} (xs : List (T × ℕ)) (x : T) (s n : ℕ)
    → n < length (xs ++ ((x, s) ∷ []))
    → length (drop n (xs ++ ((x, s) ∷ []))) ≤ 1
    → total (drop n (xs ++ ((x, s) ∷ []))) ≡ s
total_last [] x s zero h k = omega arith
total_last [] x s (suc n) h k = absurd (omega arith)
total_last (y ∷ xs) x s zero h k = absurd (omega (arith, length-append xs ((x, s) ∷ [])))
total_last (y ∷ xs) x s (suc n) h k = total_last xs x s n (omega arith) k

module _ {T : Type 0} ⦃z : HasZero T⦄ where
  -- what `Push` does to the account, for an entry and a byte bound below 2 ^ 62
  pub record Entered (b : Buffer T) (out : Buffer T × ℕ) : Type 0 where
    pub valid : IsValid out.0
    pub light : out.0.bytes < 2 ^ 62
    pub counted : out.0.count + out.1 ≡ b.count + 1

  pub push-Entered :
      (b : Buffer T) (x : T)
      → IsValid b
      → b.bytes < 2 ^ 62
      → b.max_bytes < 2 ^ 62
      → clamp_size (b.size_of x) < 2 ^ 62
      → Entered b (push b x)
  push-Entered b x v light limit small =
      let p = push_lem b x v (omega arith) in
      let (b', n) = push b x in
      let size = clamp_size (b.size_of x) in
      let single : length (contents b') ≤ 1 → total (contents b') ≡ size = λ one.
        ap total p.kept
        ∙ total_last (contents b) x size n p.evicts.keeps (omega (arith, one, ap length p.kept)) in
      record {
        valid = p.valid;
        light =
            weigh b' p.valid (omega (arith, p.evicts.fits, ap total p.kept, ap length p.kept))
              single;
        counted = omega (
          arith,
          p.evicts.keeps,
          length-contents b,
          length-contents b',
          ap length p.kept,
          length-drop n (with_new b x),
          length-append (contents b) ((x, size) ∷ []),
        );
      }
    where
      weigh :
          (b' : Buffer T)
          → IsValid b'
          → (total (contents b') ≤ b.max_bytes) ⊎ (length (contents b') ≤ 1)
          → (length (contents b') ≤ 1 → total (contents b') ≡ clamp_size (b.size_of x))
          → b'.bytes < 2 ^ 62
      weigh b' v' (inl fits) single = omega (arith, v'.bytes_exact)
      weigh b' v' (inr one) single = omega (arith, v'.bytes_exact, single one)

  -- A batch that stays whole is lighter than the buffer that it comes from.
  pub Batch-light :
      {mi mb : ℤ} (b : Buffer T) (out : List T × Buffer T)
      → IsValid b
      → Batch mi mb (contents b) out
      → out.1.bytes ≤ b.bytes
  Batch-light b out v t = omega (
    arith,
    v.bytes_exact,
    t.valid.bytes_exact,
    ap total t.split,
    total-append t.taken (contents out.1),
  )
