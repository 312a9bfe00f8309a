-- ===== src/Ring/Push/Shrink.antt =====
-- The loop of `Push` that brings the byte account within its limit.
use groundcover_go.Base.{
  ℕ, zero, suc, ◌+◌, ◌^◌, ◌≤◌, ◌<◌, ◌≡◌, refl, sym, ap, ◌∙◌, ◌∷◌, ◌⊎◌, inl, inr, true, false, ◌&&◌,
  arith, length, drop, get_or, ltb, Bool-cases,
}
use groundcover_go.Base.Words.{lt_int}
use groundcover_go.Ring.{Buffer, HasZero, pop_oldest, shrink}
use groundcover_go.Ring.Core.{contents, total, contents-pop_oldest, length-contents}
use groundcover_go.Ring.Inv.{IsValid, pop_oldest-IsValid, pop_oldest_fields}
use groundcover_go.Ring.Fifo.{Over, Over-cons}

-- the test of the loop, read as numbers
loop_goes :
    (m n c : ℕ) → m < 2 ^ 63 → n < 2 ^ 63 → (lt_int m n && ltb 1 c) ≡ true → (m < n) × (1 < c)
loop_goes m n c h k e = ground arith

loop_stops :
    (m n c : ℕ) → m < 2 ^ 63 → n < 2 ^ 63 → (lt_int m n && ltb 1 c) ≡ false → (n ≤ m) ⊎ (c ≤ 1)
loop_stops m n c h k e = ground arith

module _ {ℓ} {T : Type ℓ} ⦃z : HasZero T⦄ where
  -- what the loop of `Push` has done when it stops
  pub record Shrunk (b : Buffer T) (d : ℕ) (out : Buffer T × ℕ) : Type ℓ where
    pub evicted : ℕ
    pub counted : out.1 ≡ d + evicted
    pub kept : contents out.0 ≡ drop evicted (contents b)
    pub valid : IsValid out.0
    pub room : (total (contents out.0) ≤ b.max_bytes) ⊎ (out.0.count ≤ 1)
    pub needed : (k : ℕ) → k < evicted → Over b.max_bytes (drop k (contents b))
    pub left : (evicted ≡ 0) ⊎ (evicted < b.count)
    pub same_items : out.0.max_items ≡ b.max_items

  stops :
      (b : Buffer T) (d : ℕ)
      → IsValid b
      → (total (contents b) ≤ b.max_bytes) ⊎ (b.count ≤ 1)
      → Shrunk b d (b, d)
  stops b d v h = record {
    evicted = 0;
    counted = omega arith;
    kept = refl;
    valid = v;
    room = h;
    needed = λ k p. absurd (omega arith);
    left = inl refl;
    same_items = refl;
  }

  goes_on :
      (b : Buffer T) (d : ℕ) (out : Buffer T × ℕ)
      → IsValid b
      → b.max_bytes < b.bytes
      → 1 < b.count
      → Shrunk (pop_oldest b) (d + 1) out
      → Shrunk b d out
  goes_on b d out v over more s =
      let fields = pop_oldest_fields b in
      let split = contents-pop_oldest b v.sound (omega arith) in
      let x : T × ℕ = (get_or b.buf b.head z.zero_value, get_or b.sz b.head 0) in
      let rest = contents (pop_oldest b) in
      let at_limit : (k : ℕ) → k < s.evicted → Over b.max_bytes (drop k rest) =
        λ k p. omega (arith, s.needed k p, fields) in
      let first : Over b.max_bytes (x ∷ rest) = (
        omega (arith, v.bytes_exact, ap total split),
        omega (arith, length-contents b, ap length split),
      ) in
      record {
        evicted = suc s.evicted;
        counted = omega (arith, s.counted);
        kept = s.kept ∙ ap (drop (suc s.evicted)) (sym split);
        valid = s.valid;
        room = omega (arith, s.room, fields);
        needed = λ k p. rw split (Over-cons b.max_bytes s.evicted x rest first at_limit k p);
        left = inr (omega (arith, s.left, fields));
        same_items = s.same_items ∙ fields.2;
      }

  -- `Push`'s loop evicts no entry too many and none too few, within `count` rounds.
  pub shrink-Shrunk :
      (rounds : ℕ) (b : Buffer T) (d : ℕ)
      → IsValid b
      → b.count ≤ suc rounds
      → Shrunk b d (shrink rounds b d)
  unfolding shrink
  shrink-Shrunk zero b d v h = stops b d v (inr h)
  shrink-Shrunk (suc rounds) b d v h =
      elim (Bool-cases (lt_int b.max_bytes b.bytes && ltb 1 b.count)) [
        | inr stop ↦
            let why = loop_stops b.max_bytes b.bytes b.count v.limit_small v.bytes_small stop in
            rw (stop, shrink) (stops b d v (omega (arith, why, v.bytes_exact)))
        | inl go ↦
            let why = loop_goes b.max_bytes b.bytes b.count v.limit_small v.bytes_small go in
            rw (go, shrink)
              (goes_on b d (shrink rounds (pop_oldest b) (d + 1)) v why.0 why.1 (
                shrink-Shrunk rounds (pop_oldest b) (d + 1)
                  (pop_oldest-IsValid b v (omega (arith, why)))
                  (omega (arith, pop_oldest_fields b))))
      ]
