-- ===== src/Ring/Inv.antt =====
-- `grow`, and the invariant of the ring buffer that the methods keep.
use native.Mathlib.Nat.{mod-eq_of_lt}
use native.Mathlib.Decide.{ℕ_discrete}
use groundcover_go.Base.{
  ℕ, zero, suc, ◌+◌, ◌-◌, ◌%◌, ◌^◌, ◌≤◌, ◌<◌, ◌≡◌, refl, sym, ap, ap₂, ◌∙◌, List, [], ◌∷◌, Option,
  arith, length, get_or, set, replicate, length-set, length-replicate, get_or-set_self,
  get_or-set_ne, tabulate_cong,
}
use groundcover_go.Base.Words.{add64, sub64}
use groundcover_go.Base.Int.{ℤ, to_nat}
use groundcover_go.Ring.{Buffer, HasZero, relinearize, new_cap, grow, pop_oldest, append, new}
use groundcover_go.Ring.Core.{
  entry, contents, total, total-append, contents-append, append-IsSound, IsSound,
  contents-pop_oldest, pop_oldest-IsSound,
}

module _ {ℓ} {T : Type ℓ} where
  length-relinearize :
      (d : T) (old : List T) (h : ℕ) (new : List T) (i k : ℕ)
      → length (relinearize d old h new i k) ≡ length new
  unfolding relinearize
  length-relinearize d old h new i zero = refl
  length-relinearize d old h new i (suc k) =
      let v = get_or old ((h + i) % length old) d in
      length-relinearize d old h (set new i v) (suc i) k ∙ length-set new i v

  relinearize_below :
      (d : T) (old : List T) (h : ℕ) (new : List T) (i k j : ℕ)
      → j < i
      → get_or (relinearize d old h new i k) j d ≡ get_or new j d
  unfolding relinearize
  relinearize_below d old h new i zero j p = refl
  relinearize_below d old h new i (suc k) j p =
      let v = get_or old ((h + i) % length old) d in
      relinearize_below d old h (set new i v) (suc i) k j (omega arith)
      ∙ get_or-set_ne new i j v d (λ e. omega arith)

  -- The loop of `grow` moves the entry `j` steps from the head to index `j`.
  relinearize_at :
      (d : T) (old : List T) (h : ℕ) (new : List T) (i k j : ℕ)
      → i + k ≤ length new
      → i ≤ j
      → j < i + k
      → get_or (relinearize d old h new i k) j d ≡ get_or old ((h + j) % length old) d
  unfolding relinearize
  relinearize_at d old h new i zero j p q r = absurd (omega arith)
  relinearize_at d old h new i (suc k) j p q r =
      let v = get_or old ((h + i) % length old) d in
      elim (ℕ_discrete i j) [
        | yes e ↦
            relinearize_below d old h (set new i v) (suc i) k j (omega arith)
            ∙ ap (λ n. get_or (set new i v) n d) (sym e)
            ∙ get_or-set_self new i v d (omega arith)
            ∙ ap (λ n. get_or old ((h + n) % length old) d) e
        | no ne ↦
            relinearize_at d old h (set new i v) (suc i) k j (omega (arith, length-set new i v))
              (omega arith) (omega arith)
      ]

module _ {ℓ} {T : Type ℓ} ⦃z : HasZero T⦄ where
  pub length-grow : (b : Buffer T) → length (grow b).buf ≡ new_cap b
  unfolding grow
  length-grow b =
      length-relinearize z.zero_value b.buf b.head (replicate (new_cap b) z.zero_value) 0 b.count
      ∙ length-replicate (new_cap b) z.zero_value

  length-grow_sz : (b : Buffer T) → length (grow b).sz ≡ new_cap b
  unfolding grow
  length-grow_sz b =
      length-relinearize 0 b.sz b.head (replicate (new_cap b) 0) 0 b.count
      ∙ length-replicate (new_cap b) 0

  -- `grow` has room for one entry more, and never for more than the bound.
  pub new_cap_bounds :
      (b : Buffer T)
      → length b.buf < b.max_items
      → (length b.buf < new_cap b) × (new_cap b ≤ b.max_items)
  unfolding new_cap
  new_cap_bounds b h = ground arith

  entry-grow :
      (b : Buffer T) (j : ℕ)
      → IsSound b
      → length b.buf < b.max_items
      → j < b.count
      → entry (grow b) j ≡ entry b j
  unfolding grow
  entry-grow b j v h hj =
      let fits : 0 + b.count ≤ new_cap b = omega (arith, new_cap_bounds b h) in
      let in_new : j < length (grow b).buf = omega (arith, length-grow b) in
      let at : (0 + j) % length (grow b).buf ≡ j =
        ap (λ n. n % length (grow b).buf) {y = j} (omega arith) ∙ mod-eq_of_lt in_new in
      let moved =
        relinearize_at z.zero_value b.buf b.head (replicate (new_cap b) z.zero_value) 0 b.count j
          (omega (arith, length-replicate (new_cap b) z.zero_value)) (omega arith) (omega arith) in
      let moved_sz =
        relinearize_at 0 b.sz b.head (replicate (new_cap b) 0) 0 b.count j
          (omega (arith, length-replicate {A = ℕ} (new_cap b) 0)) (omega arith) (omega arith) in
      ap (λ i. (get_or (grow b).buf i z.zero_value, get_or (grow b).sz i 0)) at
      ∙ ap₂ (λ a c. (a, c)) moved
          (moved_sz ∙ ap (λ n. get_or b.sz ((b.head + j) % n) 0) v.same_length)

  -- Growing moves the entries to the front of new slices and keeps them in order.
  pub contents-grow :
      (b : Buffer T) → IsSound b → length b.buf < b.max_items → contents (grow b) ≡ contents b
  unfolding grow
  contents-grow b v h =
      tabulate_cong (entry (grow b)) (entry b) 0 b.count
        (λ j _ hj. entry-grow b j v h (omega arith))

  pub grow-IsSound : (b : Buffer T) → IsSound b → length b.buf < b.max_items → IsSound (grow b)
  grow-IsSound b v h = record {
    same_length = length-grow_sz b ∙ sym (length-grow b);
    head_in = λ p. unfold grow in omega (arith, length-grow b);
    count_in = unfold grow in omega (arith, length-grow b, new_cap_bounds b h);
  }

  -- What holds of a buffer between two calls: its slices hold the entries within their bounds,
  -- the byte account is the sum of the entries' sizes, and neither the account nor the limits
  -- leave the positive half of `int`.
  pub record IsValid (b : Buffer T) : Type 0 where
    pub sound : IsSound b
    pub cap_in : length b.buf ≤ b.max_items
    pub items_pos : 0 < b.max_items
    pub limit_small : b.max_bytes < 2 ^ 63
    pub bytes_small : b.bytes < 2 ^ 63
    pub bytes_exact : b.bytes ≡ total (contents b)

  -- what `popOldest` leaves alone, and the word arithmetic of the rest
  pub pop_oldest_fields :
      (b : Buffer T)
      → ((pop_oldest b).count ≡ b.count - 1)
        × ((pop_oldest b).bytes ≡ sub64 b.bytes (get_or b.sz b.head 0))
        × ((pop_oldest b).max_items ≡ b.max_items)
        × ((pop_oldest b).max_bytes ≡ b.max_bytes)
        × (length (pop_oldest b).buf ≡ length b.buf)
  unfolding pop_oldest
  pop_oldest_fields b = (refl, refl, refl, refl, length-set b.buf b.head z.zero_value)

  pub pop_oldest-IsValid : (b : Buffer T) → IsValid b → 0 < b.count → IsValid (pop_oldest b)
  pop_oldest-IsValid b v h =
      let split = ap total (contents-pop_oldest b v.sound h) in
      let fields = pop_oldest_fields b in
      let exact : (pop_oldest b).bytes ≡ total (contents (pop_oldest b)) =
        omega (arith, v.bytes_exact, v.bytes_small, split, fields) in
      record {
        sound = pop_oldest-IsSound b v.sound h;
        cap_in = omega (arith, v.cap_in, fields);
        items_pos = omega (arith, v.items_pos, fields);
        limit_small = omega (arith, v.limit_small, fields);
        bytes_small = omega (arith, v.bytes_exact, v.bytes_small, split, exact);
        bytes_exact = exact;
      }

  pub grow_fields :
      (b : Buffer T)
      → ((grow b).count ≡ b.count)
        × ((grow b).bytes ≡ b.bytes)
        × ((grow b).max_items ≡ b.max_items)
        × ((grow b).max_bytes ≡ b.max_bytes)
  unfolding grow
  grow_fields b = (refl, refl, refl, refl)

  pub grow-IsValid : (b : Buffer T) → IsValid b → length b.buf < b.max_items → IsValid (grow b)
  grow-IsValid b v h =
      let fields = grow_fields b in
      let same = ap total (contents-grow b v.sound h) in
      record {
        sound = grow-IsSound b v.sound h;
        cap_in = omega (arith, fields, length-grow b, new_cap_bounds b h);
        items_pos = omega (arith, v.items_pos, fields);
        limit_small = omega (arith, v.limit_small, fields);
        bytes_small = omega (arith, v.bytes_small, fields);
        bytes_exact = omega (arith, v.bytes_exact, fields, same);
      }

  pub append_fields :
      (b : Buffer T) (x : T) (s : ℕ)
      → ((append b x s).count ≡ b.count + 1)
        × ((append b x s).bytes ≡ add64 b.bytes s)
        × ((append b x s).max_items ≡ b.max_items)
        × ((append b x s).max_bytes ≡ b.max_bytes)
        × (length (append b x s).buf ≡ length b.buf)
  unfolding append
  append_fields b x s =
      (refl, refl, refl, refl, length-set b.buf ((b.head + b.count) % length b.buf) x)

  -- The account stays exact as long as the sum fits into an `int`.
  pub append-IsValid :
      (b : Buffer T) (x : T) (s : ℕ)
      → IsValid b
      → b.count < length b.buf
      → b.bytes + s < 2 ^ 63
      → IsValid (append b x s)
  append-IsValid b x s v room small =
      let fields = append_fields b x s in
      let sum =
        ap total (contents-append b x s v.sound room) ∙ total-append (contents b) ((x, s) ∷ []) in
      record {
        sound = append-IsSound b x s v.sound room;
        cap_in = omega (arith, v.cap_in, fields);
        items_pos = omega (arith, v.items_pos, fields);
        limit_small = omega (arith, v.limit_small, fields);
        bytes_small = omega (arith, fields);
        bytes_exact = omega (arith, fields, sum, v.bytes_exact);
      }

  -- `New` gives a valid buffer, whatever its arguments; the bounds are positive 63-bit numbers.
  pub new-IsValid :
      (max_items max_bytes : ℤ) (size_of : Option (T → ℤ))
      → to_nat max_bytes < 2 ^ 63
      → IsValid (new max_items max_bytes size_of)
  unfolding new
  new-IsValid max_items max_bytes size_of h = record {
    sound = record {
      same_length = refl;
      head_in = λ p. absurd (omega arith);
      count_in = omega arith;
    };
    cap_in = omega arith;
    items_pos = ground arith;
    limit_small = ground arith;
    bytes_small = omega arith;
    bytes_exact = refl;
  }
