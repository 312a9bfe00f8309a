-- ===== src/Ring/Core.antt =====
-- The entries of a ring buffer, oldest first, and what one step of the methods does to them.
use native.Mathlib.Nat.{add-zero, mod-add-mod, mod-eq_of_lt, mod-eq-sub-mod, mod-lt}
use native.Mathlib.Decide.{dec_le}
use mathlib.Core.List.{map-append}
use groundcover_go.Base.{
  ◌⊎◌, inl, inr, map, ℕ, suc, ◌+◌, ◌-◌, ◌%◌, ◌≤◌, ◌<◌, ◌≡◌, sym, ap, ap₂, ◌∙◌, ◌≢◌, List, [], ◌∷◌,
  ◌++◌, arith, length, get_or, tabulate, length-set, length-tabulate, get_or-set_self,
  get_or-set_ne, tabulate_cong, tabulate_shift, tabulate_snoc,
}
use groundcover_go.Ring.{Buffer, HasZero, pop_oldest, append}

-- the bytes that a list of sized entries counts for
abbrev pub total {ℓ} : {T : Type ℓ} → List (T × ℕ) → ℕ
total [] = 0
total ((x, s) ∷ es) = s + total es

pub total-append {ℓ} : {T : Type ℓ} (xs ys : List (T × ℕ)) → total (xs ++ ys) ≡ total xs + total ys
total-append [] ys = omega arith
total-append ((x, s) ∷ xs) ys = omega (arith, total-append xs ys)

-- An index below twice the capacity goes round once at most.
wraps_once :
    (cap a : ℕ) → a < cap + cap → ((a < cap) × (a % cap ≡ a)) ⊎ ((cap ≤ a) × (a % cap + cap ≡ a))
wraps_once cap a h = elim (dec_le cap a) [
  | no below ↦ inl (omega arith, mod-eq_of_lt (omega arith))
  | yes past ↦
      let rest : (a - cap) % cap ≡ a - cap = mod-eq_of_lt (omega arith) in
      inr (past, omega (arith, mod-eq-sub-mod past, rest))
]

-- Two different entries lie at different indices.
slot-ne : (cap h j n : ℕ) → h < cap → j < n → n < cap → (h + n) % cap ≢ (h + j) % cap
slot-ne cap h j n hh hj hn =
    omega (arith, wraps_once cap (h + n) (omega arith), wraps_once cap (h + j) (omega arith))

module _ {ℓ} {T : Type ℓ} ⦃z : HasZero T⦄ where
  -- the `i`-th entry from the oldest on, with its size
  abbrev pub entry : Buffer T → ℕ → T × ℕ
  entry b i =
      let slot = (b.head + i) % length b.buf in (get_or b.buf slot z.zero_value, get_or b.sz slot 0)

  abbrev pub contents : Buffer T → List (T × ℕ)
  contents b = tabulate (entry b) 0 b.count

  pub length-contents : (b : Buffer T) → length (contents b) ≡ b.count
  length-contents b = length-tabulate (entry b) 0 b.count

  -- The slices hold the entries within their bounds.
  pub record IsSound (b : Buffer T) : Type 0 where
    pub same_length : length b.sz ≡ length b.buf
    pub head_in : 0 < length b.buf → b.head < length b.buf
    pub count_in : b.count ≤ length b.buf

  entry-pop_oldest :
      (b : Buffer T) (j : ℕ)
      → IsSound b
      → suc j < b.count
      → entry b (suc j) ≡ entry (pop_oldest b) j
  unfolding pop_oldest
  entry-pop_oldest b j v h =
      let cap = length b.buf in
      let head_in : b.head < cap = omega arith in
      let same : ((b.head + 1) % cap + j) % cap ≡ (b.head + suc j) % cap =
        rw mod-add-mod (ap (λ k. k % cap) (omega arith)) in
      let at_head : (b.head + 0) % cap ≡ b.head =
        ap (λ k. k % cap) (add-zero b.head) ∙ mod-eq_of_lt head_in in
      let ne : b.head ≢ (b.head + suc j) % cap = λ e.
        slot-ne cap b.head 0 (suc j) head_in (omega arith) (omega arith) (sym e ∙ sym at_head) in
      rw (length-set b.buf b.head z.zero_value, same)
        (ap (λ x. (x, get_or b.sz ((b.head + suc j) % cap) 0))
          (sym (get_or-set_ne b.buf b.head ((b.head + suc j) % cap) z.zero_value z.zero_value ne)))

  tail_contents :
      (b : Buffer T) (n : ℕ)
      → IsSound b
      → b.count ≡ suc n
      → tabulate (entry b) 1 n ≡ contents (pop_oldest b)
  tail_contents b n v e =
      sym (tabulate_shift (entry b) 0 n)
      ∙ tabulate_cong (λ j. entry b (suc j)) (entry (pop_oldest b)) 0 n
          (λ j _ h. entry-pop_oldest b j v (omega arith))
      ∙ ap (tabulate (entry (pop_oldest b)) 0) (unfold pop_oldest in omega arith)

  -- `popOldest` takes the oldest entry out and leaves the others in order.
  pub contents-pop_oldest :
      (b : Buffer T)
      → IsSound b
      → 0 < b.count
      → contents b
        ≡ (get_or b.buf b.head z.zero_value, get_or b.sz b.head 0) ∷ contents (pop_oldest b)
  contents-pop_oldest b v h =
      let n : ℕ = b.count - 1 in
      let e : b.count ≡ suc n = omega arith in
      let at_head : (b.head + 0) % length b.buf ≡ b.head =
        ap (λ k. k % length b.buf) (add-zero b.head) ∙ mod-eq_of_lt (v.head_in (omega arith)) in
      ap (tabulate (entry b) 0) e
      ∙ ap₂ ◌∷◌ (ap (λ i. (get_or b.buf i z.zero_value, get_or b.sz i 0)) at_head)
          (tail_contents b n v e)

  pub pop_oldest-IsSound : (b : Buffer T) → IsSound b → 0 < b.count → IsSound (pop_oldest b)
  unfolding pop_oldest
  pop_oldest-IsSound b v h = ground (arith, length-set b.buf b.head z.zero_value)

  entry-append_old :
      (b : Buffer T) (x : T) (s j : ℕ)
      → IsSound b
      → b.count < length b.buf
      → j < b.count
      → entry (append b x s) j ≡ entry b j
  unfolding append
  entry-append_old b x s j v h hj =
      let cap = length b.buf in
      let slot = (b.head + b.count) % cap in
      let at = (b.head + j) % cap in
      let ne : slot ≢ at = slot-ne cap b.head j b.count (omega arith) hj h in
      rw (length-set b.buf slot x) (
        ap₂ (λ a c. (a, c)) (get_or-set_ne b.buf slot at x z.zero_value ne)
          (get_or-set_ne b.sz slot at s 0 ne))

  entry-append_new :
      (b : Buffer T) (x : T) (s : ℕ)
      → IsSound b
      → b.count < length b.buf
      → entry (append b x s) b.count ≡ (x, s)
  unfolding append
  entry-append_new b x s v h =
      let cap = length b.buf in
      let slot = (b.head + b.count) % cap in
      let inside : slot < cap = mod-lt (b.head + b.count) {m = cap} (omega arith) in
      rw (length-set b.buf slot x) (
        ap₂ (λ a c. (a, c)) (get_or-set_self b.buf slot x z.zero_value inside)
          (get_or-set_self b.sz slot s 0 (omega arith)))

  -- A write past the newest entry appends it.
  pub contents-append :
      (b : Buffer T) (x : T) (s : ℕ)
      → IsSound b
      → b.count < length b.buf
      → contents (append b x s) ≡ contents b ++ ((x, s) ∷ [])
  unfolding append
  contents-append b x s v h =
      ap (tabulate (entry (append b x s)) 0) {y = suc b.count} (omega arith)
      ∙ tabulate_snoc (entry (append b x s)) 0 b.count
      ∙ ap₂ ◌++◌
          (tabulate_cong (entry (append b x s)) (entry b) 0 b.count
            (λ j _ hj. entry-append_old b x s j v h (omega arith)))
          (ap (λ e. e ∷ [])
            (ap (entry (append b x s)) {y = b.count} (omega arith) ∙ entry-append_new b x s v h))

  pub append-IsSound :
      (b : Buffer T) (x : T) (s : ℕ) → IsSound b → b.count < length b.buf → IsSound (append b x s)
  unfolding append
  append-IsSound b x s v h =
      let slot = (b.head + b.count) % length b.buf in
      ground (arith, length-set b.buf slot x, length-set b.sz slot s)

  -- the entry that `popOldest` takes
  abbrev pub oldest : Buffer T → T × ℕ
  oldest b = (get_or b.buf b.head z.zero_value, get_or b.sz b.head 0)

module _ {ℓ} {T : Type ℓ} where
  abbrev pub values : List (T × ℕ) → List T
  values = map (λ e. e.0)

  pub values-append : (p q : List (T × ℕ)) → values (p ++ q) ≡ values p ++ values q
  values-append p q = map-append (λ e. e.0) p q
