-- ===== src/Transport/Worker/Drains.antt =====
-- `dispatchReady` empties the buffer, in order, in batches within the limits.
use mathlib.Core.List.{flatten}
use groundcover_go.Base.{
  ℕ, zero, suc, ◌+◌, ◌^◌, ◌≤◌, ◌<◌, ◌≡◌, refl, ap, ap₂, sym, ◌∙◌, inl, inr, true, List, [], ◌∷◌,
  ◌++◌, Option, some, arith, length, length-append, length-map, ◌==◌, ==_iff, Bool-cases,
}
use groundcover_go.Base.Int.{ℤ, is_positive, to_nat}
use groundcover_go.Ring.{Buffer, HasZero, pop_batch}
use groundcover_go.Ring.Core.{contents, values, values-append, length-contents}
use groundcover_go.Ring.Inv.{IsValid}
use groundcover_go.Ring.Batch.{Batch, pop_batch_lem}
use groundcover_go.Transport.Config.{WorkerConfig}
use groundcover_go.Transport.Worker.{prepend, dispatch_rounds, dispatch_ready}

module _ {T : Type 0} where
  -- every batch holds an item at least and `n` at most
  abbrev pub AllSized : ℕ → List (List T) → Type 0
  AllSized n [] = Unit {0}
  AllSized n (x ∷ xs) = (0 < length x) × (length x ≤ n) × AllSized n xs

  pub empty_of_length : (xs : List T) → length xs ≡ 0 → xs ≡ []
  empty_of_length [] h = refl
  empty_of_length (x ∷ xs) h = absurd (omega arith)

-- what is left where nothing comes out
none_left : (c n : ℕ) → (0 < c → 0 < n) → n ≡ 0 → c ≡ 0
none_left zero n h e = refl
none_left (suc c) n h e = absurd (omega (arith, h (omega arith)))

module _ {T : Type 0} ⦃z : HasZero T⦄ where
  -- A batch and the rest make up the buffer.
  pub count_split :
      {mi mb : ℤ} (b : Buffer T) (out : List T × Buffer T)
      → Batch mi mb (contents b) out
      → b.count ≡ length out.0 + out.1.count
  count_split b out t = omega (
    arith,
    length-contents b,
    length-contents out.1,
    ap length t.split,
    length-append t.taken (contents out.1),
    ap length t.returned,
    length-map (λ (e : T × ℕ). e.0) t.taken,
  )

module _ {T : Type 0} ⦃z : HasZero T⦄ (cfg : WorkerConfig) where
  pub record Drained (b : Buffer T) (out : Option (List (List T) × Buffer T)) : Type 0 where
    pub batches : List (List T)
    pub after : Buffer T
    pub returned : out ≡ some (batches, after)
    pub in_order : flatten batches ≡ values (contents b)
    pub emptied : after.count ≡ 0
    pub valid : IsValid after
    pub sized : AllSized (to_nat cfg.batch_size) batches

  -- A round that pops nothing ends the loop, with the buffer empty.
  last_round :
      (b b' : Buffer T) → IsValid b' → b.count ≡ 0 → b'.count ≡ 0 → Drained b (some ([], b'))
  unfolding flatten
  last_round b b' v h h' = record {
    batches = [];
    after = b';
    returned = refl;
    in_order = ap values (sym (empty_of_length (contents b) (omega (arith, length-contents b))));
    emptied = h';
    valid = v;
    sized = tt;
  }

  -- A round that pops a batch puts it before those of the later rounds.
  one_round :
      (b : Buffer T) (out : List T × Buffer T) (rest : Option (List (List T) × Buffer T))
      → is_positive cfg.batch_size ≡ true
      → Batch cfg.batch_size cfg.max_batch_bytes (contents b) out
      → 0 < length out.0
      → Drained out.1 rest
      → Drained b (prepend out.0 rest)
  unfolding prepend flatten
  one_round b (batch, b') rest p t some_out r = record {
    batches = batch ∷ r.batches;
    after = r.after;
    returned = ap (prepend batch) r.returned;
    in_order =
        ap₂ ◌++◌ t.returned r.in_order
        ∙ sym (values-append t.taken (contents b'))
        ∙ ap values (sym t.split);
    emptied = r.emptied;
    valid = r.valid;
    sized = (
      some_out,
      omega (arith, ap length t.returned, length-map (λ (e : T × ℕ). e.0) t.taken, t.within.0 p),
      r.sized,
    );
  }

  dispatch_rounds-Drained :
      (fuel : ℕ) (b : Buffer T)
      → is_positive cfg.batch_size ≡ true
      → to_nat cfg.max_batch_bytes < 2 ^ 63
      → IsValid b
      → b.count < fuel
      → Drained b (dispatch_rounds cfg fuel b)
  unfolding dispatch_rounds
  dispatch_rounds-Drained zero b p lim v h = absurd (omega arith)
  dispatch_rounds-Drained (suc fuel) b p lim v h =
      let out = pop_batch b cfg.batch_size cfg.max_batch_bytes in
      let (t, some_out) = pop_batch_lem cfg.batch_size cfg.max_batch_bytes b v lim in
      let counts = count_split b out t in
      elim (Bool-cases (length out.0 == 0)) [
        | inl done ↦
            let none_out = (==_iff (length out.0) 0).0 done in
            let empty = none_left b.count (length out.0) some_out none_out in
            rw done (last_round b out.1 t.valid empty (omega (arith, counts)))
        | inr more ↦
            let nonempty : 0 < length out.0 = ground arith in
            rw more (
              one_round b out (dispatch_rounds cfg fuel out.1) p t nonempty
                (dispatch_rounds-Drained fuel out.1 p lim t.valid (omega (arith, counts))))
      ]

  -- On a valid buffer, with a positive batch size and a byte limit that fits an `int`,
  -- `dispatchReady` ends, leaves a valid empty buffer, and has dispatched exactly the buffered
  -- items, oldest first, in batches of at least one item and at most the batch size.
  pub dispatch_ready-Drained :
      (b : Buffer T)
      → is_positive cfg.batch_size ≡ true
      → to_nat cfg.max_batch_bytes < 2 ^ 63
      → IsValid b
      → Drained b (dispatch_ready cfg b)
  unfolding dispatch_ready
  dispatch_ready-Drained b p lim v = dispatch_rounds-Drained (suc b.count) b p lim v (omega arith)
