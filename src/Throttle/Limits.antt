-- ===== src/Throttle/Limits.antt =====
-- How often the throttler lets a line through.
use groundcover_go.Base.{
  ℕ, ◌+◌, ◌-◌, ◌≤◌, ◌<◌, ◌≡◌, refl, ◌∙◌, inl, inr, Bool, true, List, [], ◌∷◌, arith, Bool-cases,
  if◌then◌else◌,
}
use groundcover_go.Base.Int.{ℤ, is_positive, to_nat}
use groundcover_go.Throttle.{Key, same_key, Throttler, Options, new, or_new, put, roll, admit, run}
use groundcover_go.Throttle.Counts.{same_key_iff, emitted_of}

-- the time from which a line of the key may be emitted again
abbrev pub allowed_from : Throttler → Key → ℕ
allowed_from t k = (or_new (t.entries k)).next_allowed

abbrev pub AllBefore : ℕ → List (ℕ × Key) → Type 0
AllBefore d [] = Unit {0}
AllBefore d ((now, j) ∷ calls) = (now < d) × AllBefore d calls

admit_early :
    (t : Throttler) (now : ℕ) (j k : Key)
    → now < allowed_from t k
    → (emitted_of k ((j, (admit t now j).0.0, (admit t now j).0.1) ∷ []) ≡ 0)
      × (allowed_from (admit t now j).1 k ≡ allowed_from t k)
unfolding admit roll put
admit_early t now j k h = elim (Bool-cases (same_key j k)) [
  | inl e ↦ let same = (same_key_iff j k).0 e in (ground (arith, same), ground (arith, same))
  | inr e ↦ (ground arith, ground arith)
]

run_early :
    (t : Throttler) (calls : List (ℕ × Key)) (k : Key) (d : ℕ)
    → d ≤ allowed_from t k
    → AllBefore d calls
    → emitted_of k (run t calls).0 ≡ 0
unfolding run
run_early t [] k d h b = refl
run_early t ((now, j) ∷ calls) k d h b =
    let (here, kept) = admit_early t now j k (omega arith) in
    omega (arith, here, run_early (admit t now j).1 calls k d (omega (arith, kept)) b.1)

admit_sets :
    (t : Throttler) (now : ℕ) (k : Key)
    → (admit t now k).0.0 ≡ true
    → allowed_from (admit t now k).1 k ≡ now + t.window
unfolding admit roll put
admit_sets t now k e = let self = (same_key_iff k k).1 refl in ground (arith, self)

-- After a line of a key is emitted, no line of that key is emitted by any later calls, of whatever
-- keys, until a whole window has passed.
pub window_quiet :
    (t : Throttler) (now : ℕ) (k : Key) (calls : List (ℕ × Key))
    → (admit t now k).0.0 ≡ true
    → AllBefore (now + t.window) calls
    → emitted_of k (run (admit t now k).1 calls).0 ≡ 0
window_quiet t now k calls e b =
    run_early (admit t now k).1 calls k (now + t.window) (omega (arith, admit_sets t now k e)) b

-- lines emitted for any key
abbrev pub emitted : List (Key × Bool × ℕ) → ℕ
emitted [] = 0
emitted ((j, emit, n) ∷ answers) = (if emit then 1 else 0) + emitted answers

-- every call falls into the global window that begins at `start`
abbrev pub InWindow : ℕ → ℕ → List (ℕ × Key) → Type 0
InWindow start width [] = Unit {0}
InWindow start width ((now, j) ∷ calls) = (now - start < width) × InWindow start width calls

record IsCapped (cap : ℤ) (t : Throttler) : Type 0 where
  same : t.global_cap ≡ cap
  count : is_positive cap ≡ true → t.global_count ≤ to_nat cap

admit-IsCapped :
    (cap : ℤ) (t : Throttler) (now : ℕ) (j : Key) → IsCapped cap t → IsCapped cap (admit t now j).1
unfolding admit roll put
admit-IsCapped cap t now j c = record {
  same = ground (arith, c.same);
  count = λ p. ground (arith, c.same, c.count p);
}

run-IsCapped :
    (cap : ℤ) (t : Throttler) (calls : List (ℕ × Key))
    → IsCapped cap t
    → IsCapped cap (run t calls).1
unfolding run
run-IsCapped cap t [] c = c
run-IsCapped cap t ((now, j) ∷ calls) c =
    run-IsCapped cap (admit t now j).1 calls (admit-IsCapped cap t now j c)

-- Within a window that is open the count of emitted lines goes up one by one.
admit_counts :
    (t : Throttler) (now : ℕ) (j : Key)
    → 0 < t.global_window_start
    → now - t.global_window_start < t.global_window
    → ((admit t now j).1.global_count ≡ t.global_count + (if (admit t now j).0.0 then 1 else 0))
      × ((admit t now j).1.global_window_start ≡ t.global_window_start)
      × ((admit t now j).1.global_window ≡ t.global_window)
unfolding admit roll put
admit_counts t now j h k = (ground arith, ground arith, ground arith)

run_counts :
    (t : Throttler) (calls : List (ℕ × Key)) (start width : ℕ)
    → 0 < start
    → t.global_window_start ≡ start
    → t.global_window ≡ width
    → InWindow start width calls
    → (run t calls).1.global_count ≡ t.global_count + emitted (run t calls).0
unfolding run
run_counts t [] start width p e f w = omega arith
run_counts t ((now, j) ∷ calls) start width p e f w =
    let (grows, start', width') = admit_counts t now j (omega arith) (omega arith) in
    omega
      (arith, grows, run_counts (admit t now j).1 calls start width p (start' ∙ e) (width' ∙ f) w.1)

-- However a throttler with a positive global cap has been used, the lines that it emits within the
-- global window that is open, together with those that the window has counted already, never
-- exceed the cap.
pub burst_capped :
    (opts : Options) (earlier calls : List (ℕ × Key))
    → is_positive opts.global_cap ≡ true
    → let t = (run (new opts) earlier).1 in
      0 < t.global_window_start
      → InWindow t.global_window_start t.global_window calls
      → t.global_count + emitted (run t calls).0 ≤ to_nat opts.global_cap
burst_capped opts earlier calls p q w =
    let t = (run (new opts) earlier).1 in
    let capped = run-IsCapped opts.global_cap (new opts) earlier (fresh opts) in
    omega (
      arith,
      (run-IsCapped opts.global_cap t calls capped).count p,
      run_counts t calls t.global_window_start t.global_window q refl refl w,
    )
  where
    fresh : (opts : Options) → IsCapped opts.global_cap (new opts)
    fresh opts = unfold new in record { same = refl; count = λ _. omega arith }
