-- ===== src/Throttle/Counts.antt =====
-- No suppressed line is forgotten.
use text.Mathlib.TextEquality.{eq_iff}
use groundcover_go.Base.{
  ℕ, ◌+◌, ◌≡◌, inl, inr, ◌↔◌, Bool, true, ◌&&◌, List, [], ◌∷◌, arith, Bool-cases, if◌then◌else◌,
}
use groundcover_go.Throttle.{Key, same_key, Throttler, or_new, put, roll, admit, run}

pub same_key_iff : (a b : Key) → (same_key a b ≡ true) ↔ (a ≡ b)
unfolding same_key
same_key_iff a b =
    (λ h. ground (arith, eq_iff a.file b.file), λ e. ground (arith, eq_iff a.file b.file))

-- lines suppressed and not yet reported for a key
abbrev pub pending : Throttler → Key → ℕ
pending t k = (or_new (t.entries k)).suppressed

-- over the calls with key `k`: how many there are, how many were emitted, and what they reported
abbrev pub calls_of : Key → List (ℕ × Key) → ℕ
calls_of k [] = 0
calls_of k ((now, j) ∷ calls) = (if same_key j k then 1 else 0) + calls_of k calls

abbrev pub emitted_of : Key → List (Key × Bool × ℕ) → ℕ
emitted_of k [] = 0
emitted_of k ((j, emit, n) ∷ answers) =
    (if same_key j k && emit then 1 else 0) + emitted_of k answers

abbrev pub reported_of : Key → List (Key × Bool × ℕ) → ℕ
reported_of k [] = 0
reported_of k ((j, emit, n) ∷ answers) =
    (if same_key j k && emit then n else 0) + reported_of k answers

-- One call is emitted or becomes pending; an emitted one reports all that was pending.
admit-pending :
    (t : Throttler) (now : ℕ) (j k : Key)
    → pending t k + (if same_key j k then 1 else 0)
      ≡ emitted_of k ((j, (admit t now j).0.0, (admit t now j).0.1) ∷ [])
        + reported_of k ((j, (admit t now j).0.0, (admit t now j).0.1) ∷ [])
        + pending (admit t now j).1 k
unfolding admit roll put
admit-pending t now j k = elim (Bool-cases (same_key j k)) [
  | inl e ↦ let same = (same_key_iff j k).0 e in ground (arith, same)
  | inr e ↦ ground arith
]

-- Over any calls, at any times: the lines of a key that were pending at first and those logged since
-- are the lines emitted, those that an emitted line reports as suppressed, and those still pending.
pub run-pending :
    (t : Throttler) (calls : List (ℕ × Key)) (k : Key)
    → let (answers, end) = run t calls in
      pending t k + calls_of k calls ≡ emitted_of k answers + reported_of k answers + pending end k
unfolding run
run-pending t [] k = omega arith
run-pending t ((now, j) ∷ calls) k =
    omega (arith, admit-pending t now j k, run-pending (admit t now j).1 calls k)
