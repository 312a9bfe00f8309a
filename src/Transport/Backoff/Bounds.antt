-- ===== src/Transport/Backoff/Bounds.antt =====
-- How long `expBackoff` waits.
use Prim.Native.Nat.{min}
use native.Mathlib.Nat.{pow-suc, mod-lt}
use groundcover_go.Base.{
  ℕ, zero, suc, ◌+◌, ◌*◌, ◌%◌, ◌^◌, ◌≤◌, ◌<◌, ◌≡◌, refl, inl, inr, true, false, not, arith,
  Bool-cases,
}
use groundcover_go.Base.Words.{add64, mul64, lt_int}
use groundcover_go.Base.Int.{to_nat}
use groundcover_go.Transport.Config.{WorkerConfig}
use groundcover_go.Transport.Backoff.{next, intn, double, exp_backoff}

twice_pow : (d k : ℕ) → d * 2 * 2 ^ k ≡ d * 2 ^ suc k
twice_pow d k = rw pow-suc (omega arith)

le-mul-pow : (d k : ℕ) → d ≤ d * 2 ^ k
le-mul-pow d zero = omega arith
le-mul-pow d (suc k) = rw pow-suc (omega (arith, le-mul-pow d k))

-- the test of the loop, read as numbers
cap_reached : (d m : ℕ) → d < 2 ^ 63 → m < 2 ^ 63 → not (lt_int d m) ≡ true → m ≤ d
cap_reached d m h k e = ground arith

below_cap : (d m : ℕ) → d < 2 ^ 63 → m < 2 ^ 63 → not (lt_int d m) ≡ false → d < m
below_cap d m h k e = ground arith

-- After at least one doubling the wait is the base times a power of two, cut at the cap. Both the
-- base and the cap lie below 2 ^ 62 nanoseconds, more than a century.
double_lem : (m k d : ℕ) → d < 2 ^ 62 → m ≤ 2 ^ 62 → double m (suc k) d ≡ min (d * 2 ^ suc k) m
unfolding double
double_lem m zero d h hm =
    let e : mul64 d 2 ≡ d * 2 = omega arith in
    rw e (elim (Bool-cases (not (lt_int (d * 2) m))) [
      | inl cut ↦ rw cut (omega (arith, cap_reached (d * 2) m (omega arith) (omega arith) cut))
      | inr on ↦ rw on (omega (arith, below_cap (d * 2) m (omega arith) (omega arith) on))
    ])
double_lem m (suc k) d h hm =
    let e : mul64 d 2 ≡ d * 2 = omega arith in
    let grows = le-mul-pow (d * 2) (suc k) in
    let same = twice_pow d (suc k) in
    rw e (elim (Bool-cases (not (lt_int (d * 2) m))) [
      | inl cut ↦
          rw cut (omega (arith, cap_reached (d * 2) m (omega arith) (omega arith) cut, grows, same))
      | inr on ↦
          let small = below_cap (d * 2) m (omega arith) (omega arith) on in
          rw on (omega (arith, double_lem m k (d * 2) (omega arith) hm, same))
    ])

-- `intn n` for a positive 63-bit `n` lies below `n`.
intn-lt : (rng n : ℕ) → 0 < n → n < 2 ^ 63 → (intn rng n).0 < n
unfolding intn
intn-lt rng n h k = rw (positive n h k) (mod-lt (next rng).0 h)
  where
    positive : (n : ℕ) → 0 < n → n < 2 ^ 63 → not (lt_int 0 n) ≡ false
    positive n h k = ground arith

-- the longest wait after the attempt `attempt`
abbrev pub ceiling : WorkerConfig → ℕ → ℕ
ceiling cfg zero = to_nat cfg.base_backoff
ceiling cfg (suc k) = min (to_nat cfg.base_backoff * 2 ^ suc k) (to_nat cfg.retry_max)

abbrev pub IsModest : WorkerConfig → Type 0
IsModest cfg = (to_nat cfg.base_backoff < 2 ^ 62) × (to_nat cfg.retry_max ≤ 2 ^ 62)

ceiling_lem :
    (cfg : WorkerConfig) (attempt : ℕ)
    → IsModest cfg
    → double (to_nat cfg.retry_max) attempt (to_nat cfg.base_backoff) ≡ ceiling cfg attempt
unfolding double
ceiling_lem cfg zero h = refl
ceiling_lem cfg (suc k) h =
    unfold double in double_lem (to_nat cfg.retry_max) k (to_nat cfg.base_backoff) h.0 h.1

ceiling-le : (cfg : WorkerConfig) (attempt : ℕ) → IsModest cfg → ceiling cfg attempt ≤ 2 ^ 62
ceiling-le cfg zero h = omega arith
ceiling-le cfg (suc k) h = omega arith

-- For every state of the random source, the wait after a failed attempt is at most the base
-- backoff doubled once for each attempt before it and, from the second attempt on, cut at
-- RetryMax; neither doubling nor adding one overflows while both settings lie below 2 ^ 62.
pub exp_backoff-le :
    (cfg : WorkerConfig) (rng attempt : ℕ)
    → IsModest cfg
    → (exp_backoff cfg rng attempt).0 ≤ ceiling cfg attempt
unfolding exp_backoff
exp_backoff-le cfg rng attempt h =
    let top = ceiling-le cfg attempt h in
    let e : add64 (ceiling cfg attempt) 1 ≡ ceiling cfg attempt + 1 = omega (arith, top) in
    rw (ceiling_lem cfg attempt h, e)
      (omega (arith, intn-lt rng (ceiling cfg attempt + 1) (omega arith) (omega (arith, top))))

first_wait :
    (cfg : WorkerConfig) (rng : ℕ)
    → IsModest cfg
    → (exp_backoff cfg rng 0).0 ≡ (next rng).0 % (to_nat cfg.base_backoff + 1)
unfolding exp_backoff
first_wait cfg rng h = plain (to_nat cfg.base_backoff) (omega arith)
  where
    plain : (b : ℕ) → b < 2 ^ 62 → (intn rng (add64 b 1)).0 ≡ (next rng).0 % (b + 1)
    plain b k =
        let e : add64 b 1 ≡ b + 1 = omega arith in
        let p : not (lt_int 0 (b + 1)) ≡ false = ground arith in rw (e, p)

-- RetryMax does not cap the wait after the first attempt: where BaseBackoff is above RetryMax,
-- that wait passes RetryMax for every state of the random source whose remainder does.
pub first_wait_uncapped :
    (cfg : WorkerConfig) (rng : ℕ)
    → IsModest cfg
    → to_nat cfg.retry_max < (next rng).0 % (to_nat cfg.base_backoff + 1)
    → ¬ ((exp_backoff cfg rng 0).0 ≤ to_nat cfg.retry_max)
first_wait_uncapped cfg rng h over le = omega (arith, first_wait cfg rng h)
