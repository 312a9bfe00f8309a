-- ===== src/Capture/Settings/Defaults.antt =====
-- What the defaults and the endpoint guarantee.
use text.Mathlib.Text.{◌==◌ as str_eq, starts_with}
use text.Mathlib.TextEquality.{eq_iff, starts_with_iff}
use text.Mathlib.TextLemmas.{append_assoc}
use Prim.Native.String.{String, ◌++◌}
use groundcover_go.Base.{
  ℕ, zero, suc, sym, ◌∙◌, ◌<◌, ◌≡◌, ◌⊎◌, inl, inr, refl, ap, true, false, ◌==◌, arith, Bool-cases,
}
use groundcover_go.Base.Int.{ℤ, pos, negsuc, is_positive}
use groundcover_go.Capture.Fingerprint.Message.{trim_space}
use groundcover_go.Capture.Settings.{
  Config, positive_or, retries_or, with_client_defaults, trim_slashes, with_scheme, endpoint,
}

-- settings that the pipeline can run with
pub record IsRunnable (c : Config) : Type 0 where
  pub max_queue : is_positive c.max_queue ≡ true
  pub max_bytes : is_positive c.max_bytes ≡ true
  pub batch_size : is_positive c.batch_size ≡ true
  pub flush_interval : is_positive c.flush_interval ≡ true
  pub max_batch_bytes : is_positive c.max_batch_bytes ≡ true
  pub max_retries : (n : ℕ) × (c.max_retries ≡ pos n)
  pub retry_max : is_positive c.retry_max ≡ true
  pub rate_limit_backoff : is_positive c.rate_limit_backoff ≡ true
  pub stack_depth_max : is_positive c.stack_depth_max ≡ true

pos-positive : (n : ℕ) → 0 < n → is_positive (pos n) ≡ true
pos-positive zero h = absurd (omega (arith, h))
pos-positive (suc n) h = refl

positive_or-positive : (x : ℤ) (n : ℕ) → 0 < n → is_positive (positive_or x n) ≡ true
positive_or-positive x n h = elim (Bool-cases (is_positive x)) [
  | inl e ↦ rw (e, e) refl
  | inr e ↦ rw e (pos-positive n h)
]

retries_or-pos : (x : ℤ) → (n : ℕ) × (retries_or x ≡ pos n)
retries_or-pos (negsuc n) = (0, refl)
retries_or-pos (pos n) = elim (Bool-cases (n == 0)) [
  | inl e ↦ (3, rw e refl)
  | inr e ↦ (n, rw e refl)
]

-- With its defaults, every configuration has positive bounds, sizes and durations and a number of
-- retries that is not negative.
pub with_client_defaults-IsRunnable : (c : Config) → IsRunnable (with_client_defaults c)
unfolding with_client_defaults
with_client_defaults-IsRunnable c = record {
  max_queue = positive_or-positive c.max_queue _ (omega arith);
  max_bytes = positive_or-positive c.max_bytes _ (omega arith);
  batch_size = positive_or-positive c.batch_size _ (omega arith);
  flush_interval = positive_or-positive c.flush_interval _ (omega arith);
  max_batch_bytes = positive_or-positive c.max_batch_bytes _ (omega arith);
  max_retries = retries_or-pos c.max_retries;
  retry_max = positive_or-positive c.retry_max _ (omega arith);
  rate_limit_backoff = positive_or-positive c.rate_limit_backoff _ (omega arith);
  stack_depth_max = positive_or-positive c.stack_depth_max _ (omega arith);
}

-- a URL with one of the two schemes
abbrev pub HasScheme : String → Type 0
HasScheme s =
    ((rest : String) × ("http://" ++ rest ≡ s)) ⊎ ((rest : String) × ("https://" ++ rest ≡ s))

-- What follows the scheme does not matter.
HasScheme-append : (s t : String) → HasScheme s → HasScheme (s ++ t)
HasScheme-append s t (inl (rest, e)) =
    inl (rest ++ t, sym (append_assoc "http://" rest t) ∙ ap (λ x. x ++ t) e)
HasScheme-append s t (inr (rest, e)) =
    inr (rest ++ t, sym (append_assoc "https://" rest t) ∙ ap (λ x. x ++ t) e)

with_scheme-HasScheme : (s : String) → str_eq s "" ≡ false → HasScheme (with_scheme s)
unfolding with_scheme
with_scheme-HasScheme s h = elim (Bool-cases (starts_with s "http://")) [
  | inl e ↦ rw (h, e) (inl ((starts_with_iff s "http://").0 e))
  | inr e ↦ elim (Bool-cases (starts_with s "https://")) [
    | inl f ↦ rw (h, e, f) (inr ((starts_with_iff s "https://").0 f))
    | inr f ↦ rw (h, e, f) (inr (s, refl))
  ]
]

-- An endpoint has one of the two schemes, or the DSN is white space and slashes alone and the endpoint
-- is the bare path.
pub endpoint_lem :
    (c : Config)
    → HasScheme (endpoint c) ⊎ ((trim_slashes (trim_space c.dsn) ≡ "") × (endpoint c ≡ "/json/rum"))
unfolding endpoint with_scheme
endpoint_lem c = elim (Bool-cases (str_eq (trim_slashes (trim_space c.dsn)) "")) [
  | inl e ↦ let bare = (eq_iff (trim_slashes (trim_space c.dsn)) "").0 e in inr (bare, rw bare refl)
  | inr e ↦ inl (
      HasScheme-append (with_scheme (trim_slashes (trim_space c.dsn))) "/json/rum"
        (with_scheme-HasScheme (trim_slashes (trim_space c.dsn)) e))
]
