-- ===== src/Sdk/Setup.antt =====
-- client.go: what `newClient` makes of a configuration.
use text.Mathlib.Text.{◌==◌ as str_eq}
use groundcover_go.Base.{
  ℕ, zero, suc, ◌*◌, ◌^◌, ◌<◌, ◌≡◌, refl, sym, subst, ap, ◌∙◌, ◌↔◌, ◌==◌, true, false, Option, none,
  some, arith, inl, inr, Bool-cases,
}
use groundcover_go.Base.Int.{ℤ, pos, negsuc, is_positive, to_nat}
use groundcover_go.Ring.{HasZero, new}
use groundcover_go.Ring.Inv.{IsValid, new-IsValid}
use groundcover_go.Transport.Config.{
  WorkerConfig, second, millisecond, or_default, at_least_zero, with_defaults,
}
use groundcover_go.Capture.Event.{Event}
use groundcover_go.Capture.Fingerprint.Message.{trim_space}
use groundcover_go.Capture.Settings.{
  Config, positive_or, retries_or, with_client_defaults, validate,
}
use groundcover_go.Capture.Settings.Defaults.{IsRunnable, with_client_defaults-IsRunnable}
use groundcover_go.Capture.Resource.{Host}
use groundcover_go.Capture.Wire.Size.{estimate_size}
use groundcover_go.Sdk.{
  Settings, Working, Sdk, disabled, working, worker_config, assemble, new_client,
}

or_default-positive : (z : ℤ) (d : ℕ) → is_positive z ≡ true → or_default z d ≡ z
unfolding or_default
or_default-positive z d h = rw h refl

at_least_zero-pos : (z : ℤ) (n : ℕ) → z ≡ pos n → at_least_zero z ≡ z
unfolding at_least_zero
at_least_zero-pos z n h = rw h refl

-- The worker's own defaults leave every setting that the client has resolved.
pub worker_config-kept :
    (c : Config)
    → IsRunnable c
    → with_defaults (worker_config c)
      ≡ record (worker_config c) { base_backoff = pos (200 * millisecond); max_concurrent = pos 4 }
unfolding with_defaults worker_config
worker_config-kept c h =
    rw
      (
        or_default-positive c.batch_size 250 h.batch_size,
        or_default-positive c.max_batch_bytes (512 * 2 ^ 10) h.max_batch_bytes,
        or_default-positive c.flush_interval (5 * second) h.flush_interval,
        at_least_zero-pos c.max_retries h.max_retries.0 h.max_retries.1,
        or_default-positive c.retry_max (30 * second) h.retry_max,
        or_default-positive c.rate_limit_backoff (30 * second) h.rate_limit_backoff,
      )
      refl

pos-to_nat : (z : ℤ) → is_positive z ≡ true → pos (to_nat z) ≡ z
pos-to_nat (pos n) h = refl
pos-to_nat (negsuc n) h = ground arith

-- a positive setting as it is given, and else a default
abbrev pub given_or : ℤ → ℕ → ℤ
given_or (pos (suc n)) d = pos (suc n)
given_or (pos zero) d = pos d
given_or (negsuc n) d = pos d

abbrev pub retries : ℤ → ℤ
retries (pos (suc n)) = pos (suc n)
retries (pos zero) = pos 3
retries (negsuc n) = pos 0

-- the settings that the worker runs with, from those of the caller
abbrev pub expected : Config → WorkerConfig
expected c = record {
  batch_size = given_or c.batch_size 250;
  max_batch_bytes = given_or c.max_batch_bytes (512 * 2 ^ 10);
  flush_interval = given_or c.flush_interval (5 * second);
  max_retries = retries c.max_retries;
  base_backoff = pos (200 * millisecond);
  retry_max = given_or c.retry_max (30 * second);
  rate_limit_backoff = given_or c.rate_limit_backoff (30 * second);
  max_concurrent = pos 4;
}

positive_or-given_or : (x : ℤ) (d : ℕ) → positive_or x d ≡ given_or x d
positive_or-given_or (pos (suc n)) d = refl
positive_or-given_or (pos zero) d = refl
positive_or-given_or (negsuc n) d = refl

retries_or-retries : (x : ℤ) → retries_or x ≡ retries x
retries_or-retries (pos (suc n)) =
    let some_left : (suc n == 0) ≡ false = ground arith in rw some_left refl
retries_or-retries (pos zero) = refl
retries_or-retries (negsuc n) = refl

worker_config-expected :
    (c : Config)
    → record (worker_config (with_client_defaults c)) {
      base_backoff = pos (200 * millisecond);
      max_concurrent = pos 4;
    }
      ≡ expected c
unfolding worker_config with_client_defaults
worker_config-expected c =
    rw
      (
        positive_or-given_or c.batch_size 250,
        positive_or-given_or c.max_batch_bytes (512 * 2 ^ 10),
        positive_or-given_or c.flush_interval (5 * second),
        retries_or-retries c.max_retries,
        positive_or-given_or c.retry_max (30 * second),
        positive_or-given_or c.rate_limit_backoff (30 * second),
      )
      refl

module _ ⦃z : HasZero Event⦄ where
  -- a working client that has just been made
  pub record Fresh (s : Settings) (w : Working) : Type 0 where
    pub ring : IsValid w.client.ring
    pub empty : w.client.ring.count ≡ 0
    pub max_items : pos w.client.ring.max_items ≡ given_or s.config.max_queue 10000
    pub max_bytes : pos w.client.ring.max_bytes ≡ given_or s.config.max_bytes (32 * 2 ^ 20)
    pub worker : w.worker ≡ expected s.config
    pub wakes : pos w.config.batch_size ≡ w.worker.batch_size

  pub record Constructed (s : Settings) (o : Option Sdk) : Type 0 where
    pub refused :
        (o ≡ none) ↔ ((s.config.disabled ≡ false) × (str_eq (trim_space s.config.dsn) "" ≡ true))
    pub switched_off : (o ≡ some disabled) ↔ (s.config.disabled ≡ true)
    pub fresh : (w : Working) → o ≡ some (working w) → Fresh s w

  assemble-Fresh :
      (host : Host) (s : Settings)
      → to_nat (with_client_defaults s.config).max_bytes < 2 ^ 63
      → Fresh s (assemble host s (with_client_defaults s.config))
  unfolding assemble new with_client_defaults worker_config with_defaults
  assemble-Fresh host s small =
      let c : Config = with_client_defaults s.config in
      let h : IsRunnable c = with_client_defaults-IsRunnable s.config in
      record {
        ring = new-IsValid c.max_queue c.max_bytes (some (λ e. pos (estimate_size e))) small;
        empty = refl;
        max_items =
            rw h.max_queue (pos-to_nat c.max_queue h.max_queue)
            ∙ positive_or-given_or s.config.max_queue 10000;
        max_bytes =
            rw h.max_bytes (pos-to_nat c.max_bytes h.max_bytes)
            ∙ positive_or-given_or s.config.max_bytes (32 * 2 ^ 20);
        worker = worker_config-kept c h ∙ worker_config-expected s.config;
        wakes =
            pos-to_nat c.batch_size h.batch_size
            ∙ sym (ap (λ w. w.batch_size) (worker_config-kept c h));
      }

  max_bytes_small :
      (c : Config)
      → to_nat c.max_bytes < 2 ^ 63
      → to_nat (with_client_defaults c).max_bytes < 2 ^ 63
  unfolding with_client_defaults
  max_bytes_small c h = elim (Bool-cases (is_positive c.max_bytes)) [
    | inl e ↦ rw e h
    | inr e ↦ rw e (omega arith)
  ]

  -- the three ways to construct a client
  data Outcome (host : Host) (s : Settings) : Option Sdk → Type 0 where
    off : s.config.disabled ≡ true → Outcome host s (some disabled)
    no_dsn :
        s.config.disabled ≡ false → str_eq (trim_space s.config.dsn) "" ≡ true → Outcome host s none
    on :
        s.config.disabled ≡ false
        → str_eq (trim_space s.config.dsn) "" ≡ false
        → Outcome host s (some (working (assemble host s (with_client_defaults s.config))))

  new_client_off :
      (host : Host) (s : Settings) → s.config.disabled ≡ true → new_client host s ≡ some disabled
  unfolding new_client validate with_client_defaults
  new_client_off host s e = rw e refl

  new_client_no_dsn :
      (host : Host) (s : Settings)
      → s.config.disabled ≡ false
      → str_eq (trim_space s.config.dsn) "" ≡ true
      → new_client host s ≡ none
  unfolding new_client validate
  new_client_no_dsn host s e f = rw (e, f) refl

  new_client_on :
      (host : Host) (s : Settings)
      → s.config.disabled ≡ false
      → str_eq (trim_space s.config.dsn) "" ≡ false
      → new_client host s ≡ some (working (assemble host s (with_client_defaults s.config)))
  unfolding new_client validate with_client_defaults
  new_client_on host s e f = rw (e, f) refl

  outcome : (host : Host) (s : Settings) → Outcome host s (new_client host s)
  outcome host s = elim (Bool-cases s.config.disabled) [
    | inl e ↦ subst (λ o. Outcome host s o) (sym (new_client_off host s e)) (off e)
    | inr e ↦ elim (Bool-cases (str_eq (trim_space s.config.dsn) "")) [
      | inl f ↦ subst (λ o. Outcome host s o) (sym (new_client_no_dsn host s e f)) (no_dsn e f)
      | inr f ↦ subst (λ o. Outcome host s o) (sym (new_client_on host s e f)) (on e f)
    ]
  ]

  -- With a byte bound that fits an int: `newClient` fails exactly for a client that is not disabled
  -- and whose DSN is blank, and gives one that does nothing exactly where it is disabled. Any other
  -- client starts with a valid, empty buffer of the configured bounds; its worker runs with the
  -- caller's settings, each under its own name and replaced by its default where it is not positive,
  -- but that a negative number of retries is none; the base of the backoff is 200 ms, and four
  -- senders run at most; and the client wakes the worker at a batch.
  pub new_client_lem :
      (host : Host) (s : Settings)
      → to_nat s.config.max_bytes < 2 ^ 63
      → Constructed s (new_client host s)
  new_client_lem host s small = summed (new_client host s) (outcome host s)
    where
      summed : (o : Option Sdk) → Outcome host s o → Constructed s o
      summed _ (off e) = record {
        refused = (λ h. ground arith, λ (h, g). ground arith);
        switched_off = (λ h. e, λ h. refl);
        fresh = λ w h. ground arith;
      }
      summed _ (no_dsn e f) = record {
        refused = (λ h. (e, f), λ h. refl);
        switched_off = (λ h. ground arith, λ h. ground arith);
        fresh = λ w h. ground arith;
      }
      summed _ (on e f) = record {
        refused = (λ h. ground arith, λ (h, g). ground arith);
        switched_off = (λ h. ground arith, λ h. ground arith);
        fresh = λ w h.
            let same : assemble host s (with_client_defaults s.config) ≡ w = cc in
            subst (λ w. Fresh s w) same (assemble-Fresh host s (max_bytes_small s.config small));
      }
