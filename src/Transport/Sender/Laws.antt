-- ===== src/Transport/Sender/Laws.antt =====
-- What `classify` and `parseRetryAfter` make of a response.
use native.Mathlib.Nat.{pow-suc}
use groundcover_go.Base.{
  ℕ, suc, ◌+◌, ◌-◌, ◌*◌, ◌^◌, ◌≤◌, ◌<◌, ◌≡◌, ap, ◌∙◌, ◌⊎◌, ◌↔◌, ◌≢◌, true, false, ◌&&◌, List, [],
  ◌∷◌, Option, none, some, arith, length, lt→ltb, ◌%◌, leb, ◌==◌,
}
use groundcover_go.Base.Words.{lt_int}
use groundcover_go.Transport.Sender.{
  SendError, Response, digits_from, in_range, magnitude, atoi_non_negative, parse_retry_after,
  classify,
}

module _ (time_until : List ℕ → Option ℕ) where
  abbrev IsSuccess : Response → Type 0
  IsSuccess resp = (200 ≤ resp.status) × (resp.status < 300)

  -- The error that `classify` returns for a response, if it returns one.
  pub record Classified (resp : Response) (se : SendError) : Type 0 where
    pub unsuccessful : ¬ ((200 ≤ resp.status) × (resp.status < 300))
    pub status : se.status_code ≡ resp.status
    pub limited : (se.rate_limited ≡ true) ↔ (resp.status ≡ 429)
    pub transient : (se.retryable ≡ true) ↔ ((resp.status ≡ 429) ⊎ (500 ≤ resp.status))
    pub no_wait : resp.status ≢ 429 → se.retry_after ≡ 0
    pub wait :
        resp.status ≡ 429 → se.retry_after ≡ parse_retry_after time_until resp.retry_after_header

  -- A response is a success exactly if its status is 2xx. Any other gives an error with that
  -- status, which is rate limited exactly at 429, is worth retrying exactly at 429 and from 500
  -- on, and carries the parsed Retry-After header exactly at 429.
  pub classify_lem :
      (resp : Response)
      → ((classify time_until resp ≡ none) ↔ ((200 ≤ resp.status) × (resp.status < 300)))
        × ((se : SendError) → classify time_until resp ≡ some se → Classified resp se)
  unfolding classify
  classify_lem resp = (
    (λ e. ground arith, λ p. ground arith),
    λ se e. record {
      unsuccessful = λ p. ground arith;
      status = ground arith;
      limited = (λ q. ground arith, λ q. ground arith);
      transient = (λ q. ground arith, λ q. ground arith);
      no_wait = λ q. ground arith;
      wait = λ q. ground arith;
    },
  )

-- a decimal numeral read by positions
abbrev pub value : List ℕ → ℕ
value [] = 0
value (c ∷ cs) = (c - b'0') * 10 ^ length cs + value cs

abbrev pub AllDigits : List ℕ → Type 0
AllDigits [] = Unit {0}
AllDigits (c ∷ cs) = (b'0' ≤ c) × (c ≤ b'9') × AllDigits cs

is_digit : (c : ℕ) → b'0' ≤ c → c ≤ b'9' → (leb b'0' c && leb c b'9') ≡ true
is_digit c h k = ground arith

digits_from-value :
    (acc : ℕ) (cs : List ℕ)
    → AllDigits cs
    → digits_from acc cs ≡ some (acc * 10 ^ length cs + value cs)
unfolding digits_from
digits_from-value acc [] h = ap some (omega arith)
digits_from-value acc (c ∷ cs) h = rw (is_digit c h.0 h.1) (
    digits_from-value (acc * 10 + (c - b'0')) cs h.2 ∙ ap some (regroup acc (c - b'0') (length cs)))
  where
    regroup :
        (a d n : ℕ) → (a * 10 + d) * 10 ^ n + value cs ≡ a * 10 ^ suc n + (d * 10 ^ n + value cs)
    regroup a d n = rw pow-suc (omega arith)

no_sign : (c : ℕ) → b'0' ≤ c → ((c == b'+') ≡ false) × ((c == b'-') ≡ false)
no_sign c h = (ground arith, ground arith)

magnitude-value :
    (c : ℕ) (cs : List ℕ)
    → AllDigits (c ∷ cs)
    → value (c ∷ cs) < 2 ^ 63
    → magnitude (c ∷ cs) ≡ some (value (c ∷ cs))
unfolding magnitude
magnitude-value c cs h small =
    let digits : digits_from 0 (c ∷ cs) ≡ some (value (c ∷ cs)) =
      digits_from-value 0 (c ∷ cs) h ∙ ap some (omega arith) in
    ap in_range digits ∙ rw (lt→ltb (value (c ∷ cs)) (2 ^ 63) small)

atoi-value :
    (c : ℕ) (cs : List ℕ)
    → AllDigits (c ∷ cs)
    → value (c ∷ cs) < 2 ^ 63
    → atoi_non_negative (c ∷ cs) ≡ some (value (c ∷ cs))
unfolding atoi_non_negative
atoi-value c cs h small =
    let (no_plus, no_minus) = no_sign c h.0 in rw (no_plus, no_minus) (magnitude-value c cs h small)

module _ (time_until : List ℕ → Option ℕ) where
  -- A Retry-After header of digits alone, whose value fits an `int`, is read as that many seconds
  -- in nanoseconds modulo 2 ^ 64; so it is read exactly if these fit a Duration.
  pub parse_retry_after_seconds :
      (c : ℕ) (cs : List ℕ)
      → AllDigits (c ∷ cs)
      → value (c ∷ cs) < 2 ^ 63
      → (parse_retry_after time_until (c ∷ cs) ≡ value (c ∷ cs) * 1000000000 % 2 ^ 64)
        × (value (c ∷ cs) * 1000000000 < 2 ^ 63
            → parse_retry_after time_until (c ∷ cs) ≡ value (c ∷ cs) * 1000000000)
  unfolding parse_retry_after
  parse_retry_after_seconds c cs h small =
      let e = atoi-value c cs h small in
      (rw (e, parse_retry_after), λ fits. rw (e, parse_retry_after) (omega arith))

  -- The product overflows: a header that asks for 2 ^ 63 to 2 ^ 64 nanoseconds is read as a
  -- negative wait.
  pub parse_retry_after_overflow :
      (c : ℕ) (cs : List ℕ)
      → AllDigits (c ∷ cs)
      → 2 ^ 63 ≤ value (c ∷ cs) * 1000000000
      → value (c ∷ cs) * 1000000000 < 2 ^ 64
      → lt_int (parse_retry_after time_until (c ∷ cs)) 0 ≡ true
  parse_retry_after_overflow c cs h low high =
      let e = (parse_retry_after_seconds c cs h (omega arith)).0 in rw e (lt→ltb _ _ (omega arith))
