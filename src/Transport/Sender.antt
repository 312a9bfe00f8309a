-- ===== src/Transport/Sender.antt =====
-- internal/transport/sender.go: how a response is read.
pub mod Laws
use groundcover_go.Base.{
  ℕ, zero, suc, ◌+◌, ◌*◌, ◌-◌, ◌^◌, ◌%◌, Bool, true, false, ◌&&◌, List, [], ◌∷◌, Option, none, some,
  ltb, leb, ◌==◌, if◌then◌else◌,
}
use groundcover_go.Base.Words.{mul64, lt_int}

-- the `Err` field: the causes that `classify` and `Send` attach
pub data Cause : Type 0 where
  gzip_failed build_request_failed network_failed : Cause
  rate_limit_hit server_failed client_failed : Cause

pub record SendError : Type 0 where
  pub status_code : ℕ
  pub retryable : Bool
  pub rate_limited : Bool
  pub retry_after : ℕ  -- time.Duration
  pub err : Cause

pub record Response : Type 0 where
  pub status : ℕ
  -- the bytes of the Retry-After header, none if it is missing
  pub retry_after_header : List ℕ

-- The digits of `strconv.Atoi`, most significant first, or none at any other byte.
unfoldable pub digits_from : ℕ → List ℕ → Option ℕ
digits_from acc [] = some acc
digits_from acc (c ∷ cs) =
    let rest = digits_from (acc * 10 + (c - b'0')) cs in
    if leb b'0' c && leb c b'9' then rest else none

-- `strconv.Atoi` of a text with no sign: digits whose value fits an `int`.
in_range : Option ℕ → Option ℕ
in_range none = none
in_range (some n) = if ltb n (2 ^ 63) then some n else none

magnitude : List ℕ → Option ℕ
unfolding in_range
magnitude [] = none
magnitude (c ∷ cs) = in_range (digits_from 0 (c ∷ cs))

-- The value of `strconv.Atoi` where it is not negative: a sign may stand first, and -0 is 0.
unfoldable pub atoi_non_negative : List ℕ → Option ℕ
unfolding magnitude
atoi_non_negative [] = none
atoi_non_negative (c ∷ cs) =
    if c == b'+'
    then magnitude cs
    else (if c == b'-'
        then elim (magnitude cs) [ some zero ↦ some zero | _ ↦ none ]
        else magnitude (c ∷ cs))

unfoldable pub failure : ℕ → Bool → Bool → ℕ → Cause → Option SendError
failure code again limited wait why = some (record {
  status_code = code;
  retryable = again;
  rate_limited = limited;
  retry_after = wait;
  err = why;
})

-- `http.ParseTime` followed by `time.Until` is the parameter: the time left until the date that
-- the header gives, a Duration, if it is a date.
module _ (time_until : List ℕ → Option ℕ) where
  unfoldable pub parse_retry_after : List ℕ → ℕ
  parse_retry_after [] = 0
  parse_retry_after (c ∷ cs) = elim (atoi_non_negative (c ∷ cs)) [
    | some secs ↦ mul64 secs 1000000000
    | none ↦ elim (time_until (c ∷ cs)) [ none ↦ 0 | some d ↦ if lt_int 0 d then d else 0 ]
  ]

  unfoldable pub classify : Response → Option SendError
  unfolding failure
  classify resp =
      let code = resp.status in
      let wait = parse_retry_after resp.retry_after_header in
      if leb 200 code && ltb code 300
      then none
      else (if code == 429
          then failure code true true wait rate_limit_hit
          else (if leb 500 code
              then failure code true false 0 server_failed
              else failure code false false 0 client_failed))
