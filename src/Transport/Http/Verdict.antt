-- ===== src/Transport/Http/Verdict.antt =====
-- What the worker may conclude from the error that `HTTPSender.Send` returns.
use Prim.Native.String.{String}
use groundcover_go.Base.{
  ℕ, ◌≤◌, ◌<◌, ◌≡◌, refl, ◌⊎◌, inl, inr, true, false, Bool, Bool-cases, List, Option, none, some,
  arith,
}
use groundcover_go.Transport.Config.{WorkerConfig}
use groundcover_go.Transport.Sender.{
  Cause, gzip_failed, build_request_failed, SendError, Response, failure,
}
use groundcover_go.Transport.Sender.Laws.{classify_lem}
use groundcover_go.Transport.Backoff.{give_up, classify_retry}
use groundcover_go.Transport.Http.{HttpConfig, HttpRequest, read_answer, post, send}

read_answer-accepted :
    (time_until : List ℕ → Option ℕ) (ans : Option Response)
    → read_answer time_until ans ≡ none
    → (resp : Response) × (ans ≡ some resp) × (200 ≤ resp.status) × (resp.status < 300)
unfolding read_answer failure
read_answer-accepted time_until none e = ground arith
read_answer-accepted time_until (some resp) e =
    let (lo, hi) = (classify_lem time_until resp).0.0 e in (resp, refl, lo, hi)

read_answer-transient :
    (time_until : List ℕ → Option ℕ) (ans : Option Response) (se : SendError)
    → read_answer time_until ans ≡ some se
    → se.retryable ≡ true
    → (ans ≡ none)
      ⊎ ((resp : Response) × (ans ≡ some resp) × ((resp.status ≡ 429) ⊎ (500 ≤ resp.status)))
unfolding read_answer
read_answer-transient time_until none se e t = inl refl
read_answer-transient time_until (some resp) se e t =
    inr (resp, refl, ((classify_lem time_until resp).1 se e).transient.0 t)

module _ {Body Zipped : Type 0} (time_until : List ℕ → Option ℕ) (gzip_bytes : Body → Option Zipped)
    (is_url : String → Bool) (client_do : HttpRequest Zipped → Option Response) where
  -- the outcome of one attempt, as the worker's retry policy uses it
  pub record Verdict (cfg : WorkerConfig) (body : Body)
      (r : Option SendError × Option (HttpRequest Zipped)) : Type 0 where
    pub success :
        r.0 ≡ none
        → (req : HttpRequest Zipped) × (resp : Response) × (r.1 ≡ some req)
          × (gzip_bytes body ≡ some req.body)
          × (client_do req ≡ some resp)
          × (200 ≤ resp.status)
          × (resp.status < 300)
    pub unsent :
        r.1 ≡ none
        → (se : SendError) × (r.0 ≡ some se)
          × (se.status_code ≡ 0)
          × ((rng attempt : ℕ) → classify_retry cfg rng (some se) attempt ≡ (false, give_up, rng))
    pub transient :
        (se : SendError)
        → r.0 ≡ some se
        → se.retryable ≡ true
        → (req : HttpRequest Zipped) × (r.1 ≡ some req)
          × ((client_do req ≡ none)
              ⊎ ((resp : Response) × (client_do req ≡ some resp)
                  × ((resp.status ≡ 429) ⊎ (500 ≤ resp.status))))

  unsent-Verdict :
      (cfg : WorkerConfig) (body : Body) (why : Cause)
      → Verdict cfg body (failure 0 false false 0 why, none)
  unfolding failure classify_retry
  unsent-Verdict cfg body why = record {
    success = λ e. ground arith;
    unsent = λ e. (_, refl, refl, λ rng attempt. refl);
    transient = λ se e t. ground arith;
  }

  sent-Verdict :
      (cfg : WorkerConfig) (body : Body) (req : HttpRequest Zipped)
      → gzip_bytes body ≡ some req.body
      → Verdict cfg body (read_answer time_until (client_do req), some req)
  sent-Verdict cfg body req z = record {
    success = λ e.
        let (resp, a, lo, hi) = read_answer-accepted time_until (client_do req) e in
        (req, resp, refl, z, a, lo, hi);
    unsent = λ e. ground arith;
    transient = λ se e t. (req, refl, read_answer-transient time_until (client_do req) se e t);
  }

  post-Verdict :
      (cfg : WorkerConfig) (http : HttpConfig) (body : Body) (z : Option Zipped)
      → gzip_bytes body ≡ z
      → Verdict cfg body (post time_until gzip_bytes is_url client_do http z)
  unfolding post
  post-Verdict cfg http body none e = unsent-Verdict cfg body gzip_failed
  post-Verdict cfg http body (some zipped) e = elim (Bool-cases (is_url http.endpoint)) [
    | inl u ↦ rw u (sent-Verdict cfg body _ e)
    | inr u ↦ rw u (unsent-Verdict cfg body build_request_failed)
  ]

  -- Where `Send` succeeds, the compressed body went out and was answered with a 2xx status. Where
  -- no request went out, the error has no status and the worker's policy gives up on it at once. An
  -- error that is worth retrying means that a request went out, and that the network failed or the
  -- answer was 429 or from 500 on.
  pub send_lem :
      (cfg : WorkerConfig) (http : HttpConfig) (body : Body)
      → Verdict cfg body (send time_until gzip_bytes is_url client_do http body)
  unfolding send
  send_lem cfg http body = post-Verdict cfg http body (gzip_bytes body) refl
