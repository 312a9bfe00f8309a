-- ===== src/Transport/Http.antt =====
-- `HTTPSender` of internal/transport/sender.go. What is not the repository's own is a parameter: gzip,
-- the check of a URL, and the HTTP client, which answers a request or fails. The rest of a response
-- is read and thrown away.
pub mod Verdict
mod Examples
use text.Mathlib.Text.{◌==◌ as str_eq}
use Prim.Native.String.{String, ◌++◌ as ◌<>◌}
use groundcover_go.Base.{
  ℕ, true, false, Bool, List, [], ◌∷◌, ◌++◌, Option, none, some, if◌then◌else◌,
}
use groundcover_go.Transport.Sender.{
  Cause, gzip_failed, build_request_failed, network_failed, SendError, Response, classify, failure,
}

pub record HttpConfig : Type 0 where
  pub endpoint : String
  pub ingestion_key : String
  pub user_agent : String

pub record HttpRequest (Zipped : Type 0) : Type 0 where
  pub url : String
  pub headers : List (String × String)
  pub body : Zipped

pub headers : HttpConfig → List (String × String)
headers cfg =
    ("Content-Type", "application/json")
    ∷ ("Content-Encoding", "gzip")
    ∷ ((if str_eq cfg.user_agent "" then [] else ("User-Agent", cfg.user_agent) ∷ [])
        ++ (if str_eq cfg.ingestion_key ""
            then []
            else ("Authorization", "Bearer " <> cfg.ingestion_key) ∷ []))

-- what the client makes of a request
unfoldable pub read_answer : (List ℕ → Option ℕ) → Option Response → Option SendError
unfolding failure
read_answer time_until none = failure 0 true false 0 network_failed
read_answer time_until (some resp) = classify time_until resp

module _ {Body Zipped : Type 0} (time_until : List ℕ → Option ℕ) (gzip_bytes : Body → Option Zipped)
    (is_url : String → Bool) (client_do : HttpRequest Zipped → Option Response) where
  unfoldable pub post : HttpConfig → Option Zipped → Option SendError × Option (HttpRequest Zipped)
  unfolding failure read_answer
  post cfg none = (failure 0 false false 0 gzip_failed, none)
  post cfg (some zipped) =
      let req : HttpRequest Zipped = record {
        url = cfg.endpoint;
        headers = headers cfg;
        body = zipped;
      } in
      if is_url cfg.endpoint
      then (read_answer time_until (client_do req), some req)
      else (failure 0 false false 0 build_request_failed, none)

  -- `Send`: its error, if any, and the request that went out, if any
  unfoldable pub send : HttpConfig → Body → Option SendError × Option (HttpRequest Zipped)
  unfolding post
  send cfg body = post cfg (gzip_bytes body)
