-- ===== src/Transport/Http/Examples.antt =====
-- One attempt at a concrete input.
use Prim.Native.String.{String}
use groundcover_go.Base.{ℕ, true, Bool, List, [], Option, none, some}
use groundcover_go.Base.Int.{pos}
use groundcover_go.Transport.Config.{WorkerConfig}
use groundcover_go.Transport.Sender.{Response}
use groundcover_go.Transport.Http.{HttpConfig, HttpRequest, send}
use groundcover_go.Transport.Http.Verdict.{Verdict, send_lem}

abbrev policy : WorkerConfig
policy = record {
  batch_size = pos 2;
  max_batch_bytes = pos 1000;
  flush_interval = pos 5000000000;
  max_retries = pos 2;
  base_backoff = pos 200000000;
  retry_max = pos 30000000000;
  rate_limit_backoff = pos 1000;
  max_concurrent = pos 4;
}

abbrev target : HttpConfig
target = record {
  endpoint = "https://ingest.example/json/rum";
  ingestion_key = "key";
  user_agent = "groundcover-go/dev";
}

abbrev no_dates : List ℕ → Option ℕ
no_dates _ = none

-- a compression that keeps the body, and a server that is overloaded
abbrev squeeze : String → Option String
squeeze body = some body

abbrev any_url : String → Bool
any_url _ = true

abbrev overloaded : HttpRequest String → Option Response
overloaded _ = some (record { status = 503; retry_after_header = [] })

send_lem_example :
    Verdict no_dates squeeze any_url overloaded policy "{}"
      (send no_dates squeeze any_url overloaded target "{}")
send_lem_example = send_lem no_dates squeeze any_url overloaded policy target "{}"
