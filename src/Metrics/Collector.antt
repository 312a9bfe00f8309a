-- ===== src/Metrics/Collector.antt =====
-- prometheus/prometheus.go: the metrics that a scrape reads, of counters that stand still meanwhile.
-- `float` is the conversion to a float64.
use text.Mathlib.Text.{◌==◌ as str_eq}
use Prim.Native.String.{String}
use groundcover_go.Base.{
  ℕ, ◌≡◌, refl, Bool, true, not, ◌&&◌, List, [], ◌∷◌, Option, none, some, if◌then◌else◌,
}
use groundcover_go.Metrics.{Stats}

-- `register`: a name and the counter that its gauge reads
pub registered : List (String × (Stats → ℕ))
registered =
    ("groundcover_sdk_captured_total", λ s. s.captured)
    ∷ ("groundcover_sdk_sent_total", λ s. s.sent)
    ∷ ("groundcover_sdk_dropped_total{reason=\"overflow\"}", λ s. s.dropped_overflow)
    ∷ ("groundcover_sdk_dropped_total{reason=\"send_exhausted\"}", λ s. s.dropped_send_exhausted)
    ∷ ("groundcover_sdk_dropped_total{reason=\"before_send\"}", λ s. s.dropped_before_send)
    ∷ ("groundcover_sdk_retries_total", λ s. s.retries)
    ∷ ("groundcover_sdk_rate_limited_total", λ s. s.rate_limited)
    ∷ ("groundcover_sdk_panics_recovered_total", λ s. s.panics_recovered)
    ∷ ("groundcover_sdk_config_reloads_total", λ s. s.config_reloads)
    ∷ ("groundcover_sdk_subsystems_disabled_total", λ s. s.subsystems_disabled)
    ∷ ("groundcover_sdk_queue_pending{unit=\"items\"}", λ s. s.queue_pending_items)
    ∷ ("groundcover_sdk_queue_pending{unit=\"bytes\"}", λ s. s.queue_pending_bytes)
    ∷ []

abbrev read : {F : Type 0} → (ℕ → F) → Stats → List (String × (Stats → ℕ)) → List (String × F)
read float s [] = []
read float s ((name, f) ∷ gauges) = (name, float (f s)) ∷ read float s gauges

-- what a scrape finds
pub scraped : {F : Type 0} → (ℕ → F) → Stats → List (String × F)
scraped float s = read float s registered

abbrev value_at : {F : Type 0} → List (String × F) → String → Option F
value_at [] name = none
value_at ((n, v) ∷ ms) name = if str_eq n name then some v else value_at ms name

abbrev absent : {F : Type 0} → String → List (String × F) → Bool
absent name [] = true
absent name ((n, v) ∷ ms) = not (str_eq n name) && absent name ms

abbrev distinct : {F : Type 0} → List (String × F) → Bool
distinct [] = true
distinct ((n, v) ∷ ms) = absent n ms && distinct ms

-- No two metrics of a scrape have one name.
pub scraped-distinct : {F : Type 0} (float : ℕ → F) (s : Stats) → distinct (scraped float s) ≡ true
unfolding scraped registered
scraped-distinct float s = refl

-- The three reasons for a drop are told apart.
pub scraped_drops :
    {F : Type 0} (float : ℕ → F) (s : Stats)
    → (value_at (scraped float s) "groundcover_sdk_dropped_total{reason=\"overflow\"}"
        ≡ some (float s.dropped_overflow))
      × (value_at (scraped float s) "groundcover_sdk_dropped_total{reason=\"send_exhausted\"}"
          ≡ some (float s.dropped_send_exhausted))
      × (value_at (scraped float s) "groundcover_sdk_dropped_total{reason=\"before_send\"}"
          ≡ some (float s.dropped_before_send))
unfolding scraped registered
scraped_drops float s = (refl, refl, refl)
