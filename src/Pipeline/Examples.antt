-- ===== src/Pipeline/Examples.antt =====
-- The accounts over one captured event.
use groundcover_go.Base.{ℕ, refl, true, false, List, [], ◌∷◌, arith}
use groundcover_go.Base.Int.{pos}
use groundcover_go.Metrics
use groundcover_go.Ring.{clamp_size, HasZero}
use groundcover_go.Transport.Config.{WorkerConfig}
use groundcover_go.Transport.Delivery.{Encoding, encoded, delivered, Network, attempted, on_sent}
use groundcover_go.Pipeline.{
  Pipeline, Reach, advance, finish, count_dropped, observe, slots, here, next,
}
use groundcover_go.Pipeline.Conservation.{Inv, Reach-Inv}

instance abbrev zero_ℕ : HasZero ℕ
zero_ℕ = record { zero_value = 0 }

abbrev settings : WorkerConfig
settings = record {
  batch_size = pos 2;
  max_batch_bytes = pos 1000;
  flush_interval = pos 5000000000;
  max_retries = pos 2;
  base_backoff = pos 200000000;
  retry_max = pos 50000000;
  rate_limit_backoff = pos 1000;
  max_concurrent = pos 4;
}

abbrev encode : List ℕ → Encoding ℕ
encode _ = encoded 0

abbrev network : Network ℕ
network = record { send = λ _ _. delivered; cancelled = λ _. false }

-- of two captured events one is being sent, and the other has been evicted
abbrev busy : Pipeline ℕ
busy = record {
  ring = record {
    buf = 7 ∷ [];
    sz = 1 ∷ [];
    head = 0;
    count = 0;
    bytes = 0;
    max_items = 1;
    max_bytes = 20;
    size_of = λ _. pos 1;
  };
  metrics = record {
    captured = 2;
    sent = 0;
    dropped_overflow = 0;
    dropped_send = 0;
    dropped_before_send = 0;
    retries = 0;
    rate_limited = 0;
    panics_recovered = 0;
    config_reloads = 0;
    queue_pending_items = 0;
    queue_pending_bytes = 0;
    subsystems_disabled = 0;
  };
  entering = 0;
  evicted = 1;
  flights = record { todo = attempted ∷ on_sent 1 ∷ []; holds_slot = true } ∷ [];
}

busy-Inv : Inv settings encode busy
unfolding slots clamp_size
busy-Inv = record {
  valid = omega arith;
  light = omega arith;
  limit = omega arith;
  small = λ x. omega arith;
  slotted = omega arith;
  balanced = omega arith;
}

abbrev after_attempt : Pipeline ℕ
after_attempt = record busy { flights = record { todo = on_sent 1 ∷ []; holds_slot = true } ∷ [] }

abbrev after_report : Pipeline ℕ
after_report = record busy {
  metrics = record (busy.metrics) { sent = 1 };
  flights = record { todo = []; holds_slot = true } ∷ [];
}

abbrev landed : Pipeline ℕ
landed = record after_report { flights = [] }

abbrev quiet : Pipeline ℕ
quiet = record landed { metrics = record (landed.metrics) { dropped_overflow = 1 }; evicted = 0 }

settles : Reach settings encode busy quiet
unfolding observe Metrics.add_sent Metrics.add_dropped
settles =
    next
      (next
        (next (next here (advance busy [] [] attempted (on_sent 1 ∷ []) true refl))
          (advance after_attempt [] [] (on_sent 1) [] true refl))
        (finish after_report [] [] true refl))
      (count_dropped landed 1 (omega arith))

Reach-Inv_example : Inv settings encode quiet
Reach-Inv_example = Reach-Inv settings encode (omega arith) busy-Inv settles
