-- ===== src/Sdk/DeliveryExamples.antt =====
-- A client with room for two events of 300 bytes, and three captures.
use Prim.Native.String.{String}
use groundcover_go.Base.{some, ltb, refl, none, List, [], ◌∷◌, arith}
use groundcover_go.Base.Int.{pos}
use groundcover_go.Capture.Attributes.{Value}
use groundcover_go.Capture.Client.{
  ClientConfig, Client, Facts, new_message_event, finish, run_before_send, apply_options,
  hash_identity,
}
use groundcover_go.Capture.Scope.{apply_to}
use groundcover_go.Capture.Event.{Event}
use groundcover_go.Metrics.{new}
use groundcover_go.Ring.{HasZero, clamp_size}
use groundcover_go.Ring.Feed.{AllSmall}
use groundcover_go.Ring.Inv.{IsValid}
use groundcover_go.Sdk.Delivered.{Input, queued, feed}
use groundcover_go.Sdk.Delivered.InOrder.{Delivered, feed-Delivered}
use groundcover_go.Transport.Config.{WorkerConfig}

abbrev facts : Facts
facts = record {
  id = "1";
  timestamp = 7;
  error_type = "";
  error_message = "";
  stacktrace = [];
  service = record { name = "shop"; version = "" };
}

instance abbrev zero_Event : HasZero Event
zero_Event = record { zero_value = new_message_event facts "" }

abbrev print : Value → String
print v = "{}"

abbrev plain : ClientConfig
plain = record {
  before_send = none;
  hasher = none;
  batch_size = 250;
  on_drop = some (λ n. ltb 1 n);
  debug_out = none;
}

abbrev idle : Client
idle = record {
  ring = record {
    buf = [];
    sz = [];
    head = 0;
    count = 0;
    bytes = 0;
    max_items = 2;
    max_bytes = 600;
    size_of = λ e. pos 300;
  };
  metrics = new;
  on_drop = [];
  notified = 0;
}

idle-IsValid : IsValid idle.ring
idle-IsValid = omega arith

abbrev said : String → Input
said msg = (none, [], new_message_event facts msg)

abbrev three : List Input
three = said "one" ∷ said "two" ∷ said "three" ∷ []

three-AllSmall : AllSmall idle.ring.size_of (queued print plain three)
unfolding AllSmall queued finish run_before_send apply_options apply_to hash_identity clamp_size
three-AllSmall = (omega arith, (omega arith, (omega arith, tt)))

abbrev worker : WorkerConfig
worker = record {
  batch_size = pos 1;
  max_batch_bytes = pos 0;
  flush_interval = pos 1;
  max_retries = pos 0;
  base_backoff = pos 1;
  retry_max = pos 1;
  rate_limit_backoff = pos 1;
  max_concurrent = pos 1;
}

feed-Delivered_example :
    Delivered print plain worker idle (queued print plain three) (feed print plain idle three)
unfolding new
feed-Delivered_example =
    feed-Delivered print plain worker idle three idle-IsValid refl (omega arith) (omega arith)
      three-AllSmall (omega arith) refl (omega arith)
