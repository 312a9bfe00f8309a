-- ===== src/Pipeline/Accounts.antt =====
-- What each call of the pipeline does to the counters, the buffer and the semaphore.
use groundcover_go.Base.{ℕ, ◌+◌, ◌%◌, ◌^◌, ◌≤◌, ◌≡◌, refl, Bool, List, [], ◌∷◌, ◌++◌, arith, ltb}
use groundcover_go.Metrics.{
  Metrics, add_sent, add_dropped, inc_retries, inc_rate_limited, inc_panics_recovered,
}
use groundcover_go.Transport.Delivery.{Effect, on_sent, on_send_exhausted}
use groundcover_go.Transport.Delivery.Settlement.{sum_of, as_sent, as_dropped}
use groundcover_go.Pipeline.{observe, Flight, slots}

-- the items that the sends under way have still to report
abbrev pub owed : List Flight → ℕ
owed [] = 0
owed (f ∷ fs) = sum_of as_sent f.todo + sum_of as_dropped f.todo + owed fs

pub owed-append : (xs ys : List Flight) → owed (xs ++ ys) ≡ owed xs + owed ys
owed-append [] ys = omega arith
owed-append (x ∷ xs) ys = omega (arith, owed-append xs ys)

pub slots-append : (xs ys : List Flight) → slots (xs ++ ys) ≡ slots xs + slots ys
unfolding slots
slots-append [] ys = omega arith
slots-append (x ∷ xs) ys = ground (arith, slots-append xs ys)

-- the events that the counters have seen leave
abbrev pub left : Metrics → ℕ
left m = m.sent + m.dropped_overflow + m.dropped_send

-- An effect moves the items that it reports into the counters, and counts no capture.
pub observe_lem :
    (m : Metrics) (e : Effect)
    → ((observe m e).captured ≡ m.captured)
      × (left (observe m e) % 2 ^ 64 ≡ (left m + as_sent e + as_dropped e) % 2 ^ 64)
unfolding observe add_sent add_dropped inc_retries inc_rate_limited inc_panics_recovered
observe_lem m (on_sent n) = omega arith
observe_lem m (on_send_exhausted n) = omega arith
observe_lem m _ = omega arith

pub slots-take :
    (fs : List Flight) (es : List Effect) (m : ℕ)
    → slots fs ≤ m
    → slots (record { todo = es; holds_slot = ltb (slots fs) m } ∷ fs) ≤ m
unfolding slots
slots-take fs es m h = ground arith

pub slots-drop :
    (before after : List Flight) (held : Bool)
    → slots (before ++ after) ≤ slots (before ++ (record { todo = []; holds_slot = held } ∷ after))
slots-drop before after held =
    let f : Flight = record { todo = []; holds_slot = held } in
    omega (arith, slots-append before after, slots-append before (f ∷ after), tail f)
  where
    tail : (f : Flight) → slots after ≤ slots (f ∷ after)
    tail f = unfold slots in ground arith

pub slots-keep :
    (before after : List Flight) (e : Effect) (todo : List Effect) (held : Bool)
    → slots (before ++ (record { todo = todo; holds_slot = held } ∷ after))
      ≡ slots (before ++ (record { todo = e ∷ todo; holds_slot = held } ∷ after))
unfolding slots
slots-keep [] after e todo held = refl
slots-keep (f ∷ before) after e todo held = ground (arith, slots-keep before after e todo held)
