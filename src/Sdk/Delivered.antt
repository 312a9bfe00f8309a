-- ===== src/Sdk/Delivered.antt =====
-- From the captures to the batches: what a drain of the buffer sends of the events that a client
-- has captured since the last one.
pub mod InOrder
use Prim.Native.String.{String}
use groundcover_go.Base.{ℕ, ◌+◌, List, [], ◌∷◌, Option}
use groundcover_go.Ring.{HasZero}
use groundcover_go.Capture.Attributes.{Value}
use groundcover_go.Capture.Event.{Event}
use groundcover_go.Capture.Scope.{Scope}
use groundcover_go.Capture.Client.{
  ClientConfig, Opt, Finished, ready, refused, lost, Client, finish, finish_and_enqueue,
}

-- what a capture brings to `finishAndEnqueue`: the scope of the context, the options and the event
abbrev pub Input : Type 0
Input = Option Scope × List Opt × Event

-- the events that get as far as `enqueue`, as they are there
abbrev pub with_ready : Finished → List Event → List Event
with_ready (ready e) es = e ∷ es
with_ready refused es = es
with_ready lost es = es

abbrev pub sum : List ℕ → ℕ
sum [] = 0
sum (n ∷ ns) = n + sum ns

module _ (print : Value → String) (cfg : ClientConfig) where
  unfoldable pub queued : List Input → List Event
  queued [] = []
  queued ((scope, opts, e) ∷ inputs) = with_ready (finish print cfg scope opts e).0 (queued inputs)

  -- one capture after another
  unfoldable pub feed : ⦃z : HasZero Event⦄ → Client → List Input → Client
  feed c [] = c
  feed c ((scope, opts, e) ∷ inputs) = feed (finish_and_enqueue print cfg c scope opts e) inputs
