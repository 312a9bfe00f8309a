-- ===== src/Ring/Refinement.antt =====
-- The buffer behind its methods is a queue of sized entries: over any sequence of calls it answers
-- as the plain queue does.
use groundcover_go.Base.{
  ℕ, ◌^◌, ◌<◌, ◌≡◌, refl, sym, ap, ap₂, ◌∙◌, List, [], ◌∷◌, ◌++◌, arith, length, length-append,
  length-take-le, drop, take,
}
use groundcover_go.Base.Int.{ℤ, to_nat}
use groundcover_go.Ring.{Buffer, HasZero, clamp_size, push, pop_batch, drain_all, len, bytes}
use groundcover_go.Ring.Core.{contents, values, total, total-append, length-contents}
use groundcover_go.Ring.Inv.{IsValid}
use groundcover_go.Ring.Push.{push_lem, with_new}
use groundcover_go.Ring.Batch.{Batch, pop_batch_lem}
use groundcover_go.Ring.Drain.{drain_all_lem}
use groundcover_go.Ring.Frame.{Same, Same-refl, Same-push, Same-pop_batch, Same-drain_all}
use groundcover_go.Ring.Weight.{push-Entered, Batch-light}
use groundcover_go.Ring.Queue.{
  Call, push_item, take_some, take_all, measure, Reply, evicted, given, measured, greedy, answer,
  replay, evict-Evicts, greedy-prefix,
}

module _ {T : Type 0} ⦃z : HasZero T⦄ where
  pub call : Buffer T → Call T → Reply T × Buffer T
  call b (push_item x) = let (b', n) = push b x in (evicted n, b')
  call b (take_some max_items max_bytes) =
      let (batch, b') = pop_batch b max_items max_bytes in (given batch, b')
  call b take_all = let (batch, b') = drain_all b in (given batch, b')
  call b measure = (measured (len b) (bytes b), b)

  pub run : Buffer T → List (Call T) → List (Reply T)
  run b [] = []
  run b (c ∷ calls) = let (r, b') = call b c in r ∷ run b' calls

  -- a valid buffer whose account, bound and sizes are all below 2 ^ 62
  pub record IsLight (b : Buffer T) : Type 0 where
    pub valid : IsValid b
    pub account : b.bytes < 2 ^ 62
    pub limit : b.max_bytes < 2 ^ 62
    pub small : (x : T) → clamp_size (b.size_of x) < 2 ^ 62

  -- a byte limit of a batch that fits an `int`
  abbrev pub IsFair : Call T → Type 0
  IsFair (take_some max_items max_bytes) = to_nat max_bytes < 2 ^ 63
  IsFair _ = Unit

  pub data AllFair : List (Call T) → Type 0 where
    no_more : AllFair []
    one_more : {c : Call T} {calls : List (Call T)} → IsFair c → AllFair calls → AllFair (c ∷ calls)

  -- The bounds and sizes stay, so the buffer stays light.
  kept-IsLight :
      (b b' : Buffer T) → IsLight b → Same b b' → IsValid b' → b'.bytes < 2 ^ 62 → IsLight b'
  kept-IsLight b b' h same v account = record {
    valid = v;
    account = account;
    limit = omega (arith, same.limit, h.limit);
    small = λ x. omega (arith, h.small x, ap (λ f. clamp_size (f x)) same.sizes);
  }

  abbrev answer_of : Buffer T → List (T × ℕ) → Call T → Reply T × List (T × ℕ)
  answer_of b = answer b.max_items b.max_bytes (λ x. clamp_size (b.size_of x))

  abbrev pub replay_of : Buffer T → List (T × ℕ) → List (Call T) → List (Reply T)
  replay_of b = replay b.max_items b.max_bytes (λ x. clamp_size (b.size_of x))

  record Answered (b : Buffer T) (c : Call T) : Type 0 where
    reply : (call b c).0 ≡ (answer_of b (contents b) c).0
    left : contents (call b c).1 ≡ (answer_of b (contents b) c).1
    light : IsLight (call b c).1
    same : Same b (call b c).1

  drop-append_all : (xs ys : List (T × ℕ)) → drop (length xs) (xs ++ ys) ≡ ys
  drop-append_all [] ys = refl
  drop-append_all (x ∷ xs) ys = drop-append_all xs ys

  Batch-greedy :
      (mi mb : ℤ) (q : List (T × ℕ)) (out : List T × Buffer T)
      → (t : Batch mi mb q out) → greedy mi mb 0 0 q ≡ t.taken
  Batch-greedy mi mb q out t =
      let rest = contents out.1 in
      ap (greedy mi mb 0 0) t.split
      ∙ greedy-prefix mi mb 0 0 t.taken rest (λ p. omega (arith, t.within.0 p))
          (λ p. omega (arith, t.within.1 p))
          (λ some_left room. t.maximal some_left (
            λ p.
                omega (arith, room.0 p, length-append t.taken (take 1 rest), length-take-le 1 rest),
            λ p. omega (
              arith,
              room.1 p,
              length-append t.taken (take 1 rest),
              length-take-le 1 rest,
              total-append t.taken (take 1 rest),
            ),
          ))

  call-Answered : (b : Buffer T) (c : Call T) → IsLight b → IsFair c → Answered b c
  unfolding call answer len bytes
  call-Answered b (push_item x) h fair =
      let p = push_lem b x h.valid (omega (arith, h.account, h.small x)) in
      let e = push-Entered b x h.valid h.account h.limit (h.small x) in
      let spec = evict-Evicts b.max_items b.max_bytes (with_new b x) (push b x).1 p.evicts in
      record {
        reply = sym (ap (λ r. evicted r.1) spec);
        left = p.kept ∙ sym (ap (λ r. r.0) spec);
        light = kept-IsLight b (push b x).0 h (Same-push b x) e.valid e.light;
        same = Same-push b x;
      }
  call-Answered b (take_some mi mb) h fair =
      let out = pop_batch b mi mb in
      let t = (pop_batch_lem mi mb b h.valid fair).0 in
      let spec = Batch-greedy mi mb (contents b) out t in
      let same = Same-pop_batch b mi mb in
      record {
        reply = ap given (t.returned ∙ ap values (sym spec));
        left =
            sym (drop-append_all t.taken (contents out.1))
            ∙ ap₂ (λ (n : List (T × ℕ)) q. drop (length n) q) (sym spec) (sym t.split);
        light =
            kept-IsLight b out.1 h same t.valid
              (omega (arith, Batch-light b out h.valid t, h.account));
        same = same;
      }
  call-Answered b take_all h fair =
      let (all, gone, valid) = drain_all_lem b h.valid in
      let same = Same-drain_all b in
      record {
        reply = ap given all;
        left = gone;
        light =
            kept-IsLight b (drain_all b).1 h same valid
              (omega (arith, valid.bytes_exact, ap total gone));
        same = same;
      }
  call-Answered b measure h fair = record {
    reply = ap₂ measured (sym (length-contents b)) h.valid.bytes_exact;
    left = refl;
    light = h;
    same = Same-refl b;
  }

  pub push-IsLight : (b : Buffer T) (x : T) → IsLight b → IsLight (push b x).0
  unfolding call
  push-IsLight b x h = (call-Answered b (push_item x) h tt).light

  pub pop_batch-IsLight :
      (b : Buffer T) (mi mb : ℤ) → IsLight b → to_nat mb < 2 ^ 63 → IsLight (pop_batch b mi mb).1
  unfolding call
  pop_batch-IsLight b mi mb h fair = (call-Answered b (take_some mi mb) h fair).light

  -- Over any sequence of calls, from a valid buffer whose account, bound and item sizes lie below
  -- 2 ^ 62 on, with byte limits of batches that fit an `int`, the buffer replies as the plain queue
  -- of its entries does: it evicts the fewest oldest entries that its bounds ask for, gives
  -- batches and all entries in order, as many as their limits allow, and measures its content.
  pub run-replay :
      (b : Buffer T) (calls : List (Call T))
      → IsLight b
      → AllFair calls
      → run b calls ≡ replay_of b (contents b) calls
  unfolding run replay
  run-replay b [] h f = refl
  run-replay b (c ∷ calls) h (one_more fair f) =
      let a = call-Answered b c h fair in
      let b' = (call b c).1 in
      ap₂ ◌∷◌ a.reply (
        run-replay b' calls a.light f ∙ ap (λ q. replay_of b' q calls) a.left ∙ (λ i.
          replay (a.same.items i) (a.same.limit i) (λ x. clamp_size (a.same.sizes i x))
            (answer_of b (contents b) c).1 calls))
