-- ===== src/Ring.antt =====
-- internal/ringbuf/ringbuf.go: the bounded pending buffer.
-- A method that changes `*b` returns the new buffer. Each runs under the mutex, so it is one step.
-- Lengths and indices of slices are plain numbers, since no slice comes near 2 ^ 62 entries; the
-- byte account is kept in 64-bit words. A panicking index read is `get_or` with the zero value:
-- the invariant of Ring/Inv rules it out.
pub mod Core
pub mod Inv
pub mod Fifo
pub mod Push
pub mod Batch
pub mod Drain
pub mod Frame
pub mod Weight
pub mod Feed
pub mod Queue
pub mod Refinement
mod Examples
use groundcover_go.Base.{
  ℕ, zero, suc, ◌+◌, ◌-◌, ◌*◌, ◌%◌, ◌^◌, Bool, true, false, ◌&&◌, Option, none, some, List, [], ◌∷◌,
  ◌++◌, ltb, leb, ◌==◌, if◌then◌else◌, length, get_or, set, replicate,
}
use groundcover_go.Base.Words.{add64, sub64, lt_int}
use groundcover_go.Base.Int.{ℤ, pos, is_positive, to_nat}

-- What `var zero T` gives.
pub record HasZero {ℓ} (T : Type ℓ) : Type ℓ where
  pub zero_value : T

pub record Buffer {ℓ} (T : Type ℓ) : Type ℓ where
  pub buf : List T
  pub sz : List ℕ
  pub head : ℕ
  pub count : ℕ
  pub bytes : ℕ  -- int
  pub max_items : ℕ
  pub max_bytes : ℕ  -- int
  pub size_of : T → ℤ

abbrev pub min_initial_cap : ℕ
min_initial_cap = 8

-- `sizeOf` may be nil.
unfoldable pub new {ℓ} : {T : Type ℓ} → ℤ → ℤ → Option (T → ℤ) → Buffer T
new max_items max_bytes size_of = record {
  buf = [];
  sz = [];
  head = 0;
  count = 0;
  bytes = 0;
  max_items = if is_positive max_items then to_nat max_items else 1;
  max_bytes = if is_positive max_bytes then to_nat max_bytes else 2 ^ 62;
  size_of = elim size_of [ none ↦ (λ _. pos 1) | some f ↦ f ];
}

-- `Push` counts an item as one byte at least.
unfoldable pub clamp_size : ℤ → ℕ
clamp_size size = if is_positive size then to_nat size else 1

module _ {ℓ} {T : Type ℓ} where
  -- the loop of `grow`: `newBuf[i] = b.buf[(b.head + i) % len(b.buf)]`, `rounds` times
  unfoldable pub relinearize : T → List T → ℕ → List T → ℕ → ℕ → List T
  relinearize d old head new i zero = new
  relinearize d old head new i (suc rounds) =
      relinearize d old head (set new i (get_or old ((head + i) % length old) d)) (suc i) rounds

  unfoldable pub new_cap : Buffer T → ℕ
  new_cap b =
      let doubled = length b.buf * 2 in
      let raised = if ltb doubled min_initial_cap then min_initial_cap else doubled in
      if ltb b.max_items raised then b.max_items else raised

  -- whether the loop of `PopBatch` stops before the next entry, of `s` bytes
  unfoldable pub batch_full : ℤ → ℤ → List T → ℕ → ℕ → Bool
  batch_full max_items max_bytes out batch_bytes s =
      if is_positive max_items && leb (to_nat max_items) (length out)
      then true
      else (ltb 0 (length out)
          && (is_positive max_bytes && lt_int (to_nat max_bytes) (add64 batch_bytes s)))

module _ {ℓ} {T : Type ℓ} ⦃z : HasZero T⦄ where
  unfoldable pub grow : Buffer T → Buffer T
  grow b = record b {
    buf = relinearize z.zero_value b.buf b.head (replicate (new_cap b) z.zero_value) 0 b.count;
    sz = relinearize 0 b.sz b.head (replicate (new_cap b) 0) 0 b.count;
    head = 0;
  }

  unfoldable pub pop_oldest : Buffer T → Buffer T
  pop_oldest b = record b {
    bytes = sub64 b.bytes (get_or b.sz b.head 0);
    buf = set b.buf b.head z.zero_value;
    head = (b.head + 1) % length b.buf;
    count = b.count - 1;
  }

  -- the entry that `Push` makes room for, written at the tail
  unfoldable pub append : Buffer T → T → ℕ → Buffer T
  append b item size =
      let tail = (b.head + b.count) % length b.buf in
      record b {
        buf = set b.buf tail item;
        sz = set b.sz tail size;
        count = b.count + 1;
        bytes = add64 b.bytes size;
      }

  -- `for b.bytes > b.maxBytes && b.count > 1 { b.popOldest(); dropped++ }`; each round takes an
  -- entry out, so as many rounds as entries are enough.
  unfoldable pub shrink : ℕ → Buffer T → ℕ → Buffer T × ℕ
  shrink zero b dropped = (b, dropped)
  shrink (suc rounds) b dropped = elim (lt_int b.max_bytes b.bytes && ltb 1 b.count) [
    | true ↦ shrink rounds (pop_oldest b) (dropped + 1)
    | false ↦ (b, dropped)
  ]

  -- `if b.count == len(b.buf) && b.count < b.maxItems { b.grow() }`
  unfoldable pub grow_if_full : Buffer T → Buffer T
  grow_if_full b = if b.count == length b.buf && ltb b.count b.max_items then grow b else b

  -- `Push` up to the write: room for one more entry, and how many entries that evicted
  unfoldable pub make_room : Buffer T → Buffer T × ℕ
  make_room b =
      let b' = grow_if_full b in if b'.count == b'.max_items then (pop_oldest b', 1) else (b', 0)

  unfoldable pub push : Buffer T → T → Buffer T × ℕ
  push b item =
      let size = clamp_size (b.size_of item) in
      let (b', dropped) = make_room b in
      let b'' = append b' item size in shrink b''.count b'' dropped

  -- the loop of `PopBatch`, once for each entry at most
  unfoldable pub take_batch : ℤ → ℤ → ℕ → Buffer T → List T → ℕ → List T × Buffer T
  take_batch max_items max_bytes zero b out batch_bytes = (out, b)
  take_batch max_items max_bytes (suc rounds) b out batch_bytes =
      let s = get_or b.sz b.head 0 in
      elim (ltb 0 b.count) [
        | false ↦ (out, b)
        | true ↦ elim (batch_full max_items max_bytes out batch_bytes s) [
          | true ↦ (out, b)
          | false ↦
              take_batch max_items max_bytes rounds (pop_oldest b)
                (out ++ (get_or b.buf b.head z.zero_value ∷ [])) (add64 batch_bytes s)
        ]
      ]

  unfoldable pub pop_batch : Buffer T → ℤ → ℤ → List T × Buffer T
  pop_batch b max_items max_bytes =
      if b.count == 0 then ([], b) else take_batch max_items max_bytes b.count b [] 0

  -- the loop of `DrainAll`
  pub drain : ℕ → Buffer T → List T → List T × Buffer T
  drain zero b out = (out, b)
  drain (suc rounds) b out = elim (ltb 0 b.count) [
    | false ↦ (out, b)
    | true ↦ drain rounds (pop_oldest b) (out ++ (get_or b.buf b.head z.zero_value ∷ []))
  ]

  pub drain_all : Buffer T → List T × Buffer T
  drain_all b = if b.count == 0 then ([], b) else drain b.count b []

unfoldable pub len {ℓ} : {T : Type ℓ} → Buffer T → ℕ
len b = b.count

unfoldable pub bytes {ℓ} : {T : Type ℓ} → Buffer T → ℕ
bytes b = b.bytes
