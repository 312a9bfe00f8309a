-- ===== src/Ring/Examples.antt =====
-- Tests of the ring buffer, and its theorems at concrete inputs.
use groundcover_go.Base.{ℕ, ◌<◌, ◌≡◌, refl, List, [], ◌∷◌, arith, length}
use groundcover_go.Base.Int.{pos}
use groundcover_go.Ring.{
  HasZero, Buffer, clamp_size, relinearize, new_cap, grow, pop_oldest, append, shrink, grow_if_full,
  make_room, push, batch_full, take_batch, pop_batch,
}
use groundcover_go.Ring.Core.{contents, values}
use groundcover_go.Ring.Inv.{IsValid}
use groundcover_go.Ring.Push.{Pushed, push_lem}
use groundcover_go.Ring.Batch.{Batch, pop_batch_lem}
use groundcover_go.Ring.Queue.{push_item, measure, take_some, take_all}
use groundcover_go.Ring.Refinement.{run, IsLight, replay_of, one_more, no_more, run-replay}

instance abbrev zero_ℕ : HasZero ℕ
zero_ℕ = record { zero_value = 0 }

-- 7, then 5, round the end of the slices; an item is as many bytes as its value
abbrev wrapped : Buffer ℕ
wrapped = record {
  buf = 5 ∷ 7 ∷ [];
  sz = 5 ∷ 7 ∷ [];
  head = 1;
  count = 2;
  bytes = 12;
  max_items = 3;
  max_bytes = 20;
  size_of = λ x. pos x;
}

wrapped-IsValid : IsValid wrapped
wrapped-IsValid = omega arith

contents-wrapped : values (contents wrapped) ≡ 7 ∷ 5 ∷ []
contents-wrapped = refl

-- 7 + 5 + 10 bytes are over 20, so the oldest goes.
push_over_bytes :
    let (b, dropped) = push wrapped 10 in
    ◌≡◌ {A = List ℕ × ℕ} (values (contents b), dropped) (5 ∷ 10 ∷ [], 1)
unfolding push clamp_size make_room grow_if_full grow relinearize new_cap append shrink pop_oldest
push_over_bytes = refl

push_fits :
    let (b, dropped) = push wrapped 8 in
    ◌≡◌ {A = List ℕ × ℕ} (values (contents b), dropped) (7 ∷ 5 ∷ 8 ∷ [], 0)
unfolding push clamp_size make_room grow_if_full grow relinearize new_cap append shrink pop_oldest
push_fits = refl

-- An item larger than the whole byte budget is kept alone.
push_huge :
    let (b, dropped) = push wrapped 99 in
    ◌≡◌ {A = List ℕ × ℕ} (values (contents b), dropped) (99 ∷ [], 2)
unfolding push clamp_size make_room grow_if_full grow relinearize new_cap append shrink pop_oldest
push_huge = refl

batch_of_one : (pop_batch wrapped (pos 0) (pos 9)).0 ≡ 7 ∷ []
unfolding pop_batch take_batch batch_full pop_oldest
batch_of_one = refl

push_lem_example : Pushed wrapped 10 (push wrapped 10)
push_lem_example = push_lem wrapped 10 wrapped-IsValid (unfold clamp_size in omega arith)

pop_batch_lem_example :
    Batch (pos 0) (pos 9) (contents wrapped) (pop_batch wrapped (pos 0) (pos 9))
    × (0 < wrapped.count → 0 < length (pop_batch wrapped (pos 0) (pos 9)).0)
pop_batch_lem_example = pop_batch_lem (pos 0) (pos 9) wrapped wrapped-IsValid (omega arith)

-- the same with ten bytes for any further item
abbrev tens : Buffer ℕ
tens = record wrapped { size_of = λ x. pos 10 }

tens-IsLight : IsLight tens
unfolding clamp_size
tens-IsLight = omega arith

run-replay_example :
    run tens (push_item 9 ∷ measure ∷ take_some (pos 1) (pos 100) ∷ take_all ∷ [])
    ≡ replay_of tens
        (contents tens)
        (push_item 9 ∷ measure ∷ take_some (pos 1) (pos 100) ∷ take_all ∷ [])
run-replay_example =
    run-replay tens (push_item 9 ∷ measure ∷ take_some (pos 1) (pos 100) ∷ take_all ∷ [])
      tens-IsLight (one_more tt (one_more tt (one_more (omega arith) (one_more tt no_more))))
