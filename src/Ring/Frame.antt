-- ===== src/Ring/Frame.antt =====
-- What no method of the buffer changes: its bounds and its size function.
use groundcover_go.Base.{
  ℕ, zero, suc, ◌+◌, ◌≡◌, refl, ◌∙◌, List, [], ◌∷◌, ◌++◌, inl, inr, ◌&&◌, length, get_or, ltb, ◌==◌,
  Bool-cases,
}
use groundcover_go.Base.Words.{add64, lt_int}
use groundcover_go.Base.Int.{ℤ}
use groundcover_go.Ring.Core.{oldest}
use groundcover_go.Ring.{
  Buffer, HasZero, clamp_size, grow, pop_oldest, append, shrink, grow_if_full, make_room, push,
  batch_full, take_batch, pop_batch, drain, drain_all,
}

pub record Same {ℓ} {T : Type ℓ} (b b' : Buffer T) : Type ℓ where
  pub items : b'.max_items ≡ b.max_items
  pub limit : b'.max_bytes ≡ b.max_bytes
  pub sizes : b'.size_of ≡ b.size_of

module _ {ℓ} {T : Type ℓ} where
  pub Same-refl : (b : Buffer T) → Same b b
  Same-refl b = record { items = refl; limit = refl; sizes = refl }

  pub Same-trans : {a b c : Buffer T} → Same a b → Same b c → Same a c
  Same-trans p q = record {
    items = q.items ∙ p.items;
    limit = q.limit ∙ p.limit;
    sizes = q.sizes ∙ p.sizes;
  }

module _ {ℓ} {T : Type ℓ} ⦃z : HasZero T⦄ where
  Same-pop_oldest : (b : Buffer T) → Same b (pop_oldest b)
  unfolding pop_oldest
  Same-pop_oldest b = record { items = refl; limit = refl; sizes = refl }

  Same-shrink : (rounds : ℕ) (b : Buffer T) (d : ℕ) → Same b (shrink rounds b d).0
  unfolding shrink
  Same-shrink zero b d = Same-refl b
  Same-shrink (suc rounds) b d = elim (Bool-cases (lt_int b.max_bytes b.bytes && ltb 1 b.count)) [
    | inl go ↦
        rw (go, shrink) (Same-trans (Same-pop_oldest b) (Same-shrink rounds (pop_oldest b) (d + 1)))
    | inr stop ↦ rw (stop, shrink) (Same-refl b)
  ]

  Same-grow_if_full : (b : Buffer T) → Same b (grow_if_full b)
  unfolding grow_if_full grow
  Same-grow_if_full b = elim (Bool-cases (b.count == length b.buf && ltb b.count b.max_items)) [
    | inl full ↦ rw full (record { items = refl; limit = refl; sizes = refl })
    | inr fine ↦ rw fine (Same-refl b)
  ]

  Same-make_room : (b : Buffer T) → Same b (make_room b).0
  unfolding make_room
  Same-make_room b =
      let b' = grow_if_full b in
      elim (Bool-cases (b'.count == b'.max_items)) [
        | inl full ↦ rw full (Same-trans (Same-grow_if_full b) (Same-pop_oldest b'))
        | inr fine ↦ rw fine (Same-grow_if_full b)
      ]

  Same-append : (b : Buffer T) (x : T) (s : ℕ) → Same b (append b x s)
  unfolding append
  Same-append b x s = record { items = refl; limit = refl; sizes = refl }

  pub Same-push : (b : Buffer T) (x : T) → Same b (push b x).0
  unfolding push
  Same-push b x =
      let s = clamp_size (b.size_of x) in
      let b' = append (make_room b).0 x s in
      Same-trans (Same-make_room b)
        (Same-trans (Same-append (make_room b).0 x s) (Same-shrink b'.count b' (make_room b).1))

  Same-take_batch :
      (mi mb : ℤ) (rounds : ℕ) (b : Buffer T) (out : List T) (w : ℕ)
      → Same b (take_batch mi mb rounds b out w).1
  unfolding take_batch
  Same-take_batch mi mb zero b out w = Same-refl b
  Same-take_batch mi mb (suc rounds) b out w =
      let s = get_or b.sz b.head 0 in
      elim (Bool-cases (ltb 0 b.count)) [
        | inr done ↦ rw (done, take_batch) (Same-refl b)
        | inl more ↦ elim (Bool-cases (batch_full mi mb out w s)) [
          | inl full ↦ rw (more, full, take_batch) (Same-refl b)
          | inr free ↦
              rw (more, free, take_batch)
                (Same-trans (Same-pop_oldest b) (
                  Same-take_batch mi mb rounds (pop_oldest b)
                    (out ++ (get_or b.buf b.head z.zero_value ∷ [])) (add64 w s)))
        ]
      ]

  pub Same-pop_batch : (b : Buffer T) (mi mb : ℤ) → Same b (pop_batch b mi mb).1
  unfolding pop_batch
  Same-pop_batch b mi mb = elim (Bool-cases (b.count == 0)) [
    | inl empty ↦ rw empty (Same-refl b)
    | inr some_left ↦ rw some_left (Same-take_batch mi mb b.count b [] 0)
  ]

  Same-drain : (rounds : ℕ) (b : Buffer T) (out : List T) → Same b (drain rounds b out).1
  unfolding drain
  Same-drain zero b out = Same-refl b
  Same-drain (suc rounds) b out = elim (Bool-cases (ltb 0 b.count)) [
    | inl more ↦
        rw (more, drain)
          (Same-trans (Same-pop_oldest b)
            (Same-drain rounds (pop_oldest b) (out ++ ((oldest b).0 ∷ []))))
    | inr done ↦ rw (done, drain) (Same-refl b)
  ]

  pub Same-drain_all : (b : Buffer T) → Same b (drain_all b).1
  unfolding drain_all
  Same-drain_all b = elim (Bool-cases (b.count == 0)) [
    | inl none_left ↦ rw none_left (Same-refl b)
    | inr more ↦ rw more (Same-drain b.count b [])
  ]
