-- ===== src/Ring/Push/Room.antt =====
-- The part of `Push` before the write: growing, and the eviction at the item bound.
use groundcover_go.Base.{
  ℕ, ◌≤◌, ◌<◌, ◌≡◌, refl, sym, ap, ◌∙◌, ◌⊎◌, inl, inr, false, ◌&&◌, arith, length, drop, ltb, ◌==◌,
  ==_iff, Bool-cases,
}
use groundcover_go.Ring.{Buffer, HasZero, grow_if_full, make_room}
use groundcover_go.Ring.Core.{contents, total, contents-pop_oldest}
use groundcover_go.Ring.Inv.{
  IsValid, pop_oldest-IsValid, pop_oldest_fields, grow-IsValid, grow_fields, contents-grow,
  length-grow, new_cap_bounds,
}

-- without growing there is a free slot, or the buffer is at its item bound
has_slot : (c l m : ℕ) → c ≤ l → l ≤ m → (c == l && ltb c m) ≡ false → (c < l) ⊎ (c ≡ m)
has_slot c l m h k e = ground arith

not_at_bound : (c m : ℕ) → c ≤ m → (c == m) ≡ false → c < m
not_at_bound c m h e = ground arith

module _ {ℓ} {T : Type ℓ} ⦃z : HasZero T⦄ where
  record Grown (b b' : Buffer T) : Type ℓ where
    valid : IsValid b'
    same : contents b' ≡ contents b
    room : (b.count < length b'.buf) ⊎ (b.count ≡ b.max_items)
    same_count : b'.count ≡ b.count
    same_sum : b'.bytes ≡ b.bytes
    same_items : b'.max_items ≡ b.max_items
    same_bytes : b'.max_bytes ≡ b.max_bytes

  grow_if_full-Grown : (b : Buffer T) → IsValid b → Grown b (grow_if_full b)
  unfolding grow_if_full
  grow_if_full-Grown b v = elim (Bool-cases (b.count == length b.buf && ltb b.count b.max_items)) [
    | inl full ↦
        let spare : length b.buf < b.max_items = ground arith in
        let fields = grow_fields b in
        rw full (record {
          valid = grow-IsValid b v spare;
          same = contents-grow b v.sound spare;
          room = inl (omega (arith, v.sound.count_in, length-grow b, new_cap_bounds b spare));
          same_count = fields.0;
          same_sum = fields.1;
          same_items = fields.2;
          same_bytes = fields.3;
        })
    | inr fine ↦ rw fine (record {
      valid = v;
      same = refl;
      room = has_slot b.count (length b.buf) b.max_items v.sound.count_in v.cap_in fine;
      same_count = refl;
      same_sum = refl;
      same_items = refl;
      same_bytes = refl;
    })
  ]

  -- what `Push` has done when it writes the new entry
  pub record Readied (b : Buffer T) (out : Buffer T × ℕ) : Type ℓ where
    pub valid : IsValid out.0
    pub room : out.0.count < length out.0.buf
    pub kept : contents out.0 ≡ drop out.1 (contents b)
    pub lighter : out.0.bytes ≤ b.bytes
    pub full : ((out.1 ≡ 0) × (b.count < b.max_items)) ⊎ ((out.1 ≡ 1) × (b.count ≡ b.max_items))
    pub same_items : out.0.max_items ≡ b.max_items
    pub same_bytes : out.0.max_bytes ≡ b.max_bytes

  pub make_room-Readied : (b : Buffer T) → IsValid b → Readied b (make_room b)
  unfolding make_room
  make_room-Readied b v =
      let g = grow_if_full-Grown b v in
      let b' = grow_if_full b in
      elim (Bool-cases (b'.count == b'.max_items)) [
        | inl full ↦
            let at_bound : b'.count ≡ b'.max_items = (==_iff b'.count b'.max_items).0 full in
            let some_left : 0 < b'.count = omega (arith, g.valid.items_pos) in
            let fields = pop_oldest_fields b' in
            let split = contents-pop_oldest b' g.valid.sound some_left in
            rw full (record {
              valid = pop_oldest-IsValid b' g.valid some_left;
              room = omega (arith, fields, g.valid.sound.count_in);
              kept = ap (drop 1) (sym split ∙ g.same);
              lighter = omega (
                arith,
                (pop_oldest-IsValid b' g.valid some_left).bytes_exact,
                g.valid.bytes_exact,
                ap total split,
                g.same_sum,
              );
              full = inr (refl, omega (arith, g.same_count, g.same_items));
              same_items = fields.2 ∙ g.same_items;
              same_bytes = fields.3 ∙ g.same_bytes;
            })
        | inr spare ↦
            let below : b'.count < b'.max_items =
              not_at_bound b'.count b'.max_items
                (omega (arith, g.valid.cap_in, g.valid.sound.count_in)) spare in
            rw spare (record {
              valid = g.valid;
              room = omega (arith, g.room, g.same_count);
              kept = g.same;
              lighter = omega (arith, g.same_sum);
              full = inl (refl, omega (arith, g.same_count, g.same_items));
              same_items = g.same_items;
              same_bytes = g.same_bytes;
            })
      ]
