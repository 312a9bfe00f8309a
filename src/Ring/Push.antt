-- ===== src/Ring/Push.antt =====
-- `Push` keeps exactly the newest entries that fit, and counts the ones it evicts.
mod Shrink
mod Room
use groundcover_go.Base.{
  ℕ, zero, suc, ◌+◌, ◌^◌, ◌≤◌, ◌<◌, ◌≡◌, refl, sym, ap, ◌∙◌, List, [], ◌∷◌, ◌++◌, ◌⊎◌, inl, inr,
  true, false, ◌&&◌, arith, length, length-append, length-drop, drop, drop-drop, drop-append,
  get_or, ltb, ◌==◌, ==_iff, Bool-cases,
}
use groundcover_go.Base.Words.{lt_int}
use groundcover_go.Ring.{
  Buffer, clamp_size, HasZero, pop_oldest, append, shrink, grow_if_full, make_room, push,
}
use groundcover_go.Ring.Core.{
  contents, total, contents-pop_oldest, length-contents, contents-append,
}
use groundcover_go.Ring.Inv.{
  IsValid, pop_oldest-IsValid, pop_oldest_fields, grow-IsValid, grow_fields, append-IsValid,
  append_fields, contents-grow, length-grow, new_cap_bounds,
}
use groundcover_go.Ring.Fifo.{Evicts, Over, Over-cons, all_needed}
use Shrink.{Shrunk, shrink-Shrunk}
use Room.{Readied, make_room-Readied}

module _ {ℓ} {T : Type ℓ} ⦃z : HasZero T⦄ where
  -- the entries before and after the write, with nothing evicted
  abbrev pub with_new : Buffer T → T → List (T × ℕ)
  with_new b x = contents b ++ ((x, clamp_size (b.size_of x)) ∷ [])

  -- the buffer when `Push` enters its loop
  abbrev written : Buffer T → T → Buffer T
  written b x = append (make_room b).0 x (clamp_size (b.size_of x))

  record Written (b : Buffer T) (x : T) : Type ℓ where
    valid : IsValid (written b x)
    kept : contents (written b x) ≡ drop (make_room b).1 (with_new b x)
    full : ((make_room b).1 ≡ 0) ⊎ (((make_room b).1 ≡ 1) × (b.max_items < length (with_new b x)))
    holds_new : 0 < (written b x).count
    whole : (make_room b).1 + (written b x).count ≡ length (with_new b x)
    same_items : (written b x).max_items ≡ b.max_items
    same_bytes : (written b x).max_bytes ≡ b.max_bytes

  written_lem :
      (b : Buffer T) (x : T) → IsValid b → b.bytes + clamp_size (b.size_of x) < 2 ^ 63 → Written b x
  written_lem b x v small =
      let s = clamp_size (b.size_of x) in
      let (b', first) = make_room b in
      let r = make_room-Readied b v in
      let held = length-contents b in
      let counts = length-append (contents b) ((x, s) ∷ []) in
      let first_le : first ≤ length (contents b) = omega (arith, r.full, v.items_pos, held) in
      let kept : contents (append b' x s) ≡ drop first (with_new b x) =
        contents-append b' x s r.valid.sound r.room
        ∙ ap (λ q. q ++ ((x, s) ∷ [])) r.kept
        ∙ sym (drop-append first (contents b) ((x, s) ∷ []) first_le) in
      let fields = append_fields b' x s in
      record {
        valid = append-IsValid b' x s r.valid r.room (omega (arith, r.lighter));
        kept = kept;
        full = omega (arith, r.full, held, counts);
        holds_new = omega (arith, fields);
        whole = omega (
          arith,
          first_le,
          held,
          counts,
          fields,
          r.full,
          ap length kept,
          length-drop first (with_new b x),
          length-contents (append b' x s),
        );
        same_items = fields.2 ∙ r.same_items;
        same_bytes = fields.3 ∙ r.same_bytes;
      }

  -- what `Push` returns
  pub record Pushed (b : Buffer T) (x : T) (out : Buffer T × ℕ) : Type ℓ where
    pub valid : IsValid out.0
    pub kept : contents out.0 ≡ drop out.1 (with_new b x)
    pub evicts : Evicts b.max_items b.max_bytes (with_new b x) out.1

  -- Pushing onto a valid buffer, whose byte account has room for the new entry in an `int`, keeps
  -- it valid; it then holds its old entries followed by the new one, less the `dropped` oldest;
  -- and `dropped` is the least number whose loss makes the entries fit both bounds, and leaves the
  -- new entry in.
  pub push_lem :
      (b : Buffer T) (x : T)
      → IsValid b
      → b.bytes + clamp_size (b.size_of x) < 2 ^ 63
      → Pushed b x (push b x)
  unfolding push
  push_lem b x v small =
      let all = with_new b x in
      let first = (make_room b).1 in
      let w = written_lem b x v small in
      let sh = shrink-Shrunk (written b x).count (written b x) first w.valid (omega arith) in
      let out = shrink (written b x).count (written b x) first in
      let kept : contents out.0 ≡ drop out.1 all =
        sh.kept
        ∙ ap (drop sh.evicted) w.kept
        ∙ drop-drop sh.evicted first all
        ∙ ap (λ n. drop n all) (sym sh.counted) in
      let over : (k : ℕ) → k < sh.evicted → Over b.max_bytes (drop k (drop first all)) = λ k p.
        let same = ap (drop k) w.kept in
        omega (arith, sh.needed k p, w.same_bytes, ap length same, ap total same) in
      let held = length-contents out.0 in
      let in_bound : out.0.count ≤ b.max_items =
        omega (arith, sh.valid.sound.count_in, sh.valid.cap_in, sh.same_items, w.same_items) in
      record {
        valid = sh.valid;
        kept = kept;
        evicts = record {
          fits =
              omega (arith, held, ap length kept, ap total kept, in_bound, sh.room, w.same_bytes);
          least = λ k p.
              all_needed b.max_items b.max_bytes all first sh.evicted w.full over k
                (omega (arith, sh.counted));
          keeps = omega (arith, sh.counted, sh.left, w.whole, w.holds_new);
        };
      }
