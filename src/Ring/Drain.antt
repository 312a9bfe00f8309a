-- ===== src/Ring/Drain.antt =====
-- `DrainAll` returns everything in order.
use groundcover_go.Base.{
  ℕ, zero, suc, ◌≤◌, ◌≡◌, sym, ap, ◌∙◌, List, [], ◌∷◌, ◌++◌, inl, inr, arith, append-nil,
  append_assoc, ltb, ltb→lt, tabulate, ◌==◌, Bool-cases,
}
use groundcover_go.Ring.{Buffer, HasZero, pop_oldest, drain, drain_all}
use groundcover_go.Ring.Core.{values, oldest, entry, contents, contents-pop_oldest}
use groundcover_go.Ring.Inv.{IsValid, pop_oldest-IsValid, pop_oldest_fields}

module _ {ℓ} {T : Type ℓ} ⦃z : HasZero T⦄ where
  -- the loop of `DrainAll` when no entry is left
  drained :
      (b : Buffer T) (out : List T)
      → IsValid b
      → b.count ≡ 0
      → (out ≡ out ++ values (contents b)) × (contents b ≡ []) × IsValid b
  drained b out v h =
      let empty : contents b ≡ [] = ap (tabulate (entry b) 0) h in
      (sym (append-nil out) ∙ ap (λ q. out ++ values q) (sym empty), empty, v)

  drain-all :
      (rounds : ℕ) (b : Buffer T) (out : List T)
      → IsValid b
      → b.count ≤ rounds
      → ((drain rounds b out).0 ≡ out ++ values (contents b))
        × (contents (drain rounds b out).1 ≡ [])
        × IsValid (drain rounds b out).1
  unfolding drain
  drain-all zero b out v h = drained b out v (omega arith)
  drain-all (suc rounds) b out v h = elim (Bool-cases (ltb 0 b.count)) [
    | inr done ↦ rw (done, drain) (drained b out v (ground arith))
    | inl more ↦
        let left = ltb→lt 0 b.count more in
        let split = contents-pop_oldest b v.sound left in
        let rest =
          drain-all rounds (pop_oldest b) (out ++ ((oldest b).0 ∷ [])) (pop_oldest-IsValid b v left)
            (omega (arith, pop_oldest_fields b)) in
        rw (more, drain)
          (
            rest.0
                ∙ append_assoc out ((oldest b).0 ∷ []) (values (contents (pop_oldest b)))
                ∙ ap (λ q. out ++ values q) (sym split),
            rest.1,
            rest.2,
          )
  ]

  -- `DrainAll` returns every entry, oldest first, and leaves a valid empty buffer.
  pub drain_all_lem :
      (b : Buffer T)
      → IsValid b
      → ((drain_all b).0 ≡ values (contents b))
        × (contents (drain_all b).1 ≡ [])
        × IsValid (drain_all b).1
  unfolding drain_all
  drain_all_lem b v = elim (Bool-cases (b.count == 0)) [
    | inl none_left ↦ rw none_left (drained b [] v (ground arith))
    | inr more ↦ rw more (drain-all b.count b [] v (omega arith))
  ]
