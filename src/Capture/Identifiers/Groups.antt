-- ===== src/Capture/Identifiers/Groups.antt =====
-- uuid.go: the five groups of a UUID.
use groundcover_go.Base.{
  drop-drop, take-drop, take_all, length-take, ℕ, suc, ◌+◌, ◌-◌, ◌*◌, ◌≤◌, ◌≡◌, refl, sym, ap, ◌∙◌,
  List, [], ◌∷◌, ◌++◌, length, take, drop, arith, append-nil, length-drop, length-append,
}
use groundcover_go.Capture.Identifiers.{hex_encode, slice, format}
use groundcover_go.Capture.Identifiers.Hex.{
  undash, undash-hex_encode, hex_encode-append, length-hex_encode,
}

-- a group, and then what follows it
tile :
    (i j : ℕ) (b : List ℕ)
    → i ≤ j
    → hex_encode (slice i j b) ++ hex_encode (drop j b) ≡ hex_encode (drop i b)
unfolding slice
tile i j b h =
    sym (hex_encode-append (take (j - i) (drop i b)) (drop j b))
    ∙ ap (λ t. hex_encode (take (j - i) (drop i b) ++ drop t b)) (omega (arith, h))
    ∙ ap (λ t. hex_encode (take (j - i) (drop i b) ++ t)) (sym (drop-drop (j - i) i b))
    ∙ ap hex_encode (take-drop (j - i) (drop i b))

slice_last : (b : List ℕ) → length b ≡ 16 → slice 10 16 b ≡ drop 10 b
unfolding slice
slice_last b h = take_all 6 (drop 10 b) (omega (arith, length-drop 10 b, h))

undash-group : (bs cs : List ℕ) → undash (hex_encode bs ++ b'-' ∷ cs) ≡ hex_encode bs ++ undash cs
unfolding undash
undash-group bs cs = undash-hex_encode bs (b'-' ∷ cs)

undash-last : (bs : List ℕ) → undash (hex_encode bs) ≡ hex_encode bs
unfolding undash
undash-last bs =
    ap undash (sym (append-nil (hex_encode bs)))
    ∙ undash-hex_encode bs []
    ∙ append-nil (hex_encode bs)

undash-groups :
    (p q r s t : List ℕ)
    → undash (
        hex_encode p
        ++ (b'-'
            ∷ (hex_encode q
                ++ (b'-' ∷ (hex_encode r ++ (b'-' ∷ (hex_encode s ++ (b'-' ∷ hex_encode t))))))))
      ≡ hex_encode p ++ (hex_encode q ++ (hex_encode r ++ (hex_encode s ++ hex_encode t)))
undash-groups p q r s t =
    rw (undash-group p, undash-group q, undash-group r, undash-group s, undash-last t) refl

pub undash-format : (b : List ℕ) → length b ≡ 16 → undash (format b) ≡ hex_encode b
unfolding format
undash-format b h =
    undash-groups (slice 0 4 b) (slice 4 6 b) (slice 6 8 b) (slice 8 10 b) (slice 10 16 b)
    ∙ rw
        (
          slice_last b h,
          tile 8 10 b (omega arith),
          tile 6 8 b (omega arith),
          tile 4 6 b (omega arith),
          tile 0 4 b (omega arith),
        )
        refl

length-slice : (i j : ℕ) (b : List ℕ) → i ≤ j → j ≤ length b → length (slice i j b) ≡ j - i
unfolding slice
length-slice i j b h l = length-take (j - i) (drop i b) (omega (arith, length-drop i b, l))

length-group :
    (p cs : List ℕ) → length (hex_encode p ++ (b'-' ∷ cs)) ≡ suc (2 * length p + length cs)
length-group p cs = omega (arith, length-append (hex_encode p) (b'-' ∷ cs), length-hex_encode p)

pub length-format : (b : List ℕ) → length b ≡ 16 → length (format b) ≡ 36
unfolding format
length-format b h =
    rw
      (
        length-group,
        length-group,
        length-group,
        length-group,
        length-hex_encode (slice 10 16 b),
        length-slice 0 4 b (omega arith) (omega (arith, h)),
        length-slice 4 6 b (omega arith) (omega (arith, h)),
        length-slice 6 8 b (omega arith) (omega (arith, h)),
        length-slice 8 10 b (omega arith) (omega (arith, h)),
        length-slice 10 16 b (omega arith) (omega (arith, h)),
      )
      refl
