-- ===== src/Capture/Identifiers/Stamp.antt =====
-- uuid.go: the bits that mark the version and the variant.
use groundcover_go.Base.{
  ℕ, zero, suc, ◌+◌, ◌%◌, ◌<◌, ◌≡◌, refl, ap, ◌∙◌, inl, inr, Bool, true, false, ◌&&◌, List, [], ◌∷◌,
  ◌==◌, get_or, set, arith, Bool-cases, ==_iff,
}
use groundcover_go.Capture.Identifiers.{version_byte, variant_byte, stamp}
use groundcover_go.Capture.Identifiers.Hex.{AreBytes}

all_below : (ℕ → Bool) → ℕ → Bool
all_below p zero = true
all_below p (suc n) = p n && all_below p n

all_below_lem : (p : ℕ → Bool) (n k : ℕ) → all_below p n ≡ true → k < n → p k ≡ true
unfolding all_below
all_below_lem p zero k h l = absurd (omega (arith, l))
all_below_lem p (suc n) k h l = elim (Bool-cases (p n)) [
  | inl e ↦ elim (Bool-cases (k == n)) [
    | inl q ↦ ap p ((==_iff k n).0 q) ∙ e
    | inr q ↦ all_below_lem p n k (below e h) (ground arith)
  ]
  | inr e ↦ absurd (none_below _ _ e h)
]
  where
    below : {a b : Bool} → a ≡ true → (a && b) ≡ true → b ≡ true
    below e h = ground arith

    none_below : (a b : Bool) → a ≡ false → (a && b) ≡ true → ⊥
    none_below a b e h = ground arith

every_version : all_below (λ y. version_byte y == 64 + y % 16) 256 ≡ true
unfolding all_below version_byte
every_version = refl

pub version_byte_lem : (x : ℕ) → x < 256 → version_byte x ≡ 64 + x % 16
version_byte_lem x h =
    (==_iff _ _).0 (all_below_lem (λ y. version_byte y == 64 + y % 16) 256 x every_version h)

every_variant : all_below (λ y. variant_byte y == 128 + y % 64) 256 ≡ true
unfolding all_below variant_byte
every_variant = refl

pub variant_byte_lem : (x : ℕ) → x < 256 → variant_byte x ≡ 128 + x % 64
variant_byte_lem x h =
    (==_iff _ _).0 (all_below_lem (λ y. variant_byte y == 128 + y % 64) 256 x every_variant h)

pub get_or-AreBytes : (b : List ℕ) (i : ℕ) → AreBytes b → get_or b i 0 < 256
get_or-AreBytes [] i h = omega arith
get_or-AreBytes (x ∷ b) zero h = h.0
get_or-AreBytes (x ∷ b) (suc i) h = get_or-AreBytes b i h.1

set-AreBytes : (b : List ℕ) (i v : ℕ) → AreBytes b → v < 256 → AreBytes (set b i v)
set-AreBytes [] i v h l = h
set-AreBytes (x ∷ b) zero v h l = (l, h.1)
set-AreBytes (x ∷ b) (suc i) v h l = (h.0, set-AreBytes b i v h.1 l)

pub stamp-AreBytes : (b : List ℕ) → AreBytes b → AreBytes (stamp b)
unfolding stamp
stamp-AreBytes b h =
    let l = get_or-AreBytes b 6 h in
    let h' : AreBytes (set b 6 (version_byte (get_or b 6 0))) =
      set-AreBytes b 6 _ h (omega (arith, version_byte_lem _ l)) in
    set-AreBytes _ 8 _ h' (omega (arith, variant_byte_lem _ (get_or-AreBytes _ 8 h')))
