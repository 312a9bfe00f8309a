-- ===== src/Capture/Debug/Order.antt =====
-- The order of Go's strings, and `sort.Strings`.
use Prim.Native.String.{String, [], ◌∷◌}
use Prim.Native.Char.{code}
use text.Mathlib.TextEquality.{Char-path}
use groundcover_go.Base.{◌≡◌, refl, ap₂, Bool, true, false, ◌&&◌, ◌||◌, ltb, ◌==◌, arith}

-- `s <= t`, by the code points, which is by the bytes of UTF-8
pub before : String → String → Bool
before [] t = true
before (c ∷ s) [] = false
before (c ∷ s) (d ∷ t) = ltb (code c) (code d) || (code c == code d && before s t)

pub before_total : (s t : String) → before s t ≡ false → before t s ≡ true
unfolding before
before_total [] t h = cc
before_total (c ∷ s) [] h = refl
before_total (c ∷ s) (d ∷ t) h = ground (arith, before_total s t)

pub before_antisym : (s t : String) → before s t ≡ true → before t s ≡ true → s ≡ t
unfolding before
before_antisym [] [] h g = refl
before_antisym [] (d ∷ t) h g = cc
before_antisym (c ∷ s) [] h g = cc
before_antisym (c ∷ s) (d ∷ t) h g =
    let same : code c ≡ code d = ground arith in
    let h' : before s t ≡ true = ground arith in
    let g' : before t s ≡ true = ground arith in
    ap₂ (λ x y. x ∷ y) (Char-path c d same) (before_antisym s t h' g')

pub before_trans : (r s t : String) → before r s ≡ true → before s t ≡ true → before r t ≡ true
unfolding before
before_trans [] s t h g = refl
before_trans (b ∷ r) [] t h g = cc
before_trans (b ∷ r) (c ∷ s) [] h g = cc
before_trans (b ∷ r) (c ∷ s) (d ∷ t) h g = ground (arith, before_trans r s t)
