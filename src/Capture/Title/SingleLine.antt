-- ===== src/Capture/Title/SingleLine.antt =====
-- The form of a display title.
use Prim.Native.String.{String, [], ◌∷◌, count}
use Prim.Native.Char.{code}
use text.Mathlib.TextLemmas.{length-append, length-nil, length-cons}
use groundcover_go.Base.{
  ℕ, zero, suc, ◌-◌, ◌≤◌, ◌<◌, ◌≡◌, refl, ap, Bool, true, false, not, ◌&&◌, inl, inr, Bool-cases,
  arith, leb, ◌==◌, if◌then◌else◌,
}
use groundcover_go.Capture.Event.{Event}
use groundcover_go.Capture.Title.{
  is_space, collapse_from, collapse_whitespace, take_runes, truncate_title, max_title_len,
  title_for,
}

-- The white space of a text is single spaces, none at the end, and none first if `after_space`.
pub tidy_after : Bool → String → Bool
tidy_after after_space [] = not after_space
tidy_after after_space (c ∷ s) =
    if is_space c
    then (code c == 32 && not after_space) && tidy_after true s
    else tidy_after false s

-- nothing, or words with single spaces between
pub tidy : String → Bool
tidy [] = true
tidy (c ∷ s) = tidy_after true (c ∷ s)

-- the characters that are no white space
pub ink : String → String
ink [] = []
ink (c ∷ s) = if is_space c then ink s else c ∷ ink s

space-is_space : is_space " " ≡ true
unfolding is_space
space-is_space = refl

collapse_from_tidy :
    (in_space : Bool) (s : String) → tidy_after false (collapse_from in_space true s) ≡ true
unfolding tidy_after collapse_from
collapse_from_tidy in_space [] = refl
collapse_from_tidy in_space (c ∷ s) = elim (Bool-cases (is_space c)) [
  | inl e ↦ rw e (collapse_from_tidy true s)
  | inr e ↦ elim (Bool-cases in_space) [
    | inl f ↦ rw (e, f, space-is_space, e) (collapse_from_tidy false s)
    | inr f ↦ rw (e, f, e) (collapse_from_tidy false s)
  ]
]

collapse_from-tidy : (in_space : Bool) (s : String) → tidy (collapse_from in_space false s) ≡ true
unfolding tidy tidy_after collapse_from
collapse_from-tidy in_space [] = refl
collapse_from-tidy in_space (c ∷ s) = elim (Bool-cases (is_space c)) [
  | inl e ↦ rw e (collapse_from-tidy true s)
  | inr e ↦ elim (Bool-cases in_space) [
    | inl f ↦ rw (e, f, e) (collapse_from_tidy false s)
    | inr f ↦ rw (e, f, e) (collapse_from_tidy false s)
  ]
]

collapse_from-ink :
    (in_space started : Bool) (s : String) → ink (collapse_from in_space started s) ≡ ink s
unfolding ink collapse_from
collapse_from-ink in_space started [] = refl
collapse_from-ink in_space started (c ∷ s) = elim (Bool-cases (is_space c)) [
  | inl e ↦ rw e (collapse_from-ink true started s)
  | inr e ↦ elim (Bool-cases (in_space && started)) [
    | inl f ↦ rw (e, f, space-is_space, e) (ap (λ t. c ∷ t) (collapse_from-ink false true s))
    | inr f ↦ rw (e, f, e) (ap (λ t. c ∷ t) (collapse_from-ink false true s))
  ]
]

-- The collapsed text has no white space but single spaces between words, and all else of the text in
-- order.
pub collapse_whitespace_lem :
    (s : String) → (tidy (collapse_whitespace s) ≡ true) × (ink (collapse_whitespace s) ≡ ink s)
unfolding collapse_whitespace
collapse_whitespace_lem s = (collapse_from-tidy false s, collapse_from-ink false false s)

count-take_runes : (n : ℕ) (s : String) → count (take_runes n s) ≤ n
count-take_runes zero s = rw length-nil (omega arith)
count-take_runes (suc n) [] = rw length-nil (omega arith)
count-take_runes (suc n) (c ∷ s) =
    omega (arith, length-cons c (take_runes n s), count-take_runes n s)

count-truncate_title-le : (s : String) (n : ℕ) → 1 < n → count (truncate_title s n) ≤ n
unfolding truncate_title
count-truncate_title-le s n h = elim (Bool-cases (leb (count s) n)) [
  | inl e ↦ let many : (n == 0) ≡ false = ground arith in rw (many, e) (ground arith)
  | inr e ↦
      let many : (n == 0) ≡ false = ground arith in
      let more : (n == 1) ≡ false = ground arith in
      let short = count-take_runes (n - 1) s in
      rw (many, e, more, length-append (take_runes (n - 1) s) "…") (omega arith)
]

-- A title has 256 characters at most.
pub title_for-le : (e : Event) → count (title_for e) ≤ max_title_len
unfolding title_for
title_for-le e = count-truncate_title-le _ max_title_len (omega arith)
