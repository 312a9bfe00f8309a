-- ===== src/Capture/ErrorType/Innermost.antt =====
-- errors.go: the type that is reported for a wrapped error.
use groundcover_go.Base.{
  ℕ, zero, suc, ◌+◌, ◌≡◌, refl, sym, ap, subst, ◌∙◌, ◌⊎◌, inl, inr, ◌≢◌, List, [], ◌∷◌, ◌++◌,
  Option, none, some, ◌==◌, ==_iff, Bool-cases, replicate, drop, take, arith,
}
use groundcover_go.Capture.ErrorType.{
  GoType, pointer_to, named, Own, Error, Errors, plain, wraps, wraps_nil, joins, no_errors,
  then_nil, then_error, innermost_error, own, later, last_index_byte, after, last_path_segment,
  type_name_from, type_name, error_type, bare_name, typed,
}

-- a layer of wrapping: one error, or several of which the first one is not nil
pub data Layer : Type 0 where
  single : Own → Layer
  multi : Own → Errors → Layer

abbrev pub wrap : List Layer → Error → Error
wrap [] e = e
wrap (single o ∷ ls) e = wraps o (wrap ls e)
wrap (multi o rest ∷ ls) e = joins o (then_error (wrap ls e) rest)

abbrev pub pointers : ℕ → GoType → GoType
pointers zero t = t
pointers (suc n) t = pointer_to (pointers n t)

abbrev pub Free : List ℕ → ℕ → Type 0
Free [] c = Unit {0}
Free (x ∷ xs) c = (x ≢ c) × Free xs c

-- what follows the last slash
pub data LastSegment : List ℕ → List ℕ → Type 0 where
  whole : (p : List ℕ) → Free p b'/' → LastSegment p p
  rest : (dir seg : List ℕ) → Free seg b'/' → LastSegment (dir ++ (b'/' ∷ seg)) seg

cons_rest : (x : ℕ) {p seg : List ℕ} → LastSegment p seg → p ≢ seg → LastSegment (x ∷ p) seg
cons_rest x (whole p f) ne = absurd (ne refl)
cons_rest x (rest dir seg f) ne = rest (x ∷ dir) seg f

-- where there is no slash, and where the last one stands
Split : List ℕ → Option ℕ → Type 0
Split p none = Free p b'/'
Split p (some i) = (p ≡ take i p ++ (b'/' ∷ drop (suc i) p)) × Free (drop (suc i) p) b'/'

last_index_byte-Split : (p : List ℕ) → Split p (last_index_byte p b'/')
unfolding Split last_index_byte
last_index_byte-Split [] = tt
last_index_byte-Split (x ∷ p) = extend x p (last_index_byte p b'/') (last_index_byte-Split p)
  where
    extend :
        (x : ℕ) (p : List ℕ) (at : Option ℕ) → Split p at → Split (x ∷ p) (later at (x == b'/'))
    extend x p none h = elim (Bool-cases (x == b'/')) [
      | inl e ↦ rw e (ap (λ c. c ∷ p) ((==_iff x b'/').0 e), h)
      | inr e ↦ rw e ((λ q. ground arith), h)
    ]
    extend x p (some i) h = (ap (λ t. x ∷ t) h.0, h.1)

last_path_segment-LastSegment : (p : List ℕ) → LastSegment p (last_path_segment p)
unfolding last_path_segment Split
last_path_segment-LastSegment p = at_split p (last_index_byte p b'/') (last_index_byte-Split p)
  where
    at_split : (p : List ℕ) (at : Option ℕ) → Split p at → LastSegment p (after at p)
    at_split p none h = whole p h
    at_split p (some i) h =
        subst (λ q. LastSegment q (drop (suc i) p)) (sym h.0) (rest (take i p) (drop (suc i) p) h.1)

type_name_from-pointers :
    (stars n : ℕ) (name pkg str : List ℕ)
    → type_name_from stars (pointers n (named name pkg str))
      ≡ replicate (stars + n) b'*' ++ bare_name name pkg str
unfolding type_name_from
type_name_from-pointers stars zero name pkg str =
    ap (λ k. replicate k b'*' ++ bare_name name pkg str) {x = stars} (omega arith)
type_name_from-pointers stars (suc n) name pkg str =
    type_name_from-pointers (suc stars) n name pkg str
    ∙ ap (λ k. replicate k b'*' ++ bare_name name pkg str) {x = suc stars + n} (omega arith)

type_name_of :
    (n c d : ℕ) (name pkg str : List ℕ)
    → type_name (pointers n (named (c ∷ name) (d ∷ pkg) str))
      ≡ replicate n b'*' ++ (last_path_segment (d ∷ pkg) ++ (b'.' ∷ c ∷ name))
unfolding type_name
type_name_of n c d name pkg str =
    type_name_from-pointers 0 n (c ∷ name) (d ∷ pkg) str
    ∙ ap (λ k. replicate k b'*' ++ bare_name (c ∷ name) (d ∷ pkg) str) {y = n} (omega arith)

-- the type reported for the error of `o`, however it is wrapped
pub record Reported (o : Own) (reported : List ℕ) : Type 0 where
  pub override : (t : List ℕ) → o.error_type ≡ some t → t ≢ [] → reported ≡ t
  pub reflected :
      (n c d : ℕ) (name pkg str : List ℕ)
      → ((o.error_type ≡ none) ⊎ (o.error_type ≡ some []))
      → o.go_type ≡ pointers n (named (c ∷ name) (d ∷ pkg) str)
      → (seg : List ℕ) × LastSegment (d ∷ pkg) seg
        × (reported ≡ replicate n b'*' ++ (seg ++ (b'.' ∷ c ∷ name)))

-- an error that wraps nothing: without `Unwrap`, with one that gives nil, or with no branch
pub data Leaf (o : Own) : Error → Type 0 where
  alone : Leaf o (plain o)
  no_cause : Leaf o (wraps_nil o)
  no_branch : Leaf o (joins o no_errors)

-- the type that is reported, by what the layers of an error lead to
pub data Classified (reported : List ℕ) : Error → Type 0 where
  at_leaf :
      (ls : List Layer) (o : Own) {e : Error}
      → Leaf o e
      → Reported o reported
      → Classified reported (wrap ls e)
  at_nil :
      (ls : List Layer) (o : Own) (more : Errors)
      → reported ≡ b'e' ∷ b'r' ∷ b'r' ∷ b'o' ∷ b'r' ∷ []
      → Classified reported (wrap ls (joins o (then_nil more)))

under_single : (t : List ℕ) (o : Own) {e : Error} → Classified t e → Classified t (wraps o e)
under_single t o (at_leaf ls p l r) = at_leaf (single o ∷ ls) p l r
under_single t o (at_nil ls p others r) = at_nil (single o ∷ ls) p others r

under_multi :
    (t : List ℕ) (o : Own) (more : Errors) {e : Error}
    → Classified t e
    → Classified t (joins o (then_error e more))
under_multi t o more (at_leaf ls p l r) = at_leaf (multi o more ∷ ls) p l r
under_multi t o more (at_nil ls p others r) = at_nil (multi o more ∷ ls) p others r

typed-Reported : (o : Own) → Reported o (typed o.error_type o.go_type)
typed-Reported o = record {
  override = λ t e ne. rw e (typed_set t o.go_type ne);
  reflected = λ n c d name pkg str unset e. (
    last_path_segment (d ∷ pkg),
    last_path_segment-LastSegment (d ∷ pkg),
    rw e (typed_unset o.error_type _ unset ∙ type_name_of n c d name pkg str),
  );
}
  where
    typed_set : (t : List ℕ) (g : GoType) → t ≢ [] → typed (some t) g ≡ t
    typed_set [] g ne = absurd (ne refl)
    typed_set (c ∷ t) g ne = refl

    typed_unset :
        (a : Option (List ℕ)) (g : GoType) → ((a ≡ none) ⊎ (a ≡ some [])) → typed a g ≡ type_name g
    typed_unset a g (inl e) = rw e refl
    typed_unset a g (inr e) = rw e refl

-- Under layers of wrapping, single ones and such of several errors whose first is followed, every
-- error has at its end one that wraps nothing, having no `Unwrap`, a nil cause or no branch, or else
-- a nil first branch. A nil branch is reported as "error". An error that wraps nothing is reported
-- by what it is itself, whatever the layers and the other branches say: by the text of its own
-- `ErrorType` method where that is not empty; else, for a type with a name, in a package, under n
-- pointers, by n stars, the last segment of the package's path, a dot and the name.
pub error_type-Classified : (e : Error) → Classified (error_type (some e)) e
unfolding error_type innermost_error own
error_type-Classified (plain o) = at_leaf [] o alone (typed-Reported o)
error_type-Classified (wraps_nil o) = at_leaf [] o no_cause (typed-Reported o)
error_type-Classified (joins o no_errors) = at_leaf [] o no_branch (typed-Reported o)
error_type-Classified (joins o (then_nil more)) = at_nil [] o more refl
error_type-Classified (wraps o e) = under_single _ o (error_type-Classified e)
error_type-Classified (joins o (then_error e more)) = under_multi _ o more (error_type-Classified e)
