-- ===== src/Capture/Attributes/Lookup.antt =====
-- What a lookup finds after the changes of an attribute map.
use text.Mathlib.Text.{◌==◌ as str_eq}
use text.Mathlib.TextEquality.{eq_iff}
use Prim.Native.String.{String}
use groundcover_go.Base.{
  ◌≡◌, refl, sym, subst, ◌∙◌, false, Option, none, some, inl, inr, Bool-cases, arith, if◌then◌else◌,
}
use groundcover_go.Capture.Attributes.{Value, Attributes, empty, entry, get, set, merge, clone}

-- the first of two answers
abbrev pub first_of : Option Value → Option Value → Option Value
first_of none o = o
first_of (some v) o = some v

-- Two keys that differ do not both equal a third.
apart :
    (i j k : String) (v w : Value) (o : Option Value)
    → str_eq i j ≡ false
    → (if str_eq i k then some w else (if str_eq j k then some v else o))
      ≡ (if str_eq j k then some v else (if str_eq i k then some w else o))
apart i j k v w o e = ground (arith, eq_iff i k, eq_iff j k, eq_iff i j)

pub get-set :
    (a : Attributes) (j k : String) (v : Value)
    → get (set a j v) k ≡ (if str_eq j k then some v else get a k)
unfolding get set
get-set empty j k v = refl
get-set (entry i w a) j k v = elim (Bool-cases (str_eq i j)) [
  | inl e ↦
      let same = (eq_iff i j).0 e in
      rw e (elim (Bool-cases (str_eq j k)) [
        | inl f ↦ rw f refl
        | inr f ↦
            let g : str_eq i k ≡ false = subst (λ x. str_eq x k ≡ false) (sym same) f in
            rw (f, g) refl
      ])
  | inr e ↦ rw (e, get-set a j k v) (apart i j k v w (get a k) e)
]

-- The entries of the merged map win.
pub get-merge : (a b : Attributes) (k : String) → get (merge a b) k ≡ first_of (get b k) (get a k)
unfolding get merge
get-merge a empty k = refl
get-merge a (entry j v b) k =
    rw (get-set (merge a b) j k v, get-merge a b k)
      (elim (Bool-cases (str_eq j k)) [ inl e ↦ rw e refl | inr e ↦ rw e refl ])

pub get-clone : (a : Attributes) (k : String) → get (clone a) k ≡ get a k
unfolding get
get-clone a k = get-merge empty a k ∙ alone (get a k)
  where
    alone : (o : Option Value) → first_of o none ≡ o
    alone none = refl
    alone (some v) = refl
