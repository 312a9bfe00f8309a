-- ===== src/Capture/Attributes/Unordered.antt =====
-- A Go map as a value: the list of its entries without their order, which a loop over the map may
-- visit in any way.
use mathlib.Core.Quot
use mathlib.Core.Quot.{Quot, Quot-set}
use text.Mathlib.Text.{◌==◌ as str_eq}
use text.Mathlib.TextEquality.{IsScalar-prop, eq_iff}
use Prim.Native.String.{String}
use groundcover_go.Base.{ℕ, ◌≡◌, refl, sym, ap, ap₂, ◌∙◌, false, Option, some, arith, if◌then◌else◌}
use groundcover_go.Capture.Attributes.{
  Value, Attributes, entry, get, merge, sanitize_value, sanitize_entries, sanitize_attributes,
}
use groundcover_go.Capture.Attributes.Lookup.{first_of, get-merge}

-- Two lists of entries hold the same map.
abbrev pub SameMap : Attributes → Attributes → Type 0
SameMap a b = (k : String) → get a k ≡ get b k

abbrev pub GoMap : Type 0
GoMap = Quot SameMap

map_set : IsSet GoMap
map_set = Quot-set

abbrev pub of_entries : Attributes → GoMap
of_entries a = Quot.mk a

answer_set : IsSet (Option Value)
answer_set = hlevel IsScalar-prop

pub lookup : GoMap → String → Option Value
lookup m k = Quot.lift answer_set (λ a. get a k) (λ a b h. h k) m

-- A map is what its lookups find.
pub GoMap-ext : (m n : GoMap) → ((k : String) → lookup m k ≡ lookup n k) → m ≡ n
unfolding lookup
GoMap-ext =
    Quot.ind (λ m. hlevel map_set) (λ a. Quot.ind (λ n. hlevel map_set) (λ b h. Quot.sound h))

-- the entries of a map in another order: two neighbours of different keys change places, any
-- number of times
pub data Reordered : Attributes → Attributes → Type 0 where
  as_is : (a : Attributes) → Reordered a a
  swapped :
      (j k : String) (v w : Value) (a : Attributes)
      → str_eq j k ≡ false
      → Reordered (entry j v (entry k w a)) (entry k w (entry j v a))
  behind :
      (k : String) (v : Value) {a b : Attributes}
      → Reordered a b
      → Reordered (entry k v a) (entry k v b)
  and_then : {a b c : Attributes} → Reordered a b → Reordered b c → Reordered a c

pub Reordered-SameMap : {a b : Attributes} → Reordered a b → SameMap a b
unfolding get
Reordered-SameMap (as_is a) x = refl
Reordered-SameMap (swapped j k v w a ne) x = ground (arith, eq_iff j k, eq_iff j x, eq_iff k x)
Reordered-SameMap (behind k v r) x =
    ap (λ o. if str_eq k x then some v else o) (Reordered-SameMap r x)
Reordered-SameMap (and_then r q) x = Reordered-SameMap r x ∙ Reordered-SameMap q x

-- The snapshots, and the merges with a third map on either side, are the same maps.
sanitize-Reordered :
    (print : Value → String) {a b : Attributes}
    → Reordered a b
    → (depth : ℕ) → Reordered (sanitize_entries print a depth) (sanitize_entries print b depth)
unfolding sanitize_value
sanitize-Reordered print (as_is a) depth = as_is _
sanitize-Reordered print (swapped j k v w a ne) depth = swapped j k _ _ _ ne
sanitize-Reordered print (behind k v r) depth = behind k _ (sanitize-Reordered print r depth)
sanitize-Reordered print (and_then r q) depth =
    and_then (sanitize-Reordered print r depth) (sanitize-Reordered print q depth)

pub snapshot-Reordered :
    (print : Value → String) {a b : Attributes}
    → Reordered a b
    → Reordered (sanitize_attributes print a) (sanitize_attributes print b)
unfolding sanitize_attributes
snapshot-Reordered print r = sanitize-Reordered print r 0

pub merge-SameMap :
    (a b c d : Attributes) → SameMap a b → SameMap c d → SameMap (merge a c) (merge b d)
merge-SameMap a b c d h g k = get-merge a c k ∙ ap₂ first_of (g k) (h k) ∙ sym (get-merge b d k)
