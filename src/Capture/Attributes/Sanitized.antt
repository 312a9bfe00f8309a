-- ===== src/Capture/Attributes/Sanitized.antt =====
-- What `sanitizeAttributes` guarantees of the snapshot that is queued.
use Prim.Native.String.{String}
use groundcover_go.Base.{
  ℕ, zero, suc, ◌+◌, ◌≤◌, ◌≡◌, refl, Bool, true, false, ◌&&◌, arith, leb, inl, inr, Bool-cases, not,
  ◌/◌, ◌%◌, ◌^◌, ◌==◌,
}
use groundcover_go.Capture.Attributes.{
  Value, Items, Attributes, null, string, bool, whole, real, error_value, stringer, object, array,
  typed_array, typed_map, pointer, null_pointer, other, end, item, empty, entry, max_attr_depth,
  bounded, sanitize_value, sanitize_items, sanitize_entries, sanitize_attributes,
}

-- neither an infinity nor NaN, whose eleven bits of the exponent are all set
abbrev pub is_finite : ℕ → Bool
is_finite bits = not (bits / 2 ^ 52 % 2 ^ 11 == 2047)

unfoldable mutual
  -- every number of a float type, at any depth, is finite
  pub finite : Value → Bool
  finite (real n) = is_finite n
  finite (object a) = finite_entries a
  finite (array vs) = finite_items vs
  finite (typed_array vs) = finite_items vs
  finite (typed_map a) = finite_entries a
  finite (pointer v) = finite v
  finite _ = true

  finite_items : Items → Bool
  finite_items end = true
  finite_items (item v vs) = finite v && finite_items vs

  pub finite_entries : Attributes → Bool
  finite_entries empty = true
  finite_entries (entry k v a) = finite v && finite_entries a

mutual
  -- JSON values alone, in at most `room` levels of objects and arrays
  pub json : ℕ → Value → Bool
  json room null = true
  json room (string _) = true
  json room (bool _) = true
  json room (whole _) = true
  json room (real n) = is_finite n
  json zero (object a) = false
  json (suc room) (object a) = json_entries room a
  json zero (array vs) = false
  json (suc room) (array vs) = json_items room vs
  json room _ = false

  json_items : ℕ → Items → Bool
  json_items room end = true
  json_items room (item v vs) = json room v && json_items room vs

  pub json_entries : ℕ → Attributes → Bool
  json_entries room empty = true
  json_entries room (entry k v a) = json room v && json_entries room a

module _ (print : Value → String) where
  bounded-json :
      (depth room : ℕ) (v out : Value)
      → json room out ≡ true
      → json room (bounded print depth v out) ≡ true
  unfolding json
  bounded-json depth room v out h = elim (Bool-cases (leb max_attr_depth depth)) [
    | inl e ↦ rw e refl
    | inr e ↦ rw e h
  ]

  -- Past the last level a value is printed.
  printed-json :
      (depth room : ℕ) (v out : Value)
      → max_attr_depth ≤ depth
      → json room (bounded print depth v out) ≡ true
  unfolding json
  printed-json depth room v out h =
      let deep : leb max_attr_depth depth ≡ true = ground arith in rw deep refl

  mutual
    unfolding sanitize_value json finite

    pub sanitize_value-json :
        (v : Value) (depth room : ℕ)
        → max_attr_depth ≤ depth + room
        → finite v ≡ true
        → json room (sanitize_value print v depth) ≡ true
    sanitize_value-json null depth room h f = refl
    sanitize_value-json (string s) depth room h f =
        bounded-json depth room (string s) (string s) refl
    sanitize_value-json (bool b) depth room h f = bounded-json depth room (bool b) (bool b) refl
    sanitize_value-json (whole n) depth room h f = bounded-json depth room (whole n) (whole n) refl
    sanitize_value-json (real n) depth room h f = bounded-json depth room (real n) (real n) f
    sanitize_value-json (error_value s) depth room h f =
        bounded-json depth room (error_value s) (string s) refl
    sanitize_value-json (stringer s) depth room h f =
        bounded-json depth room (stringer s) (string s) refl
    sanitize_value-json (other n) depth room h f =
        bounded-json depth room (other n) (string (print (other n))) refl
    sanitize_value-json null_pointer depth room h f = bounded-json depth room null_pointer null refl
    sanitize_value-json (object a) depth zero h f =
        printed-json depth 0 (object a) (object (sanitize_entries print a (depth + 1)))
          (omega arith)
    sanitize_value-json (object a) depth (suc room) h f =
        bounded-json depth (suc room) (object a) (object (sanitize_entries print a (depth + 1)))
          (sanitize_entries-json a (depth + 1) room (omega arith) f)
    sanitize_value-json (array a) depth zero h f =
        printed-json depth 0 (array a) (array (sanitize_items print a (depth + 1))) (omega arith)
    sanitize_value-json (array a) depth (suc room) h f =
        bounded-json depth (suc room) (array a) (array (sanitize_items print a (depth + 1)))
          (sanitize_items-json a (depth + 1) room (omega arith) f)
    sanitize_value-json (typed_array a) depth zero h f =
        printed-json depth 0 (typed_array a) (array (sanitize_items print a (depth + 1)))
          (omega arith)
    sanitize_value-json (typed_array a) depth (suc room) h f =
        bounded-json depth (suc room) (typed_array a) (array (sanitize_items print a (depth + 1)))
          (sanitize_items-json a (depth + 1) room (omega arith) f)
    sanitize_value-json (typed_map a) depth zero h f =
        printed-json depth 0 (typed_map a) (object (sanitize_entries print a (depth + 1)))
          (omega arith)
    sanitize_value-json (typed_map a) depth (suc room) h f =
        bounded-json depth (suc room) (typed_map a) (object (sanitize_entries print a (depth + 1)))
          (sanitize_entries-json a (depth + 1) room (omega arith) f)
    sanitize_value-json (pointer v) depth room h f =
        bounded-json depth room (pointer v) _ (sanitize_value-json v depth room h f)

    sanitize_items-json :
        (vs : Items) (depth room : ℕ)
        → max_attr_depth ≤ depth + room
        → finite_items vs ≡ true
        → json_items room (sanitize_items print vs depth) ≡ true
    sanitize_items-json end depth room h f = refl
    sanitize_items-json (item v vs) depth room h f =
        rw (sanitize_value-json v depth room h (ground arith))
          (sanitize_items-json vs depth room h (ground arith))

    sanitize_entries-json :
        (a : Attributes) (depth room : ℕ)
        → max_attr_depth ≤ depth + room
        → finite_entries a ≡ true
        → json_entries room (sanitize_entries print a depth) ≡ true
    sanitize_entries-json empty depth room h f = refl
    sanitize_entries-json (entry k v a) depth room h f =
        rw (sanitize_value-json v depth room h (ground arith))
          (sanitize_entries-json a depth room h (ground arith))

  -- Where every number of a float type is finite, whatever else the attributes hold, their snapshot
  -- holds texts, Booleans, finite numbers, nulls, objects and arrays alone, in at most ten levels of
  -- objects and arrays.
  pub sanitize_attributes-json :
      (a : Attributes)
      → finite_entries a ≡ true
      → json_entries 10 (sanitize_attributes print a) ≡ true
  unfolding sanitize_attributes
  sanitize_attributes-json a f = sanitize_entries-json a 0 10 (omega arith) f
