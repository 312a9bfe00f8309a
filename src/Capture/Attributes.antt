-- ===== src/Capture/Attributes.antt =====
-- attributes.go: the custom data of an event, and its JSON-friendly snapshot.
-- A Go map is the list of its entries, each key once or its first entry alone, and a nil map is an
-- empty one. What `%v` prints of a value is a parameter.
pub mod Sanitized
pub mod Lookup
pub mod Unordered
use text.Mathlib.Text.{◌==◌ as str_eq}
use Prim.Native.String.{String}
use groundcover_go.Base.{ℕ, ◌+◌, Bool, true, false, Option, none, some, leb, if◌then◌else◌}
use groundcover_go.Base.Int.{ℤ}

mutual
  -- A Go `any`, by the cases of `sanitizeValue` and `sanitizeReflect`. A value that holds itself is
  -- left out. Numbers of every integer type are `whole`, those of both float types are `real`, by the
  -- 64 bits of the value as a float64.
  pub data Value : Type 0 where
    null : Value
    string : String → Value
    bool : Bool → Value
    whole : ℤ → Value
    real : ℕ → Value
    -- a value with an `Error` or a `String` method, by what that returns
    error_value stringer : String → Value
    -- map[string]any, or Attributes
    object : Attributes → Value
    -- []any
    array : Items → Value
    -- slices, arrays and maps of other types, the latter's keys as `%v` prints them
    typed_array : Items → Value
    typed_map : Attributes → Value
    pointer : Value → Value
    null_pointer : Value
    -- structs, channels, functions and the like, by a number
    other : ℕ → Value

  pub data Items : Type 0 where
    end : Items
    item : Value → Items → Items

  pub data Attributes : Type 0 where
    empty : Attributes
    entry : String → Value → Attributes → Attributes

abbrev pub max_attr_depth : ℕ
max_attr_depth = 10

-- `a[key]`, with its comma-ok
unfoldable pub get : Attributes → String → Option Value
get empty k = none
get (entry j v a) k = if str_eq j k then some v else get a k

-- `a[key] = value`
pub set : Attributes → String → Value → Attributes
set empty k v = entry k v empty
set (entry j w a) k v = if str_eq j k then entry k v a else entry j w (set a k v)

-- `a.merge(other)`
pub merge : Attributes → Attributes → Attributes
merge a empty = a
merge a (entry k v b) = set (merge a b) k v

-- `clone` of a map whose values are not shared further
abbrev pub clone : Attributes → Attributes
clone a = merge empty a

module _ (print : Value → String) where
  -- the depth test, in front of what the switch gives
  abbrev pub bounded : ℕ → Value → Value → Value
  bounded depth v out = if leb max_attr_depth depth then string (print v) else out

  unfoldable mutual
    pub sanitize_value : Value → ℕ → Value
    sanitize_value null depth = null
    sanitize_value (string s) depth = bounded depth (string s) (string s)
    sanitize_value (bool b) depth = bounded depth (bool b) (bool b)
    sanitize_value (whole n) depth = bounded depth (whole n) (whole n)
    sanitize_value (real n) depth = bounded depth (real n) (real n)
    sanitize_value (error_value s) depth = bounded depth (error_value s) (string s)
    sanitize_value (stringer s) depth = bounded depth (stringer s) (string s)
    sanitize_value (object a) depth =
        bounded depth (object a) (object (sanitize_entries a (depth + 1)))
    sanitize_value (array vs) depth =
        bounded depth (array vs) (array (sanitize_items vs (depth + 1)))
    sanitize_value (typed_array vs) depth =
        bounded depth (typed_array vs) (array (sanitize_items vs (depth + 1)))
    sanitize_value (typed_map a) depth =
        bounded depth (typed_map a) (object (sanitize_entries a (depth + 1)))
    sanitize_value (pointer v) depth = bounded depth (pointer v) (sanitize_value v depth)
    sanitize_value null_pointer depth = bounded depth null_pointer null
    sanitize_value (other n) depth = bounded depth (other n) (string (print (other n)))

    sanitize_items : Items → ℕ → Items
    sanitize_items end depth = end
    sanitize_items (item v vs) depth = item (sanitize_value v depth) (sanitize_items vs depth)

    sanitize_entries : Attributes → ℕ → Attributes
    sanitize_entries empty depth = empty
    sanitize_entries (entry k v a) depth =
        entry k (sanitize_value v depth) (sanitize_entries a depth)

  pub sanitize_attributes : Attributes → Attributes
  sanitize_attributes a = sanitize_entries a 0
