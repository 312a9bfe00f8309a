-- ===== src/Capture/Debug.antt =====
-- debug.go: the block of text that a client in debug mode writes for an event, and `writeDebug` of
-- client.go. The text is in bytes, as the code cuts a long value between two bytes. What `%v`
-- prints of a value is a parameter.
pub mod Order
pub mod Sorting
pub mod Shown
use text.Mathlib.Text.{◌==◌ as str_eq}
use Prim.Native.String.{String}
use groundcover_go.Base.{
  ℕ, zero, suc, ◌+◌, ◌-◌, ◌/◌, ◌%◌, Bool, true, false, Option, none, some, List, [], ◌∷◌, ◌++◌, map,
  length, take, ltb, leb, ◌==◌, if◌then◌else◌,
}
use groundcover_go.Capture.Attributes.{Value, Attributes, null, empty, entry, get}
use groundcover_go.Capture.Event.{User, Frame, Event, is_zero}
use groundcover_go.Capture.Debug.Sorting.{sort_strings}
use groundcover_go.Capture.Utf8.{Bytes}
use groundcover_go.Capture.Utf8.Text.{utf8}
use groundcover_go.Guard.{Act, Handler, give, guarded}

abbrev min : ℕ → ℕ → ℕ
min m n = if leb m n then m else n

abbrev pub debug_max_frames : ℕ
debug_max_frames = 8

abbrev pub debug_max_value_len : ℕ
debug_max_value_len = 80

unfoldable pub concat : List Bytes → Bytes
concat [] = []
concat (b ∷ bs) = b ++ concat bs

-- `strings.Join`
unfoldable pub join : Bytes → List Bytes → Bytes
join sep [] = []
join sep (b ∷ []) = b
join sep (b ∷ (c ∷ bs)) = b ++ (sep ++ join sep (c ∷ bs))

-- `%d`: the decimal digits of `n` in front of `s`, `fuel` at most
decimal_from : ℕ → ℕ → Bytes → Bytes
decimal_from zero n s = s
decimal_from (suc fuel) n s =
    let s' = (b'0' + n % 10) ∷ s in
    let rest = decimal_from fuel (n / 10) s' in if n / 10 == 0 then s' else rest

-- An int has 19 digits at most.
pub decimal : ℕ → Bytes
decimal n = decimal_from 19 n []

-- the part of a field, unless it is empty
abbrev pub labelled : String → String → List Bytes
labelled label s = if str_eq s "" then [] else (utf8 label ++ utf8 s) ∷ []

pub user_summary : User → Bytes
user_summary u = join (utf8 " ") (
    labelled "id=" u.id
    ++ labelled "email=" u.email
    ++ labelled "name=" u.name
    ++ labelled "org=" u.organization)

unfoldable pub truncate_value : Bytes → Bytes
truncate_value s =
    if leb (length s) debug_max_value_len then s else take (debug_max_value_len - 1) s ++ utf8 "…"

-- the keys, as the loop over the map finds them
unfoldable pub keys_of : Attributes → List String
keys_of empty = []
keys_of (entry k v a) = k ∷ keys_of a

unfoldable pub is_empty : Attributes → Bool
is_empty empty = true
is_empty (entry k v a) = false

-- `a[k]`; a nil for a key that is not there
abbrev pub index : Attributes → String → Value
index a k = elim (get a k) [ none ↦ null | some v ↦ v ]

module _ (print : Value → Bytes) where
  abbrev pub attribute_part : Attributes → String → Bytes
  attribute_part a k = utf8 k ++ (utf8 "=" ++ truncate_value (print (index a k)))

  unfoldable pub attrs_summary : Attributes → Bytes
  attrs_summary a = join (utf8 " ") (map (attribute_part a) (sort_strings (keys_of a)))

  unfoldable pub frame_line : Frame → Bytes
  frame_line f = concat (
      utf8 "    "
      ∷ utf8 f.function
      ∷ utf8 " ("
      ∷ utf8 f.file
      ∷ utf8 ":"
      ∷ decimal f.line
      ∷ utf8 ")\n"
      ∷ [])

  -- nothing for an empty map
  unfoldable pub attrs_line : Attributes → Bytes
  attrs_line a =
      if is_empty a then [] else concat (utf8 "  attrs: " ∷ attrs_summary a ∷ utf8 "\n" ∷ [])

  -- as many of the frames as are shown, and how many are not
  unfoldable pub stack_lines : List Frame → Bytes
  stack_lines [] = []
  stack_lines (f ∷ frames) =
      let n = length (f ∷ frames) in
      let shown = min n debug_max_frames in
      concat (
        utf8 "  stack:\n"
        ∷ concat (map frame_line (take shown (f ∷ frames)))
        ∷ (if ltb shown n
            then concat (utf8 "    ... " ∷ decimal (n - shown) ∷ utf8 " more\n" ∷ [])
            else [])
        ∷ [])

  unfoldable pub render_debug : Event → Bytes
  render_debug e = concat (
      utf8 "[groundcover] "
      ∷ utf8 e.level
      ∷ utf8 " "
      ∷ utf8 e.type
      ∷ utf8 "  "
      ∷ utf8 e.title
      ∷ utf8 "\n"
      ∷ utf8 "  fingerprint="
      ∷ utf8 e.fingerprint
      ∷ utf8 " handled="
      ∷ utf8 (if e.error_handled then "true" else "false")
      ∷ utf8 "\n"
      ∷ (if is_zero e.user
          then []
          else concat (utf8 "  user: " ∷ user_summary e.user ∷ utf8 "\n" ∷ []))
      ∷ attrs_line e.attributes
      ∷ stack_lines e.stacktrace
      ∷ [])

  -- `writeDebug`, with the client's handler of panics; what the writer returns is dropped
  unfoldable pub write_debug :
      {S V : Type 0} → Option (Bytes → Act S V (Unit {0})) → Handler S V → Event → S → S
  write_debug none h e st = st
  write_debug (some write) h e st = (guarded (write (render_debug e)) h st).1
