-- ===== src/Capture/Debug/Shown.antt =====
-- What the debug block shows of the attributes and the frames.
use groundcover_go.Base.{
  ℕ, zero, suc, ◌+◌, ◌≤◌, ◌<◌, ◌≡◌, refl, ap, ap₂, ◌∙◌, false, none, some, List, [], ◌∷◌, ◌++◌, map,
  arith, length, take, leb, length-append,
}
use groundcover_go.Capture.Attributes.{Value, Attributes, null}
use groundcover_go.Capture.Attributes.Unordered.{
  Reordered, as_is, swapped, behind, and_then, Reordered-SameMap,
}
use groundcover_go.Capture.Debug.{
  debug_max_value_len, keys_of, attribute_part, attrs_summary, attrs_line, truncate_value,
  render_debug, is_empty, join,
}
use groundcover_go.Capture.Debug.Sorting.{insert, insert_comm, sort_strings}
use groundcover_go.Capture.Event.{Event}
use groundcover_go.Capture.Utf8.{Bytes, utf8_char}
use groundcover_go.Capture.Utf8.Text.{utf8}

sorted_keys :
    {a b : Attributes} → Reordered a b → sort_strings (keys_of a) ≡ sort_strings (keys_of b)
unfolding keys_of sort_strings
sorted_keys (as_is a) = refl
sorted_keys (swapped j k v w a ne) = insert_comm j k (sort_strings (keys_of a))
sorted_keys (behind k v r) = ap (insert k) (sorted_keys r)
sorted_keys (and_then r q) = sorted_keys r ∙ sorted_keys q

map_same : {A B : Type 0} (f g : A → B) (xs : List A) → ((x : A) → f x ≡ g x) → map f xs ≡ map g xs
map_same f g [] h = refl
map_same f g (x ∷ xs) h = ap₂ ◌∷◌ (h x) (map_same f g xs h)

is_empty-Reordered : {a b : Attributes} → Reordered a b → is_empty a ≡ is_empty b
unfolding is_empty
is_empty-Reordered (as_is a) = refl
is_empty-Reordered (swapped j k v w a ne) = refl
is_empty-Reordered (behind k v r) = refl
is_empty-Reordered (and_then r q) = is_empty-Reordered r ∙ is_empty-Reordered q

module _ (print : Value → Bytes) where
  attrs_summary-Reordered :
      {a b : Attributes} → Reordered a b → attrs_summary print a ≡ attrs_summary print b
  unfolding attrs_summary
  attrs_summary-Reordered {a} {b} r =
      ap (λ ps. join (utf8 " ") ps)
        (map_same _ _ _ (λ k.
            ap
              (λ o.
                utf8 k
                ++ (utf8 "=" ++ truncate_value (print (elim o [ none ↦ null | some v ↦ v ]))))
              (Reordered-SameMap r k))
          ∙ ap (map (attribute_part print b)) (sorted_keys r))

  -- An event with its attributes in two orders of the map has one debug block: the keys are sorted.
  pub render_debug-Reordered :
      (e : Event) {a b : Attributes}
      → Reordered a b
      → render_debug print (record e { attributes = a })
        ≡ render_debug print (record e { attributes = b })
  unfolding render_debug attrs_line
  render_debug-Reordered e r = rw (is_empty-Reordered r, attrs_summary-Reordered r) refl

length-take : (n : ℕ) (s : Bytes) → n ≤ length s → length (take n s) ≡ n
length-take zero s h = refl
length-take (suc n) [] h = omega arith
length-take (suc n) (c ∷ s) h = ap suc (length-take n s (omega arith))

take_front : (n : ℕ) (s t : Bytes) → n ≤ length s → take n (take n s ++ t) ≡ take n s
take_front zero s t h = refl
take_front (suc n) [] t h = ground arith
take_front (suc n) (c ∷ s) t h = ap (λ x. c ∷ x) (take_front n s t (omega arith))

ellipsis : length (utf8 "…") ≡ 3
unfolding utf8 utf8_char
ellipsis = refl

-- A value of more than 80 bytes is shown with 82: its first 79, and the three of the ellipsis.
pub long_values :
    (s : Bytes)
    → debug_max_value_len < length s
    → (length (truncate_value s) ≡ debug_max_value_len + 2)
      × (take 79 (truncate_value s) ≡ take 79 s)
unfolding truncate_value
long_values s h =
    let off : leb (length s) debug_max_value_len ≡ false = ground arith in
    rw off (
      omega (arith, length-append (take 79 s) (utf8 "…"), length-take 79 s (omega arith), ellipsis),
      take_front 79 s (utf8 "…") (omega arith),
    )
