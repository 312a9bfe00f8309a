-- ===== src/Capture/Wire/Managed.antt =====
-- Which value each metadata key carries on the wire.
use text.Mathlib.Text.{◌==◌ as str_eq}
use text.Mathlib.TextEquality.{eq_iff}
use Prim.Native.String.{String}
use groundcover_go.Base.{
  ◌≡◌, refl, subst, ◌∙◌, ap₂, Bool, true, false, Option, none, some, List, [], ◌∷◌, inl, inr,
  Bool-cases, if◌then◌else◌,
}
use groundcover_go.Base.Int.{pos}
use groundcover_go.Capture.Attributes.{Value, Attributes, string, whole, empty, entry, get, set}
use groundcover_go.Capture.Attributes.Lookup.{first_of, get-set, get-merge}
use groundcover_go.Capture.Event.{Event, severity_number}
use groundcover_go.Capture.Wire.{
  is_session_level_key, is_sdk_managed_key, copy_without, set_if_non_empty, custom_and_resource,
  with_identity, build_metadata,
}

-- The value at a key: of the first row with the key that has one, or else the last argument.
abbrev pub pick : List (String × Option Value) → String → Option Value → Option Value
pick [] k rest = rest
pick ((j, o) ∷ rows) k rest = first_of (if str_eq j k then o else none) (pick rows k rest)

abbrev pub non_empty : String → Option Value
non_empty s = if str_eq s "" then none else some (string s)

-- the keys of the SDK, and their values for an event
abbrev pub managed : Event → List (String × Option Value)
managed e =
    ("gc.title", non_empty e.title)
    ∷ ("severity_number", some (whole (pos (severity_number e.level))))
    ∷ ("level", some (string e.level))
    ∷ ("anonymous_id", non_empty e.anonymous_id)
    ∷ ("session.id", non_empty e.session_id)
    ∷ ("user.organization", non_empty e.user.organization)
    ∷ ("user.name", non_empty e.user.name)
    ∷ ("user.email", non_empty e.user.email)
    ∷ ("user.id", non_empty e.user.id)
    ∷ []

get-copy_without :
    (skip : String → Bool) (a : Attributes) (k : String)
    → get (copy_without skip a) k ≡ (if skip k then none else get a k)
unfolding get copy_without
get-copy_without skip empty k = elim (Bool-cases (skip k)) [ inl e ↦ rw e refl | inr e ↦ rw e refl ]
get-copy_without skip (entry j v a) k = elim (Bool-cases (str_eq j k)) [
  | inl e ↦
      let same = (eq_iff j k).0 e in
      elim (Bool-cases (skip j)) [
        | inl f ↦
            let g : skip k ≡ true = subst (λ x. skip x ≡ true) same f in
            rw (f, get-copy_without skip a k, g) refl
        | inr f ↦ let g : skip k ≡ false = subst (λ x. skip x ≡ false) same f in rw (f, g, e) refl
      ]
  | inr e ↦ elim (Bool-cases (skip j)) [
    | inl f ↦ rw (f, e) (get-copy_without skip a k)
    | inr f ↦ rw (f, e) (get-copy_without skip a k)
  ]
]

pub set_row :
    (md : Attributes) (j k : String) (v : Value) (o : Option Value)
    → get md k ≡ o
    → get (set md j v) k ≡ first_of (if str_eq j k then some v else none) o
set_row md j k v o h =
    get-set md j k v ∙ elim (Bool-cases (str_eq j k)) [ inl e ↦ rw e refl | inr e ↦ rw e h ]

pub row :
    (md : Attributes) (j k v : String) (o : Option Value)
    → get md k ≡ o
    → get (set_if_non_empty md j v) k ≡ first_of (if str_eq j k then non_empty v else none) o
unfolding set_if_non_empty
row md j k v o h = elim (Bool-cases (str_eq v "")) [
  | inl e ↦ rw e (elim (Bool-cases (str_eq j k)) [ inl f ↦ rw f h | inr f ↦ rw f h ])
  | inr e ↦ rw e (set_row md j k (string v) o h)
]

-- A key has the value that the SDK gives it, or else the detected one of the resource, unless it
-- travels with the session, or else the caller's, unless the key is the SDK's.
pub build_metadata_lem :
    (e : Event) (attrs : Attributes) (k : String)
    → get (build_metadata e attrs) k
      ≡ pick (managed e) k (
          first_of
            (if is_session_level_key k then none else get attrs k)
            (if is_sdk_managed_key k then none else get e.attributes k))
unfolding build_metadata with_identity custom_and_resource
build_metadata_lem e attrs k = row _ _ k _ _ (
    set_row _ _ k _ _ (
      set_row _ _ k _ _ (
        row _ _ k _ _ (
          row _ _ k _ _ (
            row _ _ k _ _ (
              row _ _ k _ _ (
                row _ _ k _ _ (
                  row _ _ k _ _ (
                    get-merge _ _ k
                    ∙ ap₂ first_of (get-copy_without is_session_level_key attrs k)
                        (get-copy_without is_sdk_managed_key e.attributes k))))))))))

-- At a key of the SDK the caller's attributes make no difference.
pub caller_overrides_nothing :
    (e : Event) (a attrs : Attributes) (k : String)
    → is_sdk_managed_key k ≡ true
    → get (build_metadata (record e { attributes = a }) attrs) k ≡ get (build_metadata e attrs) k
caller_overrides_nothing e a attrs k h =
    rw (build_metadata_lem (record e { attributes = a }) attrs k, build_metadata_lem e attrs k, h)
      refl
