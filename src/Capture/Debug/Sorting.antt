-- ===== src/Capture/Debug/Sorting.antt =====
-- `sort.Strings`, by insertion, and that the order of its input makes no difference.
use Prim.Native.String.{String}
use groundcover_go.Base.{
  ◌≡◌, refl, sym, ap, subst, ◌∙◌, true, false, Bool-cases, inl, inr, List, [], ◌∷◌, if◌then◌else◌,
}
use groundcover_go.Capture.Debug.Order.{before, before_total, before_antisym, before_trans}

pub insert : String → List String → List String
insert k [] = k ∷ []
insert k (x ∷ xs) = if before k x then k ∷ x ∷ xs else x ∷ insert k xs

unfoldable pub sort_strings : List String → List String
sort_strings [] = []
sort_strings (k ∷ keys) = insert k (sort_strings keys)

insert_first :
    (k x : String) (xs : List String) → before k x ≡ true → insert k (x ∷ xs) ≡ k ∷ x ∷ xs
unfolding insert
insert_first k x xs h = rw h refl

insert_later :
    (k x : String) (xs : List String) → before k x ≡ false → insert k (x ∷ xs) ≡ x ∷ insert k xs
unfolding insert
insert_later k x xs h = rw h refl

-- two keys in front of all others, in either order
insert_pair :
    (j k : String) (xs : List String)
    → insert j xs ≡ j ∷ xs
    → insert k xs ≡ k ∷ xs
    → insert j (insert k xs) ≡ insert k (insert j xs)
insert_pair j k xs hj hk =
    rw (hj, hk)
      (elim (Bool-cases (before j k)) [
        | inl e ↦ elim (Bool-cases (before k j)) [
          | inl f ↦ subst (λ x. insert j (x ∷ xs) ≡ insert x (j ∷ xs)) (before_antisym j k e f) refl
          | inr f ↦ insert_first j k xs e ∙ (sym (insert_later k j xs f ∙ ap (λ t. j ∷ t) hk))
        ]
        | inr e ↦
            (insert_later j k xs e ∙ ap (λ t. k ∷ t) hj)
            ∙ sym (insert_first k j xs (before_total j k e))
      ])

-- one key in front of the others, and one behind the first of them
insert_apart :
    (j k x : String) (xs : List String)
    → before j x ≡ true
    → before k x ≡ false
    → insert j (insert k (x ∷ xs)) ≡ insert k (insert j (x ∷ xs))
insert_apart j k x xs h g = elim (Bool-cases (before k j)) [
  | inl e ↦ let no : before k x ≡ true = before_trans k j x e h in cc
  | inr e ↦
      rw (insert_later k x xs g, insert_first j x (insert k xs) h, insert_first j x xs h)
        (sym (insert_later k j (x ∷ xs) e ∙ ap (λ t. j ∷ t) (insert_later k x xs g)))
]

pub insert_comm :
    (j k : String) (xs : List String) → insert j (insert k xs) ≡ insert k (insert j xs)
unfolding insert
insert_comm j k [] = insert_pair j k [] refl refl
insert_comm j k (x ∷ xs) = elim (Bool-cases (before j x)) [
  | inl e ↦ elim (Bool-cases (before k x)) [
    | inl f ↦ insert_pair j k (x ∷ xs) (insert_first j x xs e) (insert_first k x xs f)
    | inr f ↦ insert_apart j k x xs e f
  ]
  | inr e ↦ elim (Bool-cases (before k x)) [
    | inl f ↦ sym (insert_apart k j x xs f e)
    | inr f ↦
        rw
          (
            insert_later k x xs f,
            insert_later j x xs e,
            insert_later j x (insert k xs) e,
            insert_later k x (insert j xs) f,
          )
          (ap (λ t. x ∷ t) (insert_comm j k xs))
  ]
]
