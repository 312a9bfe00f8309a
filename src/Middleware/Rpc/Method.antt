-- ===== src/Middleware/Rpc/Method.antt =====
-- The names of a gRPC method: the text `/service/method` and its two parts.
use Prim.Native.Nat.{Ordering}
use Prim.Native.Char.{code, len_utf8}
use Prim.Native.String.append
use Prim.Native.String.find
use Prim.Native.String.len
use Prim.Native.String.{String, [], ◌∷◌, ◌++◌, len, slice, find, same}
use text.Mathlib.Text.{starts_with, find?, is_le}
use text.Mathlib.TextPositions.{
  NotGt, not-gt-add, len-append, slice-append_left, slice-append_right, starts_with_of_prefix,
}
use text.Mathlib.TextLemmas.{append_assoc}
use groundcover_go.Base.{
  ℕ, ◌+◌, ◌≡◌, refl, sym, ap, ap₂, ◌∙◌, Bool, true, false, not, ◌&&◌, some, ◌==◌, arith,
}
use groundcover_go.Middleware.Rpc.{parse_full_method}

pub full_name : String → String → String
full_name service method = "/" ∷ (service ++ ("/" ∷ method))

unfoldable pub no_slash : String → Bool
no_slash [] = true
no_slash (c ∷ s) = not (code c == 47) && no_slash s

same_other :
    (o : Ordering) (n : ℕ)
    → elim o [ Ordering.lt ↦ false | Ordering.eq ↦ true | Ordering.gt ↦ false ] ≡ false
    → same o 0 n ≡ n
same_other Ordering.lt n h = refl
same_other Ordering.eq n h = cc
same_other Ordering.gt n h = refl

find-no_slash : (s m : String) → no_slash s ≡ true → find (s ++ ("/" ∷ m)) "/" ≡ len s
unfolding no_slash
find-no_slash [] m h =
    ap (λ t. find t "/") (append.nil ("/" ∷ m)) ∙ (find.cons "/" m "/" ∙ sym len.nil)
find-no_slash (c ∷ s) m h =
    let other : (code c == 47) ≡ false = ground arith in
    let rest : no_slash s ≡ true = ground arith in
    ap (λ t. find t "/") (append.cons c s ("/" ∷ m))
    ∙ find.cons c (s ++ ("/" ∷ m)) "/"
    ∙ same_other _ _ other
    ∙ ap (λ n. len_utf8 c + n) (find-no_slash s m rest)
    ∙ sym (len.cons c s)

-- one slash in front
slash_front : (t : String) → "/" ++ t ≡ "/" ∷ t
slash_front t = append.cons "/" [] t ∙ ap (λ u. "/" ∷ u) (append.nil t)

len-slash : (t : String) → len ("/" ∷ t) ≡ 1 + len t
len-slash t = len.cons "/" t

slice-slash : (t : String) → slice ("/" ∷ t) 1 (len ("/" ∷ t)) ≡ t
slice-slash t =
    ap₂ (λ u n. slice u 1 n) (sym (slash_front t)) (len-slash t) ∙ slice-append_right "/" t

starts_with-slash : (t : String) → starts_with ("/" ∷ t) "/" ≡ true
starts_with-slash t = starts_with_of_prefix "/" ("/" ∷ t) (t, slash_front t)

full_name-slash : (s m : String) → starts_with (full_name s m) "/" ≡ true
unfolding full_name
full_name-slash s m = starts_with-slash (s ++ ("/" ∷ m))

full_name-name : (s m : String) → slice (full_name s m) 1 (len (full_name s m)) ≡ s ++ ("/" ∷ m)
unfolding full_name
full_name-name s m = slice-slash (s ++ ("/" ∷ m))

len-name : (s m : String) → len (s ++ ("/" ∷ m)) ≡ len s + (1 + len m)
len-name s m = len-append s ("/" ∷ m) ∙ ap (λ n. len s + n) (len-slash m)

is_le_of : (o : Ordering) → NotGt o → is_le o ≡ true
is_le_of Ordering.lt h = refl
is_le_of Ordering.eq h = refl
is_le_of Ordering.gt h = absurd h

find?-name : (s m : String) → no_slash s ≡ true → find? (s ++ ("/" ∷ m)) "/" ≡ some (len s)
find?-name s m h =
    rw (find-no_slash s m h, len-name s m, is_le_of _ (not-gt-add (len s) (1 + len m))) refl

slice-method : (s m : String) → slice (s ++ ("/" ∷ m)) (len s + 1) (len (s ++ ("/" ∷ m))) ≡ m
slice-method s m =
    let joined : (s ++ "/") ++ m ≡ s ++ ("/" ∷ m) =
      append_assoc s "/" m ∙ ap (λ t. s ++ t) (slash_front m) in
    ap₂ (λ u n. slice u (len s + 1) n) (sym joined) (len-name s m ∙ omega arith)
    ∙ ap (λ k. slice ((s ++ "/") ++ m) k (k + len m)) (sym (len-append s "/"))
    ∙ slice-append_right (s ++ "/") m

-- A service without a slash and a method, joined as gRPC does, are found again.
pub parse_full_method-full_name :
    (service method : String)
    → no_slash service ≡ true
    → parse_full_method (full_name service method) ≡ (service, method)
unfolding parse_full_method
parse_full_method-full_name s m h =
    rw (full_name-slash s m, full_name-name s m, find?-name s m h, full_name-name s m)
      (ap₂ (λ x y. (x, y)) (slice-append_left s ("/" ∷ m)) (slice-method s m))
