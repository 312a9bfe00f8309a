-- ===== src/Ring/Feed.antt =====
-- Several calls of `Push`, one after another.
use groundcover_go.Base.{
  ℕ, ◌+◌, ◌^◌, ◌<◌, ◌≡◌, sym, ap, ap₂, subst, ◌∙◌, List, [], ◌∷◌, ◌++◌, drop, drop-drop,
  drop-append, append_assoc, append-nil, map, arith,
}
use groundcover_go.Base.Int.{ℤ}
use groundcover_go.Ring.{Buffer, HasZero, clamp_size, push}
use groundcover_go.Ring.Core.{contents}
use groundcover_go.Ring.Frame.{Same, Same-refl, Same-trans, Same-push}
use groundcover_go.Ring.Inv.{IsValid}
use groundcover_go.Ring.Push.{push_lem, with_new}
use groundcover_go.Ring.Weight.{push-Entered}

module _ {T : Type 0} where
  -- values of sizes far below 2 ^ 63
  unfoldable pub AllSmall : (T → ℤ) → List T → Type 0
  AllSmall size_of [] = Unit {0}
  AllSmall size_of (x ∷ xs) = (clamp_size (size_of x) < 2 ^ 62) × AllSmall size_of xs

  -- the entries that `Push` makes of them
  abbrev pub sized : (T → ℤ) → List T → List (T × ℕ)
  sized size_of xs = map (λ x. (x, clamp_size (size_of x))) xs

module _ {T : Type 0} ⦃z : HasZero T⦄ where
  -- the buffer after all of them, and the sum of what the calls return
  unfoldable pub push_all : Buffer T → List T → Buffer T × ℕ
  push_all b [] = (b, 0)
  push_all b (x ∷ xs) = let (b', n) = push b x in let (b'', m) = push_all b' xs in (b'', n + m)

  pub record Fed (b : Buffer T) (xs : List T) (out : Buffer T × ℕ) : Type 0 where
    pub valid : IsValid out.0
    pub light : out.0.bytes < 2 ^ 62
    pub same : Same b out.0
    pub kept : contents out.0 ≡ drop out.1 (contents b ++ sized b.size_of xs)

  pub push_all-Fed :
      (b : Buffer T) (xs : List T)
      → IsValid b
      → b.bytes < 2 ^ 62
      → b.max_bytes < 2 ^ 62
      → AllSmall b.size_of xs
      → Fed b xs (push_all b xs)
  unfolding push_all AllSmall
  push_all-Fed b [] v l m small = record {
    valid = v;
    light = l;
    same = Same-refl b;
    kept = sym (append-nil (contents b));
  }
  push_all-Fed b (x ∷ xs) v l m small =
      let b' = (push b x).0 in
      let p = push_lem b x v (omega (arith, small.0)) in
      let e = push-Entered b x v l m small.0 in
      let s = Same-push b x in
      let rest =
        push_all-Fed b' xs e.valid e.light (omega (arith, s.limit))
          (subst (λ f. AllSmall f xs) (sym s.sizes) small.1) in
      let new = sized b.size_of xs in
      record {
        valid = rest.valid;
        light = rest.light;
        same = Same-trans s rest.same;
        kept =
            rest.kept
            ∙ ap₂ (λ c f. drop (push_all b' xs).1 (c ++ sized f xs)) p.kept s.sizes
            ∙ ap (drop (push_all b' xs).1)
                (sym (drop-append (push b x).1 (with_new b x) new (omega (arith, p.evicts.keeps))))
            ∙ drop-drop (push_all b' xs).1 (push b x).1 (with_new b x ++ new)
            ∙ ap (drop ((push b x).1 + (push_all b' xs).1))
                (append_assoc (contents b) ((x, clamp_size (b.size_of x)) ∷ []) new);
      }
