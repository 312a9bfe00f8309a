-- ===== src/Capture/Scope/Isolation.antt =====
-- Which contexts see the changes of a scope.
use groundcover_go.Base.{
  ℕ, ◌<◌, ◌≡◌, ◌≢◌, refl, ap, ◌∙◌, true, false, none, some, List, [], ◌∷◌, ◌==◌, arith, inl, inr,
  Bool-cases,
}
use groundcover_go.Capture.Scope.{
  Scope, Store, Context, clone_scope, scope_from_context, alloc, ensure_scope,
  isolated_scope_context, update, with_scope,
}

-- The context's scope has been made, if it carries one.
abbrev pub IsMade : Store → Context → Type 0
IsMade st none = Unit
IsMade st (some i) = i < st.count

-- `WithScope` time after time, each on the context that the last one gave
pub with_scopes : Store → Context → List (Scope → Scope) → Store
with_scopes st ctx [] = st
with_scopes st ctx (f ∷ fs) = let (ctx', st') = with_scope st ctx f in with_scopes st' ctx' fs

-- Two contexts that differ carry scopes of different numbers.
apart : (i j : ℕ) → ◌≢◌ {A = Context} (some i) (some j) → (j == i) ≡ false
apart i j n = elim (Bool-cases (j == i)) [
  | inl e ↦ let same : i ≡ j = ground arith in absurd (n (ap some same))
  | inr e ↦ e
]

self : (i : ℕ) → (i == i) ≡ true
self i = ground arith

not_next : (i j : ℕ) → j < i → ◌≢◌ {A = Context} (some i) (some j)
not_next i j h e = let same : i ≡ j = cc in omega arith

-- Changes leave alone every scope but the one that their context carries.
others_kept :
    (fs : List (Scope → Scope)) (st : Store) (ctx : Context) (j : ℕ)
    → j < st.count
    → ctx ≢ some j
    → (with_scopes st ctx fs).scopes j ≡ st.scopes j
unfolding with_scopes with_scope ensure_scope update alloc
others_kept [] st ctx j h n = refl
others_kept (f ∷ fs) st none j h n =
    let other = apart st.count j (not_next st.count j h) in
    others_kept fs (with_scope st none f).1 (some st.count) j (omega arith) (not_next st.count j h)
    ∙ rw other refl
others_kept (f ∷ fs) st (some i) j h n =
    others_kept fs (with_scope st (some i) f).1 (some i) j h n ∙ rw (apart i j n) refl

-- After `WithIsolatedScope` on a context without a scope, or with one that has been made: changes
-- through the new context leave the old one's scope as it is, and changes through the old one leave
-- the new one's, which is a copy.
pub isolated_lem :
    (st : Store) (ctx : Context) (fs : List (Scope → Scope))
    → IsMade st ctx
    → let (child, st') = isolated_scope_context st ctx in
      (scope_from_context (with_scopes st' child fs) ctx ≡ scope_from_context st ctx)
      × (scope_from_context (with_scopes st' ctx fs) child
          ≡ some (clone_scope (scope_from_context st ctx)))
unfolding isolated_scope_context alloc scope_from_context
isolated_lem st none fs h = (
  refl,
  ap some (
      others_kept fs (isolated_scope_context st none).1 none st.count (omega arith)
        (λ e. ground arith)
      ∙ rw (self st.count) refl),
)
isolated_lem st (some i) fs h = (
  ap some (
      others_kept fs (isolated_scope_context st (some i)).1 (some st.count) i (omega arith)
        (not_next st.count i h)
      ∙ (let old : (i == st.count) ≡ false = ground arith in rw old refl)),
  ap some (
      others_kept fs (isolated_scope_context st (some i)).1 (some i) st.count (omega arith)
        (λ e. let same : i ≡ st.count = cc in omega arith)
      ∙ rw (self st.count) refl),
)
