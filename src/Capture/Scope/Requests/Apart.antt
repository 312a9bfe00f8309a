-- ===== src/Capture/Scope/Requests/Apart.antt =====
-- Requests that are served at once do not see each other's changes.
use groundcover_go.Base.{
  ℕ, zero, suc, ◌≤◌, ◌<◌, ◌≡◌, refl, subst, ap, ap₂, ◌∙◌, none, some, List, [], ◌∷◌, ◌++◌, map,
  ◌==◌, arith, true, false,
}
use groundcover_go.Capture.Scope.{
  Scope, Store, Context, clone_scope, scope_from_context, alloc, blank, ensure_scope,
  isolated_scope_context, update, with_scope,
}
use groundcover_go.Capture.Scope.Isolation.{IsMade}
use groundcover_go.Capture.Scope.Requests.{
  Event, arrive, change, change_shared, Serving, with_request, serve, serve_all, Private, change_at,
  changed, step, steps, seen,
}

-- The requests have scopes of their own, numbered upwards from `lo` on, with the given values.
data Agree (st : Store) : ℕ → List Context → List Scope → Type 0 where
  nobody : {lo : ℕ} → Agree st lo [] []
  one_more :
      {lo : ℕ} {ctxs : List Context} {ss : List Scope} (i : ℕ) (s : Scope)
      → lo ≤ i
      → i < st.count
      → st.scopes i ≡ s
      → Agree st (suc i) ctxs ss
      → Agree st lo (some i ∷ ctxs) (s ∷ ss)

update_self : (st : Store) (i : ℕ) (f : Scope → Scope) → (update st i f).scopes i ≡ f (st.scopes i)
unfolding update
update_self st i f = let same : (i == i) ≡ true = ground arith in rw same refl

-- Changes of the store that keep the scopes from `lo` on, and perhaps make more, keep the values.
Agree-kept :
    (st st' : Store) {lo : ℕ} {ctxs : List Context} {ss : List Scope}
    → st.count ≤ st'.count
    → ((i : ℕ) → lo ≤ i → i < st.count → st'.scopes i ≡ st.scopes i)
    → Agree st lo ctxs ss
    → Agree st' lo ctxs ss
Agree-kept st st' c k nobody = nobody
Agree-kept st st' c k (one_more i s l m e a) =
    one_more i s l (omega arith) (k i l m ∙ e) (Agree-kept st st' c (λ j h. k j (omega arith)) a)

Agree-update :
    (st : Store) (j : ℕ) (f : Scope → Scope) {lo : ℕ} {ctxs : List Context} {ss : List Scope}
    → j < lo
    → Agree st lo ctxs ss
    → Agree (update st j f) lo ctxs ss
unfolding update
Agree-update st j f h =
    Agree-kept st (update st j f) (omega arith)
      (λ i l m. let other : (i == j) ≡ false = ground arith in rw other refl)

Agree-alloc :
    (st : Store) (new : Scope) {lo : ℕ} {ctxs : List Context} {ss : List Scope}
    → Agree st lo ctxs ss
    → Agree (alloc st new).1 lo ctxs ss
unfolding alloc
Agree-alloc st new =
    Agree-kept st (alloc st new).1 (omega arith)
      (λ i l m. let old : (i == st.count) ≡ false = ground arith in rw old refl)

-- A new request gets the next number.
Agree-arrive :
    (st : Store) (new : Scope) {lo : ℕ} {ctxs : List Context} {ss : List Scope}
    → lo ≤ st.count
    → Agree st lo ctxs ss
    → Agree (alloc st new).1 lo (ctxs ++ (some st.count ∷ [])) (ss ++ (new ∷ []))
unfolding alloc
Agree-arrive st new h nobody =
    let self : (st.count == st.count) ≡ true = ground arith in
    one_more st.count new h (omega arith) (rw self refl) nobody
Agree-arrive st new h (one_more i s l m e a) =
    let old : (i == st.count) ≡ false = ground arith in
    one_more i s l (omega arith) (rw old e) (Agree-arrive st new m a)

-- A request's change reaches its own scope alone.
record Changed (st st' : Store) (lo : ℕ) (ctxs : List Context) (ss : List Scope) : Type 0 where
  count : st'.count ≡ st.count
  below : (j : ℕ) → j < lo → st'.scopes j ≡ st.scopes j
  agree : Agree st' lo ctxs ss

with_request-Changed :
    (st : Store) (i : ℕ) (f : Scope → Scope) {lo : ℕ} {ctxs : List Context} {ss : List Scope}
    → Agree st lo ctxs ss
    → Changed st (with_request ctxs i f st) lo ctxs (change_at i f ss)
unfolding with_request change_at with_scope ensure_scope update
with_request-Changed st i f nobody = record { count = refl; below = λ j h. refl; agree = nobody }
with_request-Changed st zero f (one_more i s l m e a) = record {
  count = refl;
  below = λ j h. let other : (j == i) ≡ false = ground arith in rw other refl;
  agree = one_more i (f s) l m (update_self st i f ∙ ap f e) (Agree-update st i f (omega arith) a);
}
with_request-Changed st (suc n) f (one_more i s l m e a) =
    let c = with_request-Changed st n f a in
    record {
      count = c.count;
      below = λ j h. c.below j (omega arith);
      agree = one_more i s l (omega (arith, c.count)) (c.below i (omega arith) ∙ e) c.agree;
    }

-- the numbers of the requests' scopes begin here
abbrev above : Context → ℕ
above none = 0
above (some j) = suc j

-- The store implements the private scopes.
record Simulates (shared : Context) (s : Serving) (p : Private) : Type 0 where
  made : IsMade s.store shared
  same_shared : scope_from_context s.store shared ≡ p.shared
  agree : Agree s.store (above shared) s.requests p.scopes

serve-Simulates :
    (shared : Context) (s : Serving) (p : Private) (e : Event)
    → Simulates shared s p
    → Simulates shared (serve shared s e) (step p e)
unfolding serve step scope_from_context isolated_scope_context with_scope ensure_scope alloc update
serve-Simulates none s p arrive m = record {
  made = tt;
  same_shared = m.same_shared;
  agree =
      subst
        (λ o.
          Agree (alloc s.store (clone_scope none)).1 0 (s.requests ++ (some s.store.count ∷ []))
            (p.scopes ++ (clone_scope o ∷ [])))
        m.same_shared (Agree-arrive s.store (clone_scope none) (omega arith) m.agree);
}
serve-Simulates (some j) s p arrive m =
    let h : j < s.store.count = m.made in
    let old : (j == s.store.count) ≡ false = ground arith in
    record {
      made = omega arith;
      same_shared = rw old m.same_shared;
      agree =
          subst
            (λ o.
              Agree (alloc s.store (clone_scope (some (s.store.scopes j)))).1 (suc j)
                (s.requests ++ (some s.store.count ∷ [])) (p.scopes ++ (clone_scope o ∷ [])))
            m.same_shared (Agree-arrive s.store (clone_scope (some (s.store.scopes j))) h m.agree);
    }
serve-Simulates none s p (change i f) m = record {
  made = tt;
  same_shared = m.same_shared;
  agree = (with_request-Changed s.store i f m.agree).agree;
}
serve-Simulates (some j) s p (change i f) m =
    let h : j < s.store.count = m.made in
    let c = with_request-Changed s.store i f m.agree in
    record {
      made = omega (arith, c.count);
      same_shared = ap some (c.below j (omega arith)) ∙ m.same_shared;
      agree = c.agree;
    }
serve-Simulates none s p (change_shared f) m =
    let st = (alloc s.store blank).1 in
    record {
      made = tt;
      same_shared = subst (λ o. none ≡ changed f o) m.same_shared refl;
      agree =
          Agree-kept s.store (update st s.store.count f) (omega arith)
            (λ i l h. let old : (i == s.store.count) ≡ false = ground arith in rw old refl) m.agree;
    }
serve-Simulates (some j) s p (change_shared f) m = record {
  made = m.made;
  same_shared = ap some (update_self s.store j f) ∙ ap (changed f) m.same_shared;
  agree = Agree-update s.store j f (omega arith) m.agree;
}

serve_all-Simulates :
    (shared : Context) (s : Serving) (p : Private) (es : List Event)
    → Simulates shared s p
    → Simulates shared (serve_all shared s es) (steps p es)
unfolding serve_all steps
serve_all-Simulates shared s p [] m = m
serve_all-Simulates shared s p (e ∷ es) m =
    serve_all-Simulates shared (serve shared s e) (step p e) es (serve-Simulates shared s p e m)

Agree-seen :
    (st : Store) {lo : ℕ} {ctxs : List Context} {ss : List Scope}
    → Agree st lo ctxs ss
    → seen st ctxs ≡ map some ss
unfolding scope_from_context
Agree-seen st nobody = refl
Agree-seen st (one_more i s l m e a) = ap₂ ◌∷◌ (ap some e) (Agree-seen st a)

-- Whatever requests arrive behind `WithIsolatedScope` of one context, with a scope that has been made
-- or without one, and however their changes and those of the shared scope interleave: each request
-- sees a copy of the shared scope as it was at its arrival, with its own changes, in order, and no
-- others; and the shared scope has its own changes alone.
pub serve_all-steps :
    (shared : Context) (st : Store) (es : List Event)
    → IsMade st shared
    → let s = serve_all shared (record { store = st; requests = [] }) es in
      let p = steps (record { shared = scope_from_context st shared; scopes = [] }) es in
      (seen s.store s.requests ≡ map some p.scopes) × (scope_from_context s.store shared ≡ p.shared)
serve_all-steps shared st es made =
    let m =
      serve_all-Simulates shared (record { store = st; requests = [] })
        (record { shared = scope_from_context st shared; scopes = [] }) es
        (record { made = made; same_shared = refl; agree = nobody }) in
    (Agree-seen _ m.agree, m.same_shared)
