-- ===== src/Capture/Client/Guarantees.antt =====
-- What `finishAndEnqueue` guarantees of an event that it enqueues.
use text.Mathlib.Text.{◌==◌ as str_eq}
use Prim.Native.String.{String}
use groundcover_go.Base.{
  ◌≡◌, refl, sym, subst, ◌∙◌, ap, Bool, true, false, Option, none, some, List, arith, if◌then◌else◌,
}
use groundcover_go.Capture.Attributes.{Value, sanitize_attributes}
use groundcover_go.Capture.Event.{User, Event}
use groundcover_go.Capture.Fingerprint.{fingerprint}
use groundcover_go.Capture.Scope.{Scope, apply_to}
use groundcover_go.Capture.Title.{title_for}
use groundcover_go.Capture.Client.{
  ClientConfig, Opt, ready, refused, lost, apply_options, run_before_send, hash_identity,
  with_hashes, label, or_lost, after_answer, after_options, finish,
}

-- The identity is the hasher's answers on a raw one, where there is a hasher.
abbrev pub Hashed : Option (String → Option String) → User → User → Type 0
Hashed none raw u = u ≡ raw
Hashed (some h) raw u =
    ((h raw.id ≡ some u.id) × (h raw.email ≡ some u.email))
    × ((u.name ≡ raw.name) × (u.organization ≡ raw.organization))

-- a capture that ends in an event to enqueue
pub record Enqueued (print : Value → String) (cfg : ClientConfig) (scope : Option Scope)
    (opts : List Opt) (e ready_event : Event) : Type 0 where
  -- what the scope and then the options make of the event
  pub merged : Event
  pub options_applied : apply_options opts (apply_to scope e) ≡ some merged
  -- what `BeforeSend` lets pass
  pub passed : Event
  pub let_pass : (run_before_send cfg.before_send merged).0 ≡ some passed
  -- Nothing comes after the hash, the message and the stack are those that passed.
  pub identity : Hashed cfg.hasher passed.user ready_event.user
  pub message : ready_event.error_message ≡ passed.error_message
  pub level : ready_event.level ≡ passed.level
  pub key_kept : str_eq passed.fingerprint "" ≡ false → ready_event.fingerprint ≡ passed.fingerprint
  pub key_made : str_eq passed.fingerprint "" ≡ true → ready_event.fingerprint ≡ fingerprint passed
  pub title_kept : str_eq passed.title "" ≡ false → ready_event.title ≡ passed.title
  pub title_made : str_eq passed.title "" ≡ true → ready_event.title ≡ title_for passed
  pub snapshot : ready_event.attributes ≡ sanitize_attributes print passed.attributes

with_hashes-Hashed :
    (h : String → Option String) (a b : Option String) (e e' : Event)
    → h e.user.id ≡ a
    → h e.user.email ≡ b
    → with_hashes a b e ≡ some e'
    → (u : User) × ((e' ≡ record e { user = u }) × Hashed (some h) e.user u)
with_hashes-Hashed h (some id) (some email) e e' p q r =
    (record e.user { id = id; email = email }, (cc, ((p, q), (refl, refl))))
with_hashes-Hashed h (some id) none e e' p q r = ground arith
with_hashes-Hashed h none b e e' p q r = ground arith

hash_identity-Hashed :
    (h : Option (String → Option String)) (e e' : Event)
    → hash_identity h e ≡ some e'
    → (u : User) × ((e' ≡ record e { user = u }) × Hashed h e.user u)
unfolding hash_identity
hash_identity-Hashed none e e' p = (e.user, (cc, refl))
hash_identity-Hashed (some h) e e' p =
    with_hashes-Hashed h (h e.user.id) (h e.user.email) e e' refl refl p

lost≢ready : (r : Event) → ¬ (lost ≡ ready r)
lost≢ready r h = cc

refused≢ready : (r : Event) → ¬ (refused ≡ ready r)
refused≢ready r h = cc

ready_inj : {r s : Event} → ready r ≡ ready s → r ≡ s
ready_inj h = cc

if_false : (b : Bool) (s t : String) → b ≡ false → (if b then s else t) ≡ t
if_false b s t h = rw h refl

if_true : (b : Bool) (s t : String) → b ≡ true → (if b then s else t) ≡ s
if_true b s t h = rw h refl

module _ (print : Value → String) (cfg : ClientConfig) (scope : Option Scope) (opts : List Opt)
    (e : Event) where
  labelled-Enqueued :
      (merged passed : Event) (u : User)
      → apply_options opts (apply_to scope e) ≡ some merged
      → (run_before_send cfg.before_send merged).0 ≡ some passed
      → Hashed cfg.hasher passed.user u
      → Enqueued print cfg scope opts e (label print (record passed { user = u }))
  unfolding label fingerprint title_for
  labelled-Enqueued merged passed u p q h = record {
    merged = merged;
    options_applied = p;
    passed = passed;
    let_pass = q;
    identity = h;
    message = refl;
    level = refl;
    key_kept = if_false (str_eq passed.fingerprint "") _ _;
    key_made = if_true (str_eq passed.fingerprint "") _ _;
    title_kept = if_false (str_eq passed.title "") _ _;
    title_made = if_true (str_eq passed.title "") _ _;
    snapshot = refl;
  }

  or_lost-Enqueued :
      (merged passed : Event) (o : Option Event) (r : Event)
      → apply_options opts (apply_to scope e) ≡ some merged
      → (run_before_send cfg.before_send merged).0 ≡ some passed
      → hash_identity cfg.hasher passed ≡ o
      → or_lost print o ≡ ready r
      → Enqueued print cfg scope opts e r
  or_lost-Enqueued merged passed none r p q h f = absurd (lost≢ready r f)
  or_lost-Enqueued merged passed (some e') r p q h f =
      let (u, (same, hashed)) = hash_identity-Hashed cfg.hasher passed e' h in
      subst (λ x. Enqueued print cfg scope opts e x) (ap (label print) (sym same) ∙ ready_inj f)
        (labelled-Enqueued merged passed u p q hashed)

  after_answer-Enqueued :
      (merged : Event) (a : Option Event × Bool) (r : Event)
      → apply_options opts (apply_to scope e) ≡ some merged
      → run_before_send cfg.before_send merged ≡ a
      → (after_answer print cfg a).0 ≡ ready r
      → Enqueued print cfg scope opts e r
  after_answer-Enqueued merged (none, b) r p q f = absurd (refused≢ready r f)
  after_answer-Enqueued merged (some passed, b) r p q f =
      or_lost-Enqueued merged passed (hash_identity cfg.hasher passed) r p (ap (λ a. a.0) q) refl f

  after_options-Enqueued :
      (o : Option Event) (r : Event)
      → apply_options opts (apply_to scope e) ≡ o
      → (after_options print cfg o).0 ≡ ready r
      → Enqueued print cfg scope opts e r
  after_options-Enqueued none r p f = absurd (lost≢ready r f)
  after_options-Enqueued (some merged) r p f =
      after_answer-Enqueued merged (run_before_send cfg.before_send merged) r p refl f

  -- An event that is ready for the buffer has been merged with its scope and then its options, has
  -- passed `BeforeSend`, has had its identity hashed after both where there is a hasher, has the
  -- grouping key and the title that were set on it or else those of the event that passed, and
  -- holds the snapshot of that event's attributes.
  pub finish-Enqueued :
      (r : Event) → (finish print cfg scope opts e).0 ≡ ready r → Enqueued print cfg scope opts e r
  unfolding finish
  finish-Enqueued r f = after_options-Enqueued (apply_options opts (apply_to scope e)) r refl f
