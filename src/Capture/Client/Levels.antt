-- ===== src/Capture/Client/Levels.antt =====
-- Where the severity of a captured event comes from.
use Prim.Native.String.{String}
use groundcover_go.Base.{
  false, false, ◌≡◌, refl, sym, subst, ap, ◌∙◌, arith, true, Option, none, some, [],
}
use groundcover_go.Capture.Event.{Level, Event, valid, with_level}
use groundcover_go.Capture.Scope.{Scope, apply_to}
use groundcover_go.Capture.Client.{
  Facts, apply_options, new_error_event, new_panic_event, new_message_event, message_options,
}

-- the severities with which the three captures reach `BeforeSend`, without options of the caller
pub record Severities (scope : Option Scope) (f : Facts) (msg : String) (level : Level)
    : Type 0 where
  pub panic_fatal : (apply_to scope (new_panic_event f)).level ≡ "fatal"
  pub panic_unhandled : (apply_to scope (new_panic_event f)).error_handled ≡ false
  pub error_scoped :
      (s : Scope)
      → scope ≡ some s
      → valid s.level ≡ true
      → (apply_to scope (new_error_event f)).level ≡ s.level
  pub message_own :
      (e : Event)
      → apply_options (message_options level []) (apply_to scope (new_message_event f msg)) ≡ some e
      → e.level ≡ level

none≢some : {s : Scope} → ¬ (none ≡ some s)
none≢some h = cc

with_level-level : (l : Level) (m : Event) → valid l ≡ true → (with_level l m).level ≡ l
unfolding with_level
with_level-level l m h = rw h refl

-- The level of the call is the first option.
message_level :
    (l : Level) (m e : Event)
    → valid l ≡ true
    → apply_options (message_options l []) m ≡ some e
    → e.level ≡ l
unfolding apply_options message_options
message_level l m e h p =
    let same : with_level l m ≡ e = cc in sym (ap (λ x. x.level) same) ∙ with_level-level l m h

-- With a valid level for the message and no options of the caller: a recovered panic stays fatal and
-- unhandled whatever the scope says, a valid level of the scope replaces an error's, and a message
-- has the level of its call.
pub severities :
    (scope : Option Scope) (f : Facts) (msg : String) (level : Level)
    → valid level ≡ true
    → Severities scope f msg level
unfolding apply_to new_error_event new_panic_event new_message_event message_options apply_options
    with_level
severities none f msg level h = record {
  panic_fatal = refl;
  panic_unhandled = refl;
  error_scoped = λ s e v. absurd (none≢some e);
  message_own = λ e p. message_level level (apply_to none (new_message_event f msg)) e h p;
}
severities (some s) f msg level h = record {
  panic_fatal = ground arith;
  panic_unhandled = refl;
  error_scoped = λ t e v.
      let same : s ≡ t = cc in
      let w : valid s.level ≡ true = subst (λ x. valid x.level ≡ true) (sym same) v in
      rw w (ap (λ x. x.level) same);
  message_own = λ e p. message_level level (apply_to (some s) (new_message_event f msg)) e h p;
}
