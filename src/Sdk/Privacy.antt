-- ===== src/Sdk/Privacy.antt =====
-- From a capture to the wire: finishAndEnqueue of client.go, detectResource of resource.go, and
-- toWireEvent of wire.go.
use Prim.Native.String.{String}
use groundcover_go.Base.{◌≡◌, refl, subst, ◌∙◌, Option, none, some, List}
use groundcover_go.Capture.Attributes.{Value, get}
use groundcover_go.Capture.Attributes.Lookup.{first_of}
use groundcover_go.Capture.Event.{User, Event}
use groundcover_go.Capture.Scope.{Scope}
use groundcover_go.Capture.Client.{ClientConfig, Opt, ready, finish}
use groundcover_go.Capture.Client.Guarantees.{Enqueued, Hashed, finish-Enqueued}
use groundcover_go.Capture.Resource.{Host, ServiceConfig, detect_resource}
use groundcover_go.Capture.Resource.Detected.{detect_resource_lem}
use groundcover_go.Capture.Wire.{build_metadata}
use groundcover_go.Capture.Wire.Managed.{non_empty}
use groundcover_go.Capture.Wire.Payload.{WireEvent, to_wire_event}

first_of-none : (o : Option Value) → first_of o none ≡ o
first_of-none none = refl
first_of-none (some v) = refl

-- Where an event carries an identity to the wire, it is the one in the event's own fields.
on_the_wire :
    (svc : ServiceConfig) (host : Host) (e : Event)
    → (get (build_metadata e (detect_resource svc host).attrs) "user.id" ≡ non_empty e.user.id)
      × (get (build_metadata e (detect_resource svc host).attrs) "user.email"
          ≡ non_empty e.user.email)
on_the_wire svc host e = (
  (detect_resource_lem svc host "user.id").1 e ∙ first_of-none (non_empty e.user.id),
  (detect_resource_lem svc host "user.email").1 e ∙ first_of-none (non_empty e.user.email),
)

-- what the wire says of the user's identity, under a hasher
pub record Pseudonymous (h : String → Option String) (w : WireEvent) : Type 0 where
  pub raw : User
  pub id : String
  pub email : String
  pub id_hashed : h raw.id ≡ some id
  pub email_hashed : h raw.email ≡ some email
  pub wire_id : get w.attributes.error_metadata "user.id" ≡ non_empty id
  pub wire_email : get w.attributes.error_metadata "user.email" ≡ non_empty email

-- With a hasher, whatever the scope, the options, BeforeSend and the attributes do: an event that
-- is ready to enqueue has for its user.id and user.email on the wire answers of the hasher, or
-- nothing where such an answer is empty.
pub finish-Pseudonymous :
    (print : Value → String) (cfg : ClientConfig) (h : String → Option String)
    → cfg.hasher ≡ some h
    → (scope : Option Scope) (opts : List Opt) (e r : Event)
    → (finish print cfg scope opts e).0 ≡ ready r
    → (svc : ServiceConfig) (host : Host) (ids : String × String)
    → Pseudonymous h (to_wire_event r (detect_resource svc host) ids)
unfolding to_wire_event
finish-Pseudonymous print cfg h k scope opts e r f svc host ids =
    let q : Enqueued print cfg scope opts e r = finish-Enqueued print cfg scope opts e r f in
    let hashed : Hashed (some h) q.passed.user r.user =
      subst (λ o. Hashed o q.passed.user r.user) k q.identity in
    let (id, email) = on_the_wire svc host r in
    record {
      raw = q.passed.user;
      id = r.user.id;
      email = r.user.email;
      id_hashed = hashed.0.0;
      email_hashed = hashed.0.1;
      wire_id = id;
      wire_email = email;
    }
