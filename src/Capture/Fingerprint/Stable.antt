-- ===== src/Capture/Fingerprint/Stable.antt =====
-- What of an event its fingerprint depends on.
use Prim.Native.String.{String}
use groundcover_go.Base.{
  ℕ, ◌≡◌, refl, sym, ap, ◌∙◌, Bool-cases, inl, inr, List, [], ◌∷◌, if◌then◌else◌,
}
use groundcover_go.Capture.Event.{Frame, Event}
use groundcover_go.Capture.Fingerprint.{in_app_frames, write_frames, hashed, fingerprint}
use groundcover_go.Capture.Fingerprint.Hash.{offset64, write_byte, write, format_uint}
use groundcover_go.Capture.Fingerprint.Message.{normalize_message}

-- The functions and files of the application's own frames, without the lines.
abbrev pub sites : List Frame → List (String × String)
sites [] = []
sites (f ∷ frames) = if f.in_app then (f.function, f.file) ∷ sites frames else sites frames

-- What groups an event: its type and its sites, or its message without the digits' values.
pub data Group : Type 0 where
  placed : String → (String × String) → List (String × String) → Group
  worded : String → Group

abbrev grouped : String → String → List (String × String) → Group
grouped error_type msg [] = worded (normalize_message msg)
grouped error_type msg (s ∷ ss) = placed error_type s ss

abbrev pub group : Event → Group
group e = grouped e.error_type e.error_message (sites e.stacktrace)

write_sites : ℕ → List (String × String) → ℕ
write_sites h [] = h
write_sites h ((function, file) ∷ ss) =
    write_sites (write (write_byte (write (write_byte h 0) function) 0) file) ss

key : Group → String
key (placed error_type s ss) = format_uint (write_sites (write offset64 error_type) (s ∷ ss))
key (worded msg) = format_uint (write offset64 msg)

bare : List Frame → List (String × String)
bare [] = []
bare (f ∷ frames) = (f.function, f.file) ∷ bare frames

sites-bare : (frames : List Frame) → sites frames ≡ bare (in_app_frames frames)
unfolding in_app_frames bare
sites-bare [] = refl
sites-bare (f ∷ frames) = elim (Bool-cases f.in_app) [
  | inl e ↦ rw e (ap (λ x. (f.function, f.file) ∷ x) (sites-bare frames))
  | inr e ↦ rw e (sites-bare frames)
]

write_frames_lem :
    (h : ℕ) (frames : List Frame) → write_frames h frames ≡ write_sites h (bare frames)
unfolding write_frames write_sites bare
write_frames_lem h [] = refl
write_frames_lem h (f ∷ frames) =
    write_frames_lem (write (write_byte (write (write_byte h 0) f.function) 0) f.file) frames

hashed_lem :
    (error_type msg : String) (frames : List Frame)
    → format_uint (hashed error_type msg frames) ≡ key (grouped error_type msg (bare frames))
unfolding hashed key bare
hashed_lem error_type msg [] = refl
hashed_lem error_type msg (f ∷ frames) =
    ap format_uint (write_frames_lem (write offset64 error_type) (f ∷ frames))

fingerprint_lem : (e : Event) → fingerprint e ≡ key (group e)
unfolding fingerprint
fingerprint_lem e =
    rw (sites-bare e.stacktrace)
      (hashed_lem e.error_type e.error_message (in_app_frames e.stacktrace))

-- Two events of one group have one fingerprint: where a frame is the application's own, the error's
-- type and the functions and files of those frames decide, and neither the message, nor a line, nor
-- a frame of a library; where none is, the message decides, up to the values of its digits.
pub group-fingerprint : (e f : Event) → group e ≡ group f → fingerprint e ≡ fingerprint f
group-fingerprint e f h = fingerprint_lem e ∙ ap key h ∙ sym (fingerprint_lem f)
