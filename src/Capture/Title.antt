-- ===== src/Capture/Title.antt =====
-- title.go: the display title.
pub mod SingleLine
use text.Mathlib.Text.{◌==◌ as str_eq}
use Prim.Native.String.{String, [], ◌∷◌, ◌++◌, count}
use Prim.Native.Char.{Char, code}
use groundcover_go.Base.{ℕ, zero, suc, ◌-◌, Bool, true, false, ◌&&◌, ◌||◌, leb, ◌==◌, if◌then◌else◌}
use groundcover_go.Capture.Event.{Event}

-- `unicode.IsSpace`
unfoldable pub is_space : Char → Bool
is_space c =
    let n = code c in
    (leb 9 n && leb n 13)
    || (n == 32
        || (n == 133
            || (n == 160
                || (n == 5760
                    || ((leb 8192 n && leb n 8202)
                        || (n == 8232
                            || (n == 8233 || (n == 8239 || (n == 8287 || n == 12288)))))))))

-- the loop, with its flag and whether anything has been written
pub collapse_from : Bool → Bool → String → String
collapse_from in_space started [] = []
collapse_from in_space started (c ∷ s) =
    if is_space c
    then collapse_from true started s
    else (if in_space && started
        then " " ∷ (c ∷ collapse_from false true s)
        else c ∷ collapse_from false true s)

pub collapse_whitespace : String → String
collapse_whitespace s = collapse_from false false s

-- `r[:n]`
abbrev pub take_runes : ℕ → String → String
take_runes zero s = []
take_runes (suc n) [] = []
take_runes (suc n) (c ∷ s) = c ∷ take_runes n s

-- A negative cap is no different from 0.
pub truncate_title : String → ℕ → String
truncate_title s max_runes =
    if max_runes == 0
    then s
    else (if leb (count s) max_runes
        then s
        else (if max_runes == 1 then "…" else take_runes (max_runes - 1) s ++ "…"))

abbrev pub max_title_len : ℕ
max_title_len = 256

abbrev pub message_error_type : String
message_error_type = "message"

-- the title before it is cut
pub whole_title : String → String → String
whole_title error_type msg =
    if str_eq error_type "" || str_eq error_type message_error_type
    then msg
    else (if str_eq msg "" then error_type else (error_type ++ ": ") ++ msg)

unfoldable pub title_for : Event → String
title_for e =
    truncate_title (whole_title e.error_type (collapse_whitespace e.error_message)) max_title_len
