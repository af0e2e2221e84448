-- ===== src/Util/Lines.antt =====
-- Texts of lines that end with a carriage return and a newline, as the messages of a download.
pub mod Laws
use p2p_demo.Prelude.{
  ℕ, Bool, true, false, List, [], ◌∷◌, ◌++◌, Option, none, some, ◌==◌, if◌then◌else◌, take, drop,
}
use p2p_demo.Wire.{Bytes}
use p2p_demo.Util.Text.{starts_with}

-- The lines of the text that end. `cr` says that a carriage return stands behind `line`.
unfoldable pub crlf_lines : Bool → Bytes → Bytes → List Bytes
crlf_lines cr line [] = []
crlf_lines true line (b ∷ s) =
    let ended = line ∷ crlf_lines false [] s in
    let again = crlf_lines true (line ++ 13 ∷ []) s in
    let longer = crlf_lines false (line ++ 13 ∷ b ∷ []) s in
    if b == b'\n' then ended else if b == 13 then again else longer
crlf_lines false line (b ∷ s) =
    let begun = crlf_lines true line s in
    let longer = crlf_lines false (line ++ b ∷ []) s in if b == 13 then begun else longer

abbrev pub in_front : ℕ → Option (Bytes × Bytes) → Option (Bytes × Bytes)
in_front b none = none
in_front b (some (front, back)) = some (b ∷ front, back)

abbrev pub blank_line : Bytes
blank_line = 13 ∷ b'\n' ∷ 13 ∷ b'\n' ∷ []

-- The text up to the first blank line, the blank line included, and the text behind it.
unfoldable pub cut_blank : Bytes → Option (Bytes × Bytes)
cut_blank [] = none
cut_blank (b ∷ s) =
    let later = in_front b (cut_blank s) in
    if starts_with (b ∷ s) blank_line then some (take 4 (b ∷ s), drop 4 (b ∷ s)) else later
