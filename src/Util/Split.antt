-- ===== src/Util/Split.antt =====
-- `ltrim`, `rtrim`, `trim`, `split`, `splitByDeli`, `splitByDeli2` and `splitcmdline`.
pub mod Laws
pub mod Spaces
use p2p_demo.Prelude.{
  ℕ, Bool, true, false, ◌&&◌, ◌||◌, List, [], ◌∷◌, ◌++◌, leb, ◌==◌, if◌then◌else◌,
}
use p2p_demo.Wire.{Bytes}
use p2p_demo.Wire.CString.{is_empty}

-- `isspace` in the C locale.
unfoldable pub isspace : ℕ → Bool
isspace c = c == b' ' || leb 9 c && leb c 13

unfoldable pub ltrim : Bytes → Bytes
ltrim [] = []
ltrim (b ∷ s) = if isspace b then ltrim s else b ∷ s

unfoldable pub rtrim : Bytes → Bytes
rtrim [] = []
rtrim (b ∷ s) = let t = rtrim s in if isspace b && is_empty t then [] else b ∷ t

unfoldable pub trim : Bytes → Bytes
trim s = ltrim (rtrim s)

-- `>>` on the stream of the text, until it fails: `word` is what was read of the next word.
unfoldable pub words : Bytes → Bytes → List Bytes
words word [] = if is_empty word then [] else word ∷ []
words word (b ∷ s) =
    let next = words [] s in
    let longer = words (word ++ b ∷ []) s in
    if isspace b then (if is_empty word then next else word ∷ next) else longer

unfoldable pub split : Bytes → List Bytes
split input = words [] input

-- The text with spaces around each character of a kind.
unfoldable pub spaced : (ℕ → Bool) → Bytes → Bytes
spaced is_deli [] = []
spaced is_deli (b ∷ s) =
    if is_deli b then b' ' ∷ b ∷ b' ' ∷ spaced is_deli s else b ∷ spaced is_deli s

unfoldable pub split_by_deli : Bytes → ℕ → List Bytes
split_by_deli rawinput deli = split (spaced (λ c. c == deli) rawinput)

abbrev pub is_redirect : ℕ → Bool
is_redirect c = c == b'|' || c == b'>' || c == b'<' || c == b'&'

unfoldable pub splitcmdline : Bytes → List Bytes
splitcmdline rawinput = split (spaced is_redirect rawinput)

-- The text with a space in place of each delimiter.
unfoldable pub blanked : ℕ → Bytes → Bytes
blanked deli [] = []
blanked deli (b ∷ s) = if b == deli then b' ' ∷ blanked deli s else b ∷ blanked deli s

unfoldable pub split_by_deli2 : Bytes → ℕ → List Bytes
split_by_deli2 rawinput deli = split (blanked deli rawinput)
