-- ===== src/Util/Lines/Laws.antt =====
-- The lines of a text that is put together from lines.
use p2p_demo.Prelude.{
  ℕ, ◌≡◌, refl, ◌∙◌, ap, ◌<◌, arith, Bool, true, false, not, ◌&&◌, leb, [], ◌∷◌, ◌++◌, All, All-map,
  some, ◌==◌, append_assoc, append-nil,
}
use p2p_demo.Wire.{Bytes}
use p2p_demo.Util.Split.{isspace}
use p2p_demo.Util.Text.{starts_with, starts_with-other, starts_with-same}
use p2p_demo.Util.Lines.{crlf_lines, cut_blank, in_front, blank_line}

abbrev pub NoReturn : Bytes → Type 0
NoReturn s = All (λ c. (c == 13) ≡ false) s

pub crlf_lines-line :
    (line l rest : Bytes)
    → NoReturn l
    → crlf_lines false line (l ++ 13 ∷ b'\n' ∷ rest) ≡ (line ++ l) ∷ crlf_lines false [] rest
unfolding crlf_lines
crlf_lines-line line [] rest h = rw (append-nil line) refl
crlf_lines-line line (b ∷ l) rest (hb, h) =
    rw (crlf_lines, hb)
      (crlf_lines-line (line ++ b ∷ []) l rest h
        ∙ ap (λ t. t ∷ crlf_lines false [] rest) (append_assoc line (b ∷ []) l))

-- A character of a line of a text without NUL.
abbrev pub in_line : ℕ → Bool
in_line c = leb 1 c && not (c == 13)

abbrev pub InLine : Bytes → Type 0
InLine s = All (λ c. in_line c ≡ true) s

-- A character that is neither a space nor a control character.
abbrev pub IsGraphic : Bytes → Type 0
IsGraphic s = All (λ c. 32 < c) s

abbrev pub all : (ℕ → Bool) → Bytes → Bool
all test [] = true
all test (b ∷ s) = test b && all test s

pub all-All : (test : ℕ → Bool) (s : Bytes) → all test s ≡ true → All (λ c. test c ≡ true) s
all-All test [] h = tt
all-All test (b ∷ s) h = (ground (arith, h), all-All test s (ground (arith, h)))

pub InLine-NoReturn : (s : Bytes) → InLine s → NoReturn s
InLine-NoReturn s h = All-map _ _ s (λ c k. ground (arith, k)) h

pub InLine-nonzero : (s : Bytes) → InLine s → All (λ c. 0 < c) s
InLine-nonzero s h = All-map _ _ s (λ c k. ground (arith, k)) h

pub IsGraphic-InLine : (s : Bytes) → IsGraphic s → InLine s
IsGraphic-InLine s h = All-map _ _ s (λ c k. ground (arith, k)) h

pub IsGraphic-no_space : (s : Bytes) → IsGraphic s → All (λ c. isspace c ≡ false) s
unfolding isspace
IsGraphic-no_space s h = All-map _ _ s (λ c k. ground (arith, k)) h

pub other_start :
    (b : ℕ) (s sub : Bytes) → (b == 13) ≡ false → starts_with (b ∷ s) (13 ∷ sub) ≡ false
other_start b s sub h = starts_with-other b 13 s sub (ground (arith, h))

pub cut_blank-other :
    (b : ℕ) (s : Bytes)
    → starts_with (b ∷ s) blank_line ≡ false
    → cut_blank (b ∷ s) ≡ in_front b (cut_blank s)
unfolding cut_blank
cut_blank-other b s h = rw (cut_blank, h) refl

-- A line that is not followed by a blank line.
pub cut_blank-line :
    (l : Bytes) (c : ℕ) (rest head part : Bytes)
    → NoReturn l
    → (c == 13) ≡ false
    → cut_blank (c ∷ rest) ≡ some (head, part)
    → cut_blank (l ++ 13 ∷ b'\n' ∷ c ∷ rest) ≡ some (l ++ 13 ∷ b'\n' ∷ head, part)
cut_blank-line [] c rest head part h k e =
    let other : starts_with (13 ∷ b'\n' ∷ c ∷ rest) blank_line ≡ false =
      starts_with-same 13 (b'\n' ∷ c ∷ rest) (b'\n' ∷ 13 ∷ b'\n' ∷ [])
      ∙ starts_with-same b'\n' (c ∷ rest) (13 ∷ b'\n' ∷ [])
      ∙ other_start c rest (b'\n' ∷ []) k in
    cut_blank-other 13 (b'\n' ∷ c ∷ rest) other
    ∙ ap (in_front 13) (
        cut_blank-other b'\n' (c ∷ rest)
          (other_start b'\n' (c ∷ rest) (b'\n' ∷ 13 ∷ b'\n' ∷ []) refl)
        ∙ ap (in_front b'\n') e)
cut_blank-line (b ∷ l) c rest head part (hb, h) k e =
    cut_blank-other b _ (other_start b _ _ hb)
    ∙ ap (in_front b) (cut_blank-line l c rest head part h k e)

pub cut_blank-last :
    (l part : Bytes)
    → NoReturn l
    → cut_blank (l ++ (blank_line ++ part)) ≡ some (l ++ blank_line, part)
unfolding cut_blank starts_with
cut_blank-last [] part h = refl
cut_blank-last (b ∷ l) part (hb, h) =
    cut_blank-other b (l ++ (blank_line ++ part))
      (other_start b (l ++ (blank_line ++ part)) (b'\n' ∷ 13 ∷ b'\n' ∷ []) hb)
    ∙ ap (in_front b) (cut_blank-last l part h)
