-- ===== src/Util/Scan/Laws.antt =====
-- What `sscanf` reads of a text that is put together from words and numbers.
use p2p_demo.Prelude.{
  ℕ, ◌<◌, ◌^◌, ◌≡◌, ◌≢◌, refl, ap, sym, append-nil, ◌∙◌, Bool, true, false, [], ◌∷◌, ◌++◌, All, ltb,
  ◌==◌, length, lt→ltb, ltb→lt, arith, not, All-map,
}
use p2p_demo.Wire.{Bytes}
use p2p_demo.Wire.CString.{is_empty-ne}
use p2p_demo.Util.Split.{isspace, ltrim}
use p2p_demo.Util.Split.Spaces.{IsClean}
use p2p_demo.Util.Decimal.{int_decimal, decimal, scan_long}
use p2p_demo.Util.Lines.Laws.{IsGraphic, IsGraphic-no_space, all, all-All}
use p2p_demo.Util.Decimal.Laws.{scan_int-int_decimal, scan_long-decimal, NoDigit}
use p2p_demo.Util.Scan.{got, span, fitting, not_space, word, integer, of_option, long_integer}

-- The end of the text, or a character that fails the test.
abbrev pub Stops : (ℕ → Bool) → Bytes → Type 0
Stops test [] = Unit {0}
Stops test (b ∷ s) = test b ≡ false

pub span-append :
    (test : ℕ → Bool) (w rest : Bytes)
    → All (λ c. test c ≡ true) w
    → Stops test rest
    → span test (w ++ rest) ≡ (w, rest)
unfolding span
span-append test [] [] h k = refl
span-append test [] (b ∷ rest) h k = rw (span, k) refl
span-append test (b ∷ w) rest (hb, h) k = rw (span, hb, span-append test w rest h k) refl

-- A word with room for it and its closing NUL.
pub record Fits (size : ℕ) (w : Bytes) : Type 0 where
  pub clean : IsClean w
  pub short : length w < size

pub fitting-fits :
    (size : ℕ) (w rest : Bytes) → w ≢ [] → length w < size → fitting size (w, rest) ≡ got (w, rest)
unfolding fitting
fitting-fits size w rest h k = rw (fitting, is_empty-ne w h, lt→ltb _ _ k) refl

ltrim-clean : (w rest : Bytes) → IsClean w → ltrim (w ++ rest) ≡ w ++ rest
unfolding ltrim
ltrim-clean [] rest (h, _) = absurd (h refl)
ltrim-clean (b ∷ w) rest (_, (hb, _)) = rw (ltrim, hb) refl

all_not_space : (w : Bytes) → All (λ c. isspace c ≡ false) w → All (λ c. not_space c ≡ true) w
all_not_space [] h = tt
all_not_space (b ∷ w) (hb, h) = (rw hb refl, all_not_space w h)

pub word-append :
    (size : ℕ) (w rest : Bytes)
    → Fits size w
    → Stops not_space rest
    → word size (w ++ rest) ≡ got (w, rest)
unfolding word
word-append size w rest f k =
    rw
      (word, ltrim-clean w rest f.clean, span-append not_space w rest (all_not_space w f.clean.1) k)
      (fitting-fits size w rest f.clean.0 f.short)

pub integer-append :
    (v : ℕ) (rest : Bytes)
    → v < 2 ^ 32
    → NoDigit rest
    → integer (int_decimal v ++ rest) ≡ got (v, rest)
unfolding integer of_option
integer-append v rest h k = ap of_option (scan_int-int_decimal v rest h k)

pub long_integer-append :
    (v : ℕ) (rest : Bytes)
    → v < 2 ^ 64
    → NoDigit rest
    → long_integer (decimal v ++ rest) ≡ got (v, rest)
unfolding long_integer of_option
long_integer-append v rest h k = ap of_option (scan_long-decimal v rest h k)

pub word-alone : (size : ℕ) (w : Bytes) → Fits size w → word size w ≡ got (w, [])
word-alone size w f = ap (word size) (sym (append-nil w)) ∙ word-append size w [] f tt

-- A space before the word is skipped.
pub word-space : (size : ℕ) (s : Bytes) → word size (b' ' ∷ s) ≡ word size s
unfolding word ltrim isspace
word-space size s = refl

-- A text with no space and no control character, with room for it.
pub record IsName (size : ℕ) (w : Bytes) : Type 0 where
  pub graphic : IsGraphic w
  pub some_text : w ≢ []
  pub short : length w < size

pub name-Fits : (size : ℕ) (w : Bytes) → IsName size w → Fits size w
name-Fits size w n = record {
  clean = (n.some_text, IsGraphic-no_space w n.graphic);
  short = n.short;
}

pub long_integer-space : (s : Bytes) → long_integer (b' ' ∷ s) ≡ long_integer s
unfolding long_integer scan_long ltrim isspace
long_integer-space s = refl

pub long_integer-alone : (v : ℕ) → v < 2 ^ 64 → long_integer (decimal v) ≡ got (v, [])
long_integer-alone v h =
    ap long_integer (sym (append-nil (decimal v))) ∙ long_integer-append v [] h tt

pub constant :
    (w : Bytes) (size : ℕ) → w ≢ [] → length w < size → all (λ c. ltb 32 c) w ≡ true → IsName size w
constant w size h k e = record {
  graphic = All-map _ _ w (λ c t. ltb→lt 32 c t) (all-All (λ c. ltb 32 c) w e);
  some_text = h;
  short = k;
}

pub without : (d : ℕ) (w : Bytes) → all (λ c. not (c == d)) w ≡ true → All (λ c. (c == d) ≡ false) w
without d [] h = tt
without d (b ∷ w) h = (ground (arith, h), without d w (ground (arith, h)))
