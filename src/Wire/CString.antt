-- ===== src/Wire/CString.antt =====
-- Texts that end with a NUL inside a longer string.
use Prim.Native.Char.{code}
use Prim.Native.String.{String}
use p2p_demo.Prelude.{
  ℕ, ◌≤◌, ◌<◌, ◌≡◌, refl, ◌≢◌, Bool, true, false, [], ◌∷◌, ◌++◌, arith, length, All, ◌==◌,
  if◌then◌else◌,
}
use p2p_demo.Wire.{Bytes}

-- The bytes of a text of the source, which are ASCII.
abbrev pub codes : String → Bytes
codes String.[] = []
codes (String.◌∷◌ c s) = code c ∷ codes s

-- `while (str[idx]) { s += str[idx]; idx++; }` on the string from `idx` on: it stops at a NUL, and
-- at the end of the string, where `str[idx]` is NUL too.
unfoldable pub c_string : Bytes → Bytes
c_string [] = []
c_string (b ∷ bs) = if b == 0 then [] else b ∷ c_string bs

-- `std::string::empty`
unfoldable pub is_empty : Bytes → Bool
is_empty [] = true
is_empty (b ∷ bs) = false

abbrev pub IsNonzero : ℕ → Type 0
IsNonzero b = 0 < b

pub c_string-append : (s rest : Bytes) → All IsNonzero s → c_string (s ++ 0 ∷ rest) ≡ s
unfolding c_string
c_string-append [] rest h = refl
c_string-append (b ∷ s) rest h = ground (arith, h.0, c_string-append s rest h.1)

pub length-c_string : (s : Bytes) → length (c_string s) ≤ length s
unfolding c_string
length-c_string [] = omega arith
length-c_string (b ∷ s) = ground (arith, length-c_string s)

pub is_empty-ne : (s : Bytes) → s ≢ [] → is_empty s ≡ false
unfolding is_empty
is_empty-ne [] h = absurd (h refl)
is_empty-ne (b ∷ s) h = refl

pub length-ne_nil : (s : Bytes) → s ≢ [] → 0 < length s
length-ne_nil [] h = absurd (h refl)
length-ne_nil (b ∷ s) h = omega arith

pub ne_empty : (s : Bytes) → is_empty s ≡ false → s ≢ []
unfolding is_empty
ne_empty [] h = absurd (cc h)
ne_empty (b ∷ s) h = λ e. cc

pub c_string_all : (s : Bytes) → All IsNonzero s → c_string s ≡ s
unfolding c_string
c_string_all [] h = refl
c_string_all (b ∷ s) h = ground (arith, h.0, c_string_all s h.1)
