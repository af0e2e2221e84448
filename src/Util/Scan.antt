-- ===== src/Util/Scan.antt =====
-- The conversions of `sscanf` that the code uses, each on the text from where the last one ended.
-- A space in a format is `ltrim`.
pub mod Laws
use p2p_demo.Prelude.{
  ℕ, ◌+◌, Bool, true, false, List, [], ◌∷◌, ◌++◌, Option, none, some, ltb, ◌==◌, if◌then◌else◌,
  length,
}
use p2p_demo.Wire.{Bytes}
use p2p_demo.Wire.CString.{is_empty}
use p2p_demo.Util.Split.{isspace, ltrim}
use p2p_demo.Util.Decimal.{scan_int, scan_long}

-- What is read, no match, or a text that does not fit into the buffer that is to take it, with its
-- closing NUL.
pub data Scan {ℓ} (A : Type ℓ) : Type ℓ where
  got : A → Scan A
  mismatch : Scan A
  overflow : Scan A

infixl 5 ◌>>=◌
abbrev pub ◌>>=◌ {ℓ κ} : {A : Type ℓ} {B : Type κ} → Scan A → (A → Scan B) → Scan B
got a >>= f = f a
mismatch >>= f = mismatch
overflow >>= f = overflow

unfoldable pub literal : Bytes → Bytes → Scan Bytes
literal [] s = got s
literal (x ∷ xs) [] = mismatch
literal (x ∷ xs) (y ∷ s) = let rest = literal xs s in if x == y then rest else mismatch

-- The longest beginning of which each character passes the test, and what follows.
unfoldable pub span : (ℕ → Bool) → Bytes → Bytes × Bytes
span test [] = ([], [])
span test (b ∷ s) =
    let (front, back) = span test s in if test b then (b ∷ front, back) else ([], b ∷ s)

unfoldable pub fitting : ℕ → Bytes × Bytes → Scan (Bytes × Bytes)
fitting size (w, rest) =
    if is_empty w then mismatch else if ltb (length w) size then got (w, rest) else overflow

abbrev pub not_space : ℕ → Bool
not_space c = if isspace c then false else true

-- `%s` into a buffer of `size` characters.
unfoldable pub word : ℕ → Bytes → Scan (Bytes × Bytes)
word size s = fitting size (span not_space (ltrim s))

-- `%[…]`
unfoldable pub scan_set : (ℕ → Bool) → ℕ → Bytes → Scan (Bytes × Bytes)
scan_set test size s = fitting size (span test s)

unfoldable pub of_option : Option (ℕ × Bytes) → Scan (ℕ × Bytes)
of_option none = mismatch
of_option (some r) = got r

-- `%d`
unfoldable pub integer : Bytes → Scan (ℕ × Bytes)
unfolding of_option
integer s = of_option (scan_int s)

-- `%lu`
unfoldable pub long_integer : Bytes → Scan (ℕ × Bytes)
unfolding of_option
long_integer s = of_option (scan_long s)
