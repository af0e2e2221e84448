-- ===== src/Wire.antt =====
-- Bytes of a `std::string` and the little-endian integers of Packet.cpp (`short2string`,
-- `string2short`, `int2string`, `string2uint`). An `int` is kept as its bit pattern below 2 ^ 32.
pub mod CString
pub mod Laws
use p2p_demo.Prelude.{
  ℕ, zero, suc, ◌+◌, ◌-◌, ◌*◌, ◌/◌, ◌%◌, ◌^◌, Bool, List, [], ◌∷◌, ◌++◌, leb, if◌then◌else◌, length,
  take, drop, ltb,
}
use p2p_demo.Outcome.{Outcome, ok, throw, undefined, out_of_range, ◌>>=◌}

abbrev pub Bytes : Type 0
Bytes = List ℕ

abbrev pub u8 : ℕ → ℕ
u8 n = n % 2 ^ 8

abbrev pub u16 : ℕ → ℕ
u16 n = n % 2 ^ 16

abbrev pub u32 : ℕ → ℕ
u32 n = n % 2 ^ 32

-- `str[i]`: the byte at the very end is NUL, and behind that the behaviour is undefined.
unfoldable pub byte_at : Bytes → ℕ → Outcome ℕ
byte_at [] zero = ok 0
byte_at [] (suc i) = undefined
byte_at (x ∷ xs) zero = ok x
byte_at (x ∷ xs) (suc i) = byte_at xs i

-- `str.substr(pos)`
unfoldable pub substr : Bytes → ℕ → Outcome Bytes
substr str pos = if ltb (length str) pos then throw out_of_range else ok (drop pos str)

unfoldable pub short2string : ℕ → Bytes
short2string i = i % 256 ∷ i / 256 % 256 ∷ []

unfoldable pub string2short : Bytes → ℕ → Outcome ℕ
string2short str pos = do a ← byte_at str pos; b ← byte_at str (pos + 1); ok (a + 256 * b)

unfoldable pub int2string : ℕ → Bytes
int2string i = i % 256 ∷ i / 256 % 256 ∷ i / 65536 % 256 ∷ i / 16777216 % 256 ∷ []

-- The four bytes are read as an `int`, which the result type `size_t` extends by its sign.
abbrev pub sign_extend : ℕ → ℕ
sign_extend v = if leb (2 ^ 31) v then v + 2 ^ 64 - 2 ^ 32 else v

unfoldable pub string2uint : Bytes → ℕ → Outcome ℕ
string2uint str pos = do
  a ← byte_at str pos
  b ← byte_at str (pos + 1)
  c ← byte_at str (pos + 2)
  d ← byte_at str (pos + 3)
  ok (sign_extend (a + 256 * b + 65536 * c + 16777216 * d))

-- `htonl` and `ntohl` on a little-endian machine.
unfoldable pub htonl : ℕ → ℕ
htonl i =
    16777216 * (i % 256) + 65536 * (i / 256 % 256) + 256 * (i / 65536 % 256) + i / 16777216 % 256
