-- ===== src/Util/Printf.antt =====
-- Texts of addresses and numbers: `itoaddress`, and what `sprintf` writes to a line.
pub mod Laws
use p2p_demo.Prelude.{
  ℕ, zero, suc, ◌+◌, ◌-◌, ◌*◌, ◌/◌, ◌%◌, ◌^◌, Bool, true, false, List, [], ◌∷◌, ◌++◌, length, ltb,
  if◌then◌else◌,
}
use p2p_demo.Outcome.{Outcome, ok, undefined}
use p2p_demo.Wire.{Bytes}
use p2p_demo.Util.Hex.{hex_digit}
use p2p_demo.Util.Decimal.{decimal, int_decimal}
use p2p_demo.Util.Read.{maxline}

-- The text with its NUL in an array of `MAXLINE` characters.
unfoldable pub sprintf : Bytes → Outcome Bytes
sprintf text = if ltb (length text) maxline then ok text else undefined

-- `n / 16` falls below the fuel.
hex_from : ℕ → ℕ → Bytes
hex_from zero n = []
hex_from (suc fuel) n =
    let front = hex_from fuel (n / 16) in
    if ltb n 16 then hex_digit false n ∷ [] else front ++ hex_digit false (n % 16) ∷ []

-- `%x`, of the 32 bits of an `int`, which have eight digits at most.
unfoldable pub print_hex : ℕ → Bytes
unfolding hex_from
print_hex v = hex_from 8 (v % 2 ^ 32)

-- `%d` of the 32 bits of an `int`, and `%lu`
unfoldable pub print_int : ℕ → Bytes
print_int v = int_decimal (v % 2 ^ 32)

unfoldable pub print_long : ℕ → Bytes
print_long v = decimal (v % 2 ^ 64)

-- `itoaddress`: `inet_ntoa` writes the four bytes of the address, the highest first.
unfoldable pub itoaddress : ℕ → Bytes
itoaddress ip =
    decimal (ip / 2 ^ 24 % 256)
    ++ b'.'
      ∷ (decimal (ip / 2 ^ 16 % 256)
          ++ b'.' ∷ (decimal (ip / 2 ^ 8 % 256) ++ b'.' ∷ decimal (ip % 256)))
