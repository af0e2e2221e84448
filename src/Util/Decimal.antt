-- ===== src/Util/Decimal.antt =====
-- Numbers in texts: what `%d`, `%lu` and `atoi` read and write.
pub mod Laws
use p2p_demo.Prelude.{
  ℕ, zero, suc, ◌+◌, ◌-◌, ◌*◌, ◌/◌, ◌%◌, ◌^◌, ◌<◌, ◌≤◌, ◌≡◌, refl, ◌∙◌, ap, Bool, true, false, ◌&&◌,
  ◌||◌, inl, inr, List, [], ◌∷◌, ◌++◌, All, Option, none, some, ltb, leb, ◌==◌, if◌then◌else◌,
  arith, append_assoc, append-nil, sym, Bool-cases, lt→ltb, le→not-ltb, ltb→lt, not-ltb→le,
}
use p2p_demo.Wire.{Bytes, u32}
use p2p_demo.Util.Split.{ltrim, isspace}

pub is_digit : ℕ → Bool
is_digit c = leb b'0' c && leb c b'9'

-- `n / 10` falls below the fuel, so `n + 1` is enough.
dec_from : ℕ → ℕ → Bytes
dec_from zero n = []
dec_from (suc fuel) n =
    let front = dec_from fuel (n / 10) in
    if ltb n 10 then (b'0' + n) ∷ [] else front ++ (b'0' + n % 10) ∷ []

-- `%lu`
unfoldable pub decimal : ℕ → Bytes
unfolding dec_from
decimal n = dec_from (n + 1) n

-- `%d` of the bit pattern of an `int`
unfoldable pub int_decimal : ℕ → Bytes
unfolding decimal
int_decimal v = if ltb v (2 ^ 31) then decimal v else b'-' ∷ decimal (2 ^ 32 - v)

-- The digits at the front, behind those that make `acc`.
unfoldable pub scan_digits : ℕ → Bytes → ℕ × Bytes
unfolding is_digit
scan_digits acc [] = (acc, [])
scan_digits acc (b ∷ s) =
    let more = scan_digits (acc * 10 + (b - b'0')) s in if is_digit b then more else (acc, b ∷ s)

-- `strtol` stops at the ends of a `long`, and the result is cut to an `int`.
unfoldable pub to_int : Bool → ℕ → ℕ
to_int negative v =
    if negative
    then (if ltb (2 ^ 63) v then 0 else u32 (2 ^ 64 - v))
    else if leb (2 ^ 63) v
    then 2 ^ 32 - 1
    else u32 v

-- The same for `strtoul` and an `unsigned long`.
unfoldable pub to_long : Bool → ℕ → ℕ
to_long negative v =
    if leb (2 ^ 64) v then 2 ^ 64 - 1 else if negative then (2 ^ 64 - v) % 2 ^ 64 else v

scan_unsigned : (Bool → ℕ → ℕ) → Bool → Bytes → Option (ℕ × Bytes)
scan_unsigned to negative [] = none
scan_unsigned to negative (b ∷ s) =
    let (v, rest) = scan_digits 0 (b ∷ s) in if is_digit b then some (to negative v, rest) else none

scan_signed : (Bool → ℕ → ℕ) → Bytes → Option (ℕ × Bytes)
scan_signed to [] = none
scan_signed to (b ∷ s) =
    if b == b'-'
    then scan_unsigned to true s
    else if b == b'+'
    then scan_unsigned to false s
    else scan_unsigned to false (b ∷ s)

-- `%d`: spaces, a sign, digits. Nothing where there is no digit.
unfoldable pub scan_int : Bytes → Option (ℕ × Bytes)
unfolding scan_unsigned scan_signed
scan_int s = scan_signed to_int (ltrim s)

-- `%lu`
unfoldable pub scan_long : Bytes → Option (ℕ × Bytes)
unfolding scan_unsigned scan_signed
scan_long s = scan_signed to_long (ltrim s)

unfoldable pub atoi : Bytes → ℕ
unfolding scan_int
atoi s = elim (scan_int s) [ none ↦ 0 | some (v, rest) ↦ v ]
