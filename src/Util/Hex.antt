-- ===== src/Util/Hex.antt =====
-- `toHex` and `rand_lim`. An id is kept in the maps by its hexadecimal form, so the form has to
-- tell ids apart.
use p2p_demo.Prelude.{
  ℕ, ◌+◌, ◌-◌, ◌*◌, ◌/◌, ◌%◌, ◌^◌, ◌≤◌, ◌<◌, ◌≡◌, refl, Bool, true, false, [], ◌∷◌, length, All,
  ltb, if◌then◌else◌, arith,
}
use native.Mathlib.Nat.{div-add-mod}
use p2p_demo.Wire.{Bytes, u8, u32}
use p2p_demo.Wire.Laws.{IsByte}

unfoldable pub hex_digit : Bool → ℕ → ℕ
hex_digit upper_case n =
    if ltb n 10 then b'0' + n else (if upper_case then b'A' else b'a') + (n - 10)

-- `setw(2)` with fill '0': two digits for each byte.
unfoldable pub to_hex : Bool → Bytes → Bytes
unfolding hex_digit
to_hex upper_case [] = []
to_hex upper_case (b ∷ s) =
    hex_digit upper_case (b / 16) ∷ hex_digit upper_case (b % 16) ∷ to_hex upper_case s

hex_digit_injective :
    (upper_case : Bool) (m n : ℕ)
    → m < 16
    → n < 16
    → hex_digit upper_case m ≡ hex_digit upper_case n
    → m ≡ n
unfolding hex_digit
hex_digit_injective true m n hm hn e = ground arith
hex_digit_injective false m n hm hn e = ground arith

pub length-to_hex : (upper_case : Bool) (s : Bytes) → length (to_hex upper_case s) ≡ 2 * length s
unfolding to_hex
length-to_hex upper_case [] = refl
length-to_hex upper_case (b ∷ s) = omega (arith, length-to_hex upper_case s)

-- Two strings of bytes with the same hexadecimal form are one string.
pub to_hex_injective :
    (upper_case : Bool) (s t : Bytes)
    → All IsByte s
    → All IsByte t
    → to_hex upper_case s ≡ to_hex upper_case t
    → s ≡ t
unfolding to_hex
to_hex_injective u [] [] hs ht e = refl
to_hex_injective u [] (c ∷ t) hs ht e = cc
to_hex_injective u (b ∷ s) [] hs ht e = cc
to_hex_injective u (b ∷ s) (c ∷ t) hs ht e = ground (
  arith,
  hex_digit_injective u (b / 16) (c / 16) (omega (arith, hs.0)) (omega (arith, ht.0)),
  hex_digit_injective u (b % 16) (c % 16) (omega arith) (omega arith),
  to_hex_injective u s t hs.1 ht.1,
)

-- `(unsigned char) x - x / (limit + 1) * (limit + 1)`: the cast binds tighter than the difference,
-- which is one of `unsigned int`, and the result is an `unsigned char`.
unfoldable pub rand_lim : ℕ → ℕ → ℕ
rand_lim x limit = let n = u32 (limit + 1) in u8 (u32 (u8 x + 2 ^ 32 - u32 (x / n * n)))

rand_lim_bound :
    (x q r limit : ℕ)
    → x ≡ q + r
    → r ≤ limit
    → x < 2 ^ 31
    → limit < 256
    → u8 (u32 (u8 x + 2 ^ 32 - u32 q)) ≤ limit
rand_lim_bound x q r limit e h hx hl = omega arith

-- For a draw below 2 ^ 31 and a limit below 256 `rand_lim` is at most the limit.
pub rand_lim-le : (x limit : ℕ) → x < 2 ^ 31 → limit < 256 → rand_lim x limit ≤ limit
unfolding rand_lim
rand_lim-le x limit hx hl =
    let n : u32 (limit + 1) ≡ limit + 1 = omega arith in
    rw n (
      rand_lim_bound x (x / (limit + 1) * (limit + 1)) (x % (limit + 1)) limit
        (omega (arith, div-add-mod x (limit + 1))) (omega arith) hx hl)
