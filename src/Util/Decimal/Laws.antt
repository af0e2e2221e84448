-- ===== src/Util/Decimal/Laws.antt =====
-- What is written of a number is read again.
use p2p_demo.Prelude.{
  ℕ, zero, suc, ◌+◌, ◌-◌, ◌*◌, ◌/◌, ◌%◌, ◌^◌, ◌<◌, ◌≤◌, ◌≡◌, refl, ◌∙◌, ap, Bool, true, false, inl,
  inr, [], ◌∷◌, ◌++◌, All, All-append, some, ltb, arith, append_assoc, append-nil, sym, Bool-cases,
  lt→ltb, le→not-ltb, ltb→lt, not-ltb→le, length, length-append,
}
use p2p_demo.Wire.{Bytes}
use p2p_demo.Util.Split.{ltrim, isspace}
use p2p_demo.Util.Decimal.{
  is_digit, dec_from, decimal, int_decimal, scan_digits, to_int, to_long, scan_unsigned,
  scan_signed, scan_int, scan_long, atoi,
}

-- The text does not begin with a digit.
abbrev pub NoDigit : Bytes → Type 0
NoDigit [] = Unit {0}
NoDigit (b ∷ s) = is_digit b ≡ false

scan_digits-stop : (acc : ℕ) (rest : Bytes) → NoDigit rest → scan_digits acc rest ≡ (acc, rest)
unfolding scan_digits is_digit
scan_digits-stop acc [] h = refl
scan_digits-stop acc (b ∷ s) h = rw (scan_digits, h)

scan_digits-digit :
    (acc d : ℕ) (rest : Bytes)
    → d < 10
    → scan_digits acc ((b'0' + d) ∷ rest) ≡ scan_digits (acc * 10 + d) rest
unfolding scan_digits is_digit
scan_digits-digit acc d rest h =
    let e : is_digit (b'0' + d) ≡ true = ground arith in
    let k : b'0' + d - b'0' ≡ d = omega arith in rw (scan_digits, e, k)

scan_digits-dec_from :
    (fuel n : ℕ) (rest : Bytes)
    → n < fuel
    → scan_digits 0 (dec_from fuel n ++ rest) ≡ scan_digits n rest
unfolding dec_from
scan_digits-dec_from zero n rest h = absurd (omega arith)
scan_digits-dec_from (suc fuel) n rest h = elim (Bool-cases (ltb n 10)) [
  | inl small ↦ rw small (
      scan_digits-digit 0 n rest (ground (arith, small))
      ∙ ap (λ k. scan_digits k rest) (omega arith))
  | inr large ↦
      rw (large, append_assoc)
        (scan_digits-dec_from fuel (n / 10) ((b'0' + n % 10) ∷ rest) (ground (arith, large))
          ∙ scan_digits-digit (n / 10) (n % 10) rest (omega arith)
          ∙ ap (λ k. scan_digits k rest) (omega arith))
]

-- What is written of a number is read again, up to what follows.
pub scan_digits-decimal :
    (n : ℕ) (rest : Bytes) → NoDigit rest → scan_digits 0 (decimal n ++ rest) ≡ (n, rest)
unfolding decimal
scan_digits-decimal n rest h =
    scan_digits-dec_from (n + 1) n rest (omega arith) ∙ scan_digits-stop n rest h

ltrim-digit : (b : ℕ) (s : Bytes) → is_digit b ≡ true → ltrim (b ∷ s) ≡ b ∷ s
unfolding ltrim is_digit isspace
ltrim-digit b s h = ground arith

scan_signed-digit :
    (to : Bool → ℕ → ℕ) (b : ℕ) (s : Bytes)
    → is_digit b ≡ true
    → scan_signed to (b ∷ s) ≡ scan_unsigned to false (b ∷ s)
unfolding scan_signed is_digit
scan_signed-digit to b s h = ground arith

-- A text that begins with a digit.
pub record IsNumeral (s : Bytes) : Type 0 where
  pub first : ℕ
  pub others : Bytes
  pub splits : s ≡ first ∷ others
  pub digit : is_digit first ≡ true

append-IsNumeral : (s t : Bytes) → IsNumeral s → IsNumeral (s ++ t)
append-IsNumeral s t d = record {
  first = d.first;
  others = d.others ++ t;
  splits = ap (λ u. u ++ t) d.splits;
  digit = d.digit;
}

dec_from-IsNumeral : (fuel n : ℕ) → n < fuel → IsNumeral (dec_from fuel n)
unfolding dec_from is_digit
dec_from-IsNumeral zero n h = absurd (omega arith)
dec_from-IsNumeral (suc fuel) n h = elim (Bool-cases (ltb n 10)) [
  | inl small ↦
      rw small
        (record { first = b'0' + n; others = []; splits = refl; digit = ground (arith, small) })
  | inr large ↦
      rw large (append-IsNumeral _ _ (dec_from-IsNumeral fuel (n / 10) (ground (arith, large))))
]

pub decimal-IsNumeral : (n : ℕ) → IsNumeral (decimal n)
unfolding decimal
decimal-IsNumeral n = dec_from-IsNumeral (n + 1) n (omega arith)

to_int_pos : (v : ℕ) → v < 2 ^ 31 → to_int false v ≡ v
unfolding to_int
to_int_pos v h = ground arith

to_int_neg : (v : ℕ) → 2 ^ 31 ≤ v → v < 2 ^ 32 → to_int true (2 ^ 32 - v) ≡ v
unfolding to_int
to_int_neg v lo hi = ground arith

scan_unsigned-decimal :
    (to : Bool → ℕ → ℕ) (negative : Bool) (n : ℕ) (rest : Bytes)
    → NoDigit rest
    → scan_unsigned to negative (decimal n ++ rest) ≡ some (to negative n, rest)
unfolding scan_unsigned
scan_unsigned-decimal to negative n rest h =
    let d : IsNumeral (decimal n) = decimal-IsNumeral n in
    let e : scan_digits 0 (d.first ∷ (d.others ++ rest)) ≡ (n, rest) =
      rw d.splits at (scan_digits-decimal n rest h) in
    rw (d.splits, scan_unsigned, e, d.digit)

scan_signed-numeral :
    (to : Bool → ℕ → ℕ) (s : Bytes)
    → IsNumeral s
    → scan_signed to (ltrim s) ≡ scan_unsigned to false s
scan_signed-numeral to s d =
    let e : ltrim (d.first ∷ d.others) ≡ d.first ∷ d.others =
      ltrim-digit d.first d.others d.digit in
    rw (d.splits, e) (scan_signed-digit to d.first d.others d.digit)

scan_int-minus : (s : Bytes) → scan_int (b'-' ∷ s) ≡ scan_unsigned to_int true s
unfolding scan_int scan_signed ltrim isspace
scan_int-minus s = refl

int_decimal-pos : (v : ℕ) → v < 2 ^ 31 → int_decimal v ≡ decimal v
unfolding int_decimal
int_decimal-pos v h = rw (lt→ltb _ _ h)

int_decimal-neg : (v : ℕ) → 2 ^ 31 ≤ v → int_decimal v ≡ b'-' ∷ decimal (2 ^ 32 - v)
unfolding int_decimal
int_decimal-neg v h = rw (le→not-ltb _ _ h)

-- What `%d` writes of an `int` it reads again, up to what follows.
pub scan_int-int_decimal :
    (v : ℕ) (rest : Bytes)
    → v < 2 ^ 32
    → NoDigit rest
    → scan_int (int_decimal v ++ rest) ≡ some (v, rest)
unfolding scan_int
scan_int-int_decimal v rest h k = elim (Bool-cases (ltb v (2 ^ 31))) [
  | inl small ↦
      let lt : v < 2 ^ 31 = ltb→lt _ _ small in
      rw (int_decimal-pos v lt) (
        scan_signed-numeral to_int _ (append-IsNumeral _ rest (decimal-IsNumeral v))
        ∙ scan_unsigned-decimal to_int false v rest k
        ∙ rw (to_int_pos v lt))
  | inr large ↦
      let le : 2 ^ 31 ≤ v = not-ltb→le _ _ large in
      rw (int_decimal-neg v le) (
        scan_int-minus (decimal (2 ^ 32 - v) ++ rest)
        ∙ scan_unsigned-decimal to_int true (2 ^ 32 - v) rest k
        ∙ rw (to_int_neg v le h))
]

-- `atoi` reads what is written of an `int`.
pub atoi-int_decimal : (v : ℕ) → v < 2 ^ 32 → atoi (int_decimal v) ≡ v
unfolding atoi
atoi-int_decimal v h =
    let e : scan_int (int_decimal v) ≡ some (v, []) =
      ap scan_int (sym (append-nil (int_decimal v))) ∙ scan_int-int_decimal v [] h tt in
    rw (atoi, e)

to_long_pos : (v : ℕ) → v < 2 ^ 64 → to_long false v ≡ v
unfolding to_long
to_long_pos v h = ground arith

-- What `%lu` writes it reads again, up to what follows.
pub scan_long-decimal :
    (v : ℕ) (rest : Bytes)
    → v < 2 ^ 64
    → NoDigit rest
    → scan_long (decimal v ++ rest) ≡ some (v, rest)
unfolding scan_long
scan_long-decimal v rest h k =
    scan_signed-numeral to_long _ (append-IsNumeral _ rest (decimal-IsNumeral v))
    ∙ scan_unsigned-decimal to_long false v rest k
    ∙ rw (to_long_pos v h)

dec_from-All :
    (P : ℕ → Type 0) → ((d : ℕ) → d < 10 → P (b'0' + d)) → (fuel n : ℕ) → All P (dec_from fuel n)
unfolding dec_from
dec_from-All P h zero n = tt
dec_from-All P h (suc fuel) n = elim (Bool-cases (ltb n 10)) [
  | inl small ↦ rw small (h n (ltb→lt _ _ small), tt)
  | inr large ↦ rw large (
      All-append P (dec_from fuel (n / 10)) ((b'0' + n % 10) ∷ []) (dec_from-All P h fuel (n / 10))
        (h (n % 10) (omega arith), tt))
]

-- Digits, and a minus sign before them.
pub int_decimal-All :
    (P : ℕ → Type 0) (v : ℕ) → ((d : ℕ) → d < 10 → P (b'0' + d)) → P b'-' → All P (int_decimal v)
unfolding int_decimal decimal
int_decimal-All P v h k = elim (Bool-cases (ltb v (2 ^ 31))) [
  | inl small ↦ rw small (dec_from-All P h (v + 1) v)
  | inr large ↦ rw large (k, dec_from-All P h (2 ^ 32 - v + 1) (2 ^ 32 - v))
]

pub decimal-All : (P : ℕ → Type 0) (v : ℕ) → ((d : ℕ) → d < 10 → P (b'0' + d)) → All P (decimal v)
unfolding decimal
decimal-All P v h = dec_from-All P h (v + 1) v

pub not_digit : (b : ℕ) → b < b'0' → is_digit b ≡ false
unfolding is_digit
not_digit b h = ground arith

pub is_digit-dot : is_digit b'.' ≡ false
unfolding is_digit
is_digit-dot = refl

abbrev pub ten_to : ℕ → ℕ
ten_to zero = 1
ten_to (suc k) = 10 * ten_to k

length-dec_from : (fuel k n : ℕ) → n < ten_to (suc k) → length (dec_from fuel n) ≤ suc k
unfolding dec_from
length-dec_from zero k n h = omega arith
length-dec_from (suc fuel) zero n h = rw (lt→ltb n 10 (omega (arith, h))) (omega arith)
length-dec_from (suc fuel) (suc k) n h = elim (Bool-cases (ltb n 10)) [
  | inl small ↦ rw small (omega arith)
  | inr large ↦
      let front = dec_from fuel (n / 10) in
      let h' : n < 10 * (10 * ten_to k) = h in
      rw large (
        omega (
          arith,
          length-append front ((b'0' + n % 10) ∷ []),
          length-dec_from fuel k (n / 10) (omega (arith, h')),
        ))
]

-- A number below the power of ten with that exponent has no more digits.
pub length-decimal : (k n : ℕ) → n < ten_to (suc k) → length (decimal n) ≤ suc k
unfolding decimal
length-decimal k n h = length-dec_from (n + 1) k n h

-- An `int` takes eleven characters at most.
pub length-int_decimal : (v : ℕ) → v < 2 ^ 32 → length (int_decimal v) ≤ 11
unfolding int_decimal
length-int_decimal v h = elim (Bool-cases (ltb v (2 ^ 31))) [
  | inl pos ↦ rw pos (omega (arith, length-decimal 9 v (omega (arith, h))))
  | inr neg ↦
      rw neg (omega (arith, length-decimal 9 (2 ^ 32 - v) (omega (arith, not-ltb→le _ _ neg))))
]
