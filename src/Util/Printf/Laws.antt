-- ===== src/Util/Printf/Laws.antt =====
-- Addresses are told apart by their texts, and no number has more characters than its type allows.
use p2p_demo.Prelude.{
  ℕ, zero, suc, ◌/◌, ◌%◌, ◌^◌, ◌<◌, ◌≤◌, ◌≡◌, refl, ap, sym, ◌∙◌, false, inl, inr, [], ◌∷◌, ◌++◌,
  length, length-append, ltb, lt→ltb, le→not-ltb, arith, Bool-cases, append-nil,
}
use p2p_demo.Outcome.{ok, undefined}
use p2p_demo.Wire.{Bytes}
use p2p_demo.Util.Hex.{hex_digit}
use p2p_demo.Util.Decimal.{decimal, scan_digits}
use p2p_demo.Util.Decimal.Laws.{
  NoDigit, is_digit-dot, scan_digits-decimal, length-decimal, length-int_decimal,
}
use p2p_demo.Util.Read.{maxline}
use p2p_demo.Util.Printf.{sprintf, hex_from, print_hex, print_int, print_long, itoaddress}

-- Where two texts begin with a number and go on with no digit, the numbers are the same, and so is
-- what follows.
decimal-append :
    (m n : ℕ) (s t : Bytes)
    → NoDigit s
    → NoDigit t
    → decimal m ++ s ≡ decimal n ++ t
    → (m ≡ n) × (s ≡ t)
decimal-append m n s t hs ht e =
    let both : (m, s) ≡ (n, t) =
      sym (scan_digits-decimal m s hs) ∙ ap (scan_digits 0) e ∙ scan_digits-decimal n t ht in
    (ap (λ (p : ℕ × Bytes). p.0) both, ap (λ (p : ℕ × Bytes). p.1) both)

behind_dot : {s t : Bytes} → (b'.' ∷ s) ≡ (b'.' ∷ t) → s ≡ t
behind_dot e = cc

-- Two addresses of 32 bits with one text are the same.
pub itoaddress_injective : (a b : ℕ) → a < 2 ^ 32 → b < 2 ^ 32 → itoaddress a ≡ itoaddress b → a ≡ b
unfolding itoaddress
itoaddress_injective a b ha hb e =
    let (e₃, r₃) =
      decimal-append (a / 2 ^ 24 % 256) (b / 2 ^ 24 % 256) _ _ is_digit-dot is_digit-dot e in
    let (e₂, r₂) =
      decimal-append (a / 2 ^ 16 % 256) (b / 2 ^ 16 % 256) _ _ is_digit-dot is_digit-dot
        (behind_dot r₃) in
    let (e₁, r₁) =
      decimal-append (a / 2 ^ 8 % 256) (b / 2 ^ 8 % 256) _ _ is_digit-dot is_digit-dot
        (behind_dot r₂) in
    let last : decimal (a % 256) ++ [] ≡ decimal (b % 256) ++ [] =
      append-nil _ ∙ (behind_dot r₁) ∙ sym (append-nil _) in
    let (e₀, _) = decimal-append (a % 256) (b % 256) [] [] tt tt last in
    omega (arith, e₃, e₂, e₁, e₀)

length-hex_from : (fuel n : ℕ) → length (hex_from fuel n) ≤ fuel
unfolding hex_from
length-hex_from zero n = omega arith
length-hex_from (suc fuel) n = elim (Bool-cases (ltb n 16)) [
  | inl small ↦ rw small (omega arith)
  | inr large ↦
      let front = hex_from fuel (n / 16) in
      rw large (
        omega (
          arith,
          length-append front (hex_digit false (n % 16) ∷ []),
          length-hex_from fuel (n / 16),
        ))
]

pub length-print_hex : (v : ℕ) → length (print_hex v) ≤ 8
unfolding print_hex
length-print_hex v = length-hex_from 8 (v % 2 ^ 32)

pub length-print_int : (v : ℕ) → length (print_int v) ≤ 11
unfolding print_int
length-print_int v = length-int_decimal (v % 2 ^ 32) (omega arith)

pub length-print_long : (v : ℕ) → length (print_long v) ≤ 20
unfolding print_long
length-print_long v = length-decimal 19 (v % 2 ^ 64) (omega arith)

length-byte : (n : ℕ) → length (decimal (n % 256)) ≤ 3
length-byte n = length-decimal 2 (n % 256) (omega arith)

pub length-itoaddress : (ip : ℕ) → length (itoaddress ip) ≤ 15
unfolding itoaddress
length-itoaddress ip =
    let a = decimal (ip / 2 ^ 24 % 256) in
    let b = decimal (ip / 2 ^ 16 % 256) in
    let c = decimal (ip / 2 ^ 8 % 256) in
    let d = decimal (ip % 256) in
    omega (
      arith,
      length-append a (b'.' ∷ (b ++ b'.' ∷ (c ++ b'.' ∷ d))),
      length-append b (b'.' ∷ (c ++ b'.' ∷ d)),
      length-append c (b'.' ∷ d),
      length-byte (ip / 2 ^ 24),
      length-byte (ip / 2 ^ 16),
      length-byte (ip / 2 ^ 8),
      length-byte ip,
    )

pub sprintf-short : (text : Bytes) → length text < maxline → sprintf text ≡ ok text
unfolding sprintf
sprintf-short text h = rw (sprintf, lt→ltb _ _ h) refl

pub sprintf-long : (text : Bytes) → maxline ≤ length text → sprintf text ≡ undefined
unfolding sprintf
sprintf-long text h = rw (sprintf, le→not-ltb _ _ h) refl
