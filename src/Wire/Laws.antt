-- ===== src/Wire/Laws.antt =====
-- Reading back the integers of the wire format, and reads that stay inside a string.
use p2p_demo.Prelude.{
  drop, le→not-ltb, ℕ, zero, suc, ◌+◌, ◌*◌, ◌/◌, ◌%◌, ◌^◌, ◌≤◌, ◌<◌, ◌≡◌, refl, ap, [], ◌∷◌, ◌++◌,
  arith, length,
}
use p2p_demo.Outcome.{Outcome, ok, undefined, ◌>>=◌}
use p2p_demo.Wire.{
  substr, Bytes, u32, byte_at, short2string, string2short, int2string, string2uint, sign_extend,
  htonl,
}

abbrev pub IsByte : ℕ → Type 0
IsByte b = b < 256

pub byte_at-append :
    (n i : ℕ) (xs ys : Bytes) → length xs ≡ n → byte_at (xs ++ ys) (n + i) ≡ byte_at ys i
unfolding byte_at
byte_at-append zero i [] ys h = let e : 0 + i ≡ i = omega arith in rw e
byte_at-append zero i (x ∷ xs) ys h = absurd (omega arith)
byte_at-append (suc n) i [] ys h = absurd (omega arith)
byte_at-append (suc n) i (x ∷ xs) ys h =
    let e : suc n + i ≡ suc (n + i) = omega arith in rw e (byte_at-append n i xs ys (omega arith))

pub byte_at_behind : (n : ℕ) (xs ys : Bytes) → length xs ≡ n → byte_at (xs ++ ys) n ≡ byte_at ys 0
byte_at_behind n xs ys h =
    let e : n + 0 ≡ n = omega arith in rw (← e) (byte_at-append n 0 xs ys (omega arith))

pub byte_at_inside : (i : ℕ) (xs : Bytes) → i ≤ length xs → (b : ℕ) × (byte_at xs i ≡ ok b)
unfolding byte_at
byte_at_inside zero [] h = (0, refl)
byte_at_inside (suc i) [] h = absurd (omega arith)
byte_at_inside zero (x ∷ xs) h = (x, refl)
byte_at_inside (suc i) (x ∷ xs) h = byte_at_inside i xs (omega arith)

pub string2short_inside :
    (i : ℕ) (xs : Bytes) → i + 1 ≤ length xs → (n : ℕ) × (string2short xs i ≡ ok n)
unfolding string2short
string2short_inside i xs h =
    let (a, ea) = byte_at_inside i xs (omega arith) in
    let (b, eb) = byte_at_inside (i + 1) xs h in (a + 256 * b, rw (ea, eb))

pub string2uint_inside :
    (i : ℕ) (xs : Bytes) → i + 3 ≤ length xs → (n : ℕ) × (string2uint xs i ≡ ok n)
unfolding string2uint
string2uint_inside i xs h =
    let (a, ea) = byte_at_inside i xs (omega arith) in
    let (b, eb) = byte_at_inside (i + 1) xs (omega arith) in
    let (c, ec) = byte_at_inside (i + 2) xs (omega arith) in
    let (d, ed) = byte_at_inside (i + 3) xs h in
    (sign_extend (a + 256 * b + 65536 * c + 16777216 * d), rw (ea, eb, ec, ed))

pub substr_inside : (i : ℕ) (xs : Bytes) → i ≤ length xs → substr xs i ≡ ok (drop i xs)
unfolding substr
substr_inside i xs h = rw (le→not-ltb (length xs) i h)

pub byte_at_outside : (i : ℕ) (xs : Bytes) → length xs < i → byte_at xs i ≡ undefined
unfolding byte_at
byte_at_outside zero xs h = absurd (omega arith)
byte_at_outside (suc i) [] h = refl
byte_at_outside (suc i) (x ∷ xs) h = byte_at_outside i xs (omega arith)

module _ (n i : ℕ) (xs ys : Bytes) (h : length xs ≡ n) where
  pub string2short-append : string2short (xs ++ ys) (n + i) ≡ string2short ys i
  unfolding string2short
  string2short-append =
      let e : n + i + 1 ≡ n + (i + 1) = omega arith in
      rw (e, byte_at-append n i xs ys h, byte_at-append n (i + 1) xs ys h)

  pub string2uint-append : string2uint (xs ++ ys) (n + i) ≡ string2uint ys i
  unfolding string2uint
  string2uint-append =
      let e1 : n + i + 1 ≡ n + (i + 1) = omega arith in
      let e2 : n + i + 2 ≡ n + (i + 2) = omega arith in
      let e3 : n + i + 3 ≡ n + (i + 3) = omega arith in
      rw (
        e1,
        e2,
        e3,
        byte_at-append n i xs ys h,
        byte_at-append n (i + 1) xs ys h,
        byte_at-append n (i + 2) xs ys h,
        byte_at-append n (i + 3) xs ys h,
      )

-- The assignment of a `size_t` to an `unsigned int` undoes the extension by the sign.
pub u32-sign_extend : (v : ℕ) → v < 2 ^ 32 → u32 (sign_extend v) ≡ v
u32-sign_extend v h = ground arith

pub short_bytes : (i : ℕ) → i < 2 ^ 16 → i % 256 + 256 * (i / 256 % 256) ≡ i
short_bytes i h = omega arith

pub int_bytes :
    (i : ℕ)
    → i < 2 ^ 32
    → i % 256 + 256 * (i / 256 % 256) + 65536 * (i / 65536 % 256) + 16777216 * (i / 16777216 % 256)
      ≡ i
int_bytes i h = omega arith

pub htonl_invol : (i : ℕ) → i < 2 ^ 32 → htonl (htonl i) ≡ i
unfolding htonl
htonl_invol i h = omega arith

pub htonl-lt : (i : ℕ) → htonl i < 2 ^ 32
unfolding htonl
htonl-lt i = omega arith

pub string2short-short2string :
    (i : ℕ) (rest : Bytes) → i < 2 ^ 16 → string2short (short2string i ++ rest) 0 ≡ ok i
unfolding string2short short2string byte_at
string2short-short2string i rest h = ap ok (short_bytes i h)

-- `string2uint` reads from what `int2string` writes of a number below 2 ^ 32 that number extended
-- by its sign, whatever follows.
pub string2uint-int2string :
    (i : ℕ) (rest : Bytes) → i < 2 ^ 32 → string2uint (int2string i ++ rest) 0 ≡ ok (sign_extend i)
unfolding string2uint int2string byte_at
string2uint-int2string i rest h = ap (λ v. ok (sign_extend v)) (int_bytes i h)

-- A read is defined or it is not; if the rest of the code is undefined in any case, so is all.
pub byte_at-bind_undefined {ℓ} :
    {B : Type ℓ} (xs : Bytes) (i : ℕ) (f : ℕ → Outcome B)
    → ((b : ℕ) → f b ≡ undefined)
    → (byte_at xs i >>= f) ≡ undefined
unfolding byte_at
byte_at-bind_undefined [] zero f h = h 0
byte_at-bind_undefined [] (suc i) f h = refl
byte_at-bind_undefined (x ∷ xs) zero f h = h x
byte_at-bind_undefined (x ∷ xs) (suc i) f h = byte_at-bind_undefined xs i f h

pub string2uint_outside : (i : ℕ) (xs : Bytes) → length xs < i + 3 → string2uint xs i ≡ undefined
unfolding string2uint
string2uint_outside i xs h = byte_at-bind_undefined xs i _ λ a.
    byte_at-bind_undefined xs (i + 1) _
      λ b. byte_at-bind_undefined xs (i + 2) _ λ c. rw (byte_at_outside (i + 3) xs h)
