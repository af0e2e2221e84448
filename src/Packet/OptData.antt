-- ===== src/Packet/OptData.antt =====
-- class OptData of Packet.cpp: a buffer with its length.
use p2p_demo.Prelude.{ℕ, zero, suc, ◌<◌, ◌^◌, ◌≡◌, refl, [], ◌∷◌, length, take, take_all, arith}
use p2p_demo.Wire.{Bytes, u32}

-- `[]` is the null pointer too: a buffer is allocated only for a length above 0.
pub record OptData : Type 0 where
  pub optlen : ℕ
  pub optdata : Bytes

abbrev pub empty : OptData
empty = record { optlen = 0; optdata = [] }

-- The loop over `i < optlen`. `IsWhole` below says that the buffer has that length.
unfoldable pub to_string : OptData → Bytes
to_string o = take o.optlen o.optdata

-- What the object held is freed. `optlen` is an `unsigned int`.
unfoldable pub parse_string : OptData → Bytes → OptData
parse_string o str = record { optlen = u32 (length str); optdata = str }

unfoldable pub set_opt_data : OptData → Bytes → ℕ → OptData
set_opt_data o buf len = record { optlen = len; optdata = take len buf }

pub spaces : ℕ → Bytes
spaces zero = []
spaces (suc n) = 32 ∷ spaces n

unfoldable pub init_opt_data : OptData → ℕ → OptData
unfolding spaces set_opt_data
init_opt_data o len = set_opt_data o (spaces len) len

-- The length is that of the buffer, and an `unsigned int`.
pub record IsWhole (o : OptData) : Type 0 where
  pub exact : o.optlen ≡ length o.optdata
  pub fits : length o.optdata < 2 ^ 32

pub to_string-IsWhole : (o : OptData) → IsWhole o → to_string o ≡ o.optdata
unfolding to_string
to_string-IsWhole o w = rw (w.exact) (take_all o.optdata)

pub parse_string-IsWhole :
    (o : OptData) (str : Bytes) → length str < 2 ^ 32 → IsWhole (parse_string o str)
unfolding parse_string
parse_string-IsWhole o str h = omega arith

pub length-spaces : (n : ℕ) → length (spaces n) ≡ n
unfolding spaces
length-spaces zero = refl
length-spaces (suc n) = omega (arith, length-spaces n)

-- Parsing a text into the object and printing it again gives the text, whatever was there before.
pub to_string-parse_string :
    (o : OptData) (str : Bytes) → length str < 2 ^ 32 → to_string (parse_string o str) ≡ str
unfolding to_string parse_string
to_string-parse_string o str h =
    let e : u32 (length str) ≡ length str = omega arith in rw e (take_all str)

-- Parsing the whole buffer of an object gives that object.
pub parse_string_whole : (o p : OptData) → IsWhole o → parse_string p o.optdata ≡ o
unfolding parse_string
parse_string_whole o p w = ground (arith, w.exact, w.fits)

pub optlen-parse_string :
    (o : OptData) (str : Bytes) → length str < 2 ^ 32 → (parse_string o str).optlen ≡ length str
unfolding parse_string
optlen-parse_string o str h = omega arith

-- Copying the whole buffer of an object gives that object.
pub set_opt_data_whole : (o p : OptData) → IsWhole o → set_opt_data p o.optdata o.optlen ≡ o
unfolding set_opt_data
set_opt_data_whole o p w =
    let e : take o.optlen o.optdata ≡ o.optdata = rw w.exact (take_all o.optdata) in
    ground (arith, e)
