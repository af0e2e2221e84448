-- ===== src/Util/Text.antt =====
-- `toUpper`, `startsWith` and `std::string::find` as the matching of keywords uses them.
use p2p_demo.Prelude.{
  ℕ, ◌-◌, ◌≡◌, refl, ap, inl, inr, Bool, true, false, ◌&&◌, ◌||◌, [], ◌∷◌, ◌++◌, map, leb, ltb,
  ◌==◌, ◌↔◌, if◌then◌else◌, arith, Bool-cases,
}
use p2p_demo.Wire.{Bytes}

-- `toupper` in the C locale.
toupper : ℕ → ℕ
toupper c = if leb b'a' c && leb c b'z' then c - 32 else c

unfoldable pub to_upper : Bytes → Bytes
unfolding toupper
to_upper s = map toupper s

unfoldable pub bytes_eq : Bytes → Bytes → Bool
bytes_eq [] [] = true
bytes_eq (x ∷ xs) (y ∷ ys) = x == y && bytes_eq xs ys
bytes_eq _ _ = false

pub bytes_eq→eq : (xs ys : Bytes) → bytes_eq xs ys ≡ true → xs ≡ ys
unfolding bytes_eq
bytes_eq→eq [] [] h = refl
bytes_eq→eq [] (y ∷ ys) h = cc
bytes_eq→eq (x ∷ xs) [] h = cc
bytes_eq→eq (x ∷ xs) (y ∷ ys) h = ground (arith, bytes_eq→eq xs ys)

pub bytes_eq_refl : (xs : Bytes) → bytes_eq xs xs ≡ true
unfolding bytes_eq
bytes_eq_refl [] = refl
bytes_eq_refl (x ∷ xs) = ground (arith, bytes_eq_refl xs)

is_prefix : Bytes → Bytes → Bool
is_prefix [] s = true
is_prefix (x ∷ xs) [] = false
is_prefix (x ∷ xs) (y ∷ ys) = x == y && is_prefix xs ys

-- `s.find(sub) != npos`: `sub` occurs at some position, the end included.
unfoldable pub contains : Bytes → Bytes → Bool
unfolding is_prefix
contains sub [] = is_prefix sub []
contains sub (y ∷ ys) = is_prefix sub (y ∷ ys) || contains sub ys

-- `s.find(sub) == 0`
unfoldable pub starts_with : Bytes → Bytes → Bool
unfolding is_prefix
starts_with s sub = is_prefix sub s

is_prefix_sound : (xs ys : Bytes) → is_prefix xs ys ≡ true → (post : Bytes) × (ys ≡ xs ++ post)
unfolding is_prefix
is_prefix_sound [] ys h = (ys, refl)
is_prefix_sound (x ∷ xs) [] h = cc
is_prefix_sound (x ∷ xs) (y ∷ ys) h =
    let (post, e) = is_prefix_sound xs ys (ground arith) in (post, ground (arith, e))

is_prefix-append : (xs post : Bytes) → is_prefix xs (xs ++ post) ≡ true
unfolding is_prefix
is_prefix-append [] post = refl
is_prefix-append (x ∷ xs) post = ground (arith, is_prefix-append xs post)

-- `sub` is found exactly in the texts that have it somewhere inside.
pub contains_sound :
    (sub s : Bytes)
    → contains sub s ≡ true
    → (pre : Bytes) × (post : Bytes) × (s ≡ pre ++ (sub ++ post))
unfolding contains
contains_sound sub [] h = let (post, e) = is_prefix_sound sub [] h in ([], post, e)
contains_sound sub (y ∷ ys) h = elim (Bool-cases (is_prefix sub (y ∷ ys))) [
  | inl here ↦ let (post, e) = is_prefix_sound sub (y ∷ ys) here in ([], post, e)
  | inr later ↦
      let (pre, post, e) = contains_sound sub ys (ground arith) in (y ∷ pre, post, ap (◌∷◌ y) e)
]

contains_here : (sub post : Bytes) → contains sub (sub ++ post) ≡ true
unfolding contains is_prefix
contains_here [] [] = refl
contains_here [] (y ∷ ys) = refl
contains_here (x ∷ xs) post = ground (arith, is_prefix-append (x ∷ xs) post)

pub contains_complete : (sub pre post : Bytes) → contains sub (pre ++ (sub ++ post)) ≡ true
unfolding contains
contains_complete sub [] post = contains_here sub post
contains_complete sub (y ∷ pre) post = ground (arith, contains_complete sub pre post)

toupper_idem : (c : ℕ) → toupper (toupper c) ≡ toupper c
unfolding toupper
toupper_idem c = ground arith

pub to_upper_idem : (s : Bytes) → to_upper (to_upper s) ≡ to_upper s
unfolding to_upper
to_upper_idem [] = refl
to_upper_idem (c ∷ s) = cc (toupper_idem c, to_upper_idem s)

pub bytes_eq_iff : (xs ys : Bytes) → (bytes_eq xs ys ≡ true) ↔ (xs ≡ ys)
bytes_eq_iff xs ys = (bytes_eq→eq xs ys, λ e. rw e (bytes_eq_refl ys))

-- The order of `std::string`.
unfoldable pub bytes_before : Bytes → Bytes → Bool
bytes_before [] [] = false
bytes_before [] (y ∷ ys) = true
bytes_before (x ∷ xs) [] = false
bytes_before (x ∷ xs) (y ∷ ys) = if ltb x y then true else x == y && bytes_before xs ys

pub bytes_before_irrefl : (xs : Bytes) → bytes_before xs xs ≡ false
unfolding bytes_before
bytes_before_irrefl [] = refl
bytes_before_irrefl (x ∷ xs) = ground (arith, bytes_before_irrefl xs)

pub bytes_before_trans :
    (xs ys zs : Bytes)
    → bytes_before xs ys ≡ true
    → bytes_before ys zs ≡ true
    → bytes_before xs zs ≡ true
unfolding bytes_before
bytes_before_trans [] [] zs h k = k
bytes_before_trans [] (y ∷ ys) [] h k = cc
bytes_before_trans [] (y ∷ ys) (z ∷ zs) h k = refl
bytes_before_trans (x ∷ xs) [] zs h k = cc
bytes_before_trans (x ∷ xs) (y ∷ ys) [] h k = cc
bytes_before_trans (x ∷ xs) (y ∷ ys) (z ∷ zs) h k = ground (arith, bytes_before_trans xs ys zs)

pub bytes_before_total :
    (xs ys : Bytes)
    → bytes_eq xs ys ≡ false
    → bytes_before ys xs ≡ false
    → bytes_before xs ys ≡ true
unfolding bytes_before bytes_eq
bytes_before_total [] [] h k = cc
bytes_before_total [] (y ∷ ys) h k = refl
bytes_before_total (x ∷ xs) [] h k = cc
bytes_before_total (x ∷ xs) (y ∷ ys) h k = ground (arith, bytes_before_total xs ys)

pub starts_with-one : (b c : ℕ) (s : Bytes) → starts_with (b ∷ s) (c ∷ []) ≡ (c == b)
unfolding starts_with is_prefix
starts_with-one b c s = ground arith

pub bytes_eq-one : (b c : ℕ) (s : Bytes) → (c == b) ≡ false → bytes_eq (b ∷ s) (c ∷ []) ≡ false
unfolding bytes_eq
bytes_eq-one b c s h = ground (arith, h)

pub starts_with-other :
    (b c : ℕ) (s sub : Bytes) → (c == b) ≡ false → starts_with (b ∷ s) (c ∷ sub) ≡ false
unfolding starts_with is_prefix
starts_with-other b c s sub h = ground (arith, h)

pub starts_with-same : (b : ℕ) (s sub : Bytes) → starts_with (b ∷ s) (b ∷ sub) ≡ starts_with s sub
unfolding starts_with is_prefix
starts_with-same b s sub = ground arith
