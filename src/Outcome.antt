-- ===== src/Outcome.antt =====
-- What a piece of the C++ code does: it returns, it throws, or its behaviour is undefined.
use p2p_demo.Prelude.{◌≡◌, refl, Bool, true, false, if◌then◌else◌}

-- `runtime_error` is what the handlers catch; `out_of_range` (of `std::string::substr`) and
-- `bad_alloc` (of `new char[n]` for an `n` that no array can have) they do not.
pub data Exception : Type 0 where
  runtime_error out_of_range bad_alloc : Exception

-- `undefined` stands for a read outside a string or an array.
pub data Outcome {ℓ} (A : Type ℓ) : Type ℓ where
  ok : A → Outcome A
  throw : Exception → Outcome A
  undefined : Outcome A

infixl 5 ◌>>=◌
abbrev pub ◌>>=◌ {ℓ κ} : {A : Type ℓ} {B : Type κ} → Outcome A → (A → Outcome B) → Outcome B
ok a >>= f = f a
throw e >>= f = throw e
undefined >>= f = undefined

-- The code returns a value for which `P` holds, or it throws what its callers catch.
abbrev pub Ensures {ℓ} : {A : Type ℓ} → (A → Type 0) → Outcome A → Type 0
Ensures P (ok a) = P a
Ensures P (throw runtime_error) = Unit
Ensures P (throw out_of_range) = ⊥
Ensures P (throw bad_alloc) = ⊥
Ensures P undefined = ⊥

-- The code returns, or it throws what its callers catch.
abbrev pub IsHandled {ℓ} : {A : Type ℓ} → Outcome A → Type 0
IsHandled m = Ensures (λ _. Unit {0}) m

pub IsHandled-bind {ℓ κ} :
    {A : Type ℓ} {B : Type κ} (m : Outcome A) (f : A → Outcome B)
    → IsHandled m
    → ((a : A) → m ≡ ok a → IsHandled (f a))
    → IsHandled (m >>= f)
IsHandled-bind (ok a) f h k = k a refl
IsHandled-bind (throw runtime_error) f h k = tt
IsHandled-bind (throw out_of_range) f h k = absurd h
IsHandled-bind (throw bad_alloc) f h k = absurd h
IsHandled-bind undefined f h k = absurd h

pub IsHandled-if {ℓ} :
    {A : Type ℓ} (b : Bool) (m n : Outcome A)
    → (b ≡ true → IsHandled m)
    → (b ≡ false → IsHandled n)
    → IsHandled (if b then m else n)
IsHandled-if true m n h k = h refl
IsHandled-if false m n h k = k refl

pub IsHandled-ok {ℓ} : {A : Type ℓ} {m : Outcome A} (a : A) → m ≡ ok a → IsHandled m
IsHandled-ok a e = rw e tt

pub Ensures-bind {ℓ κ} :
    {A : Type ℓ} {B : Type κ} (P : A → Type 0) (Q : B → Type 0) (m : Outcome A) (f : A → Outcome B)
    → Ensures P m
    → ((a : A) → m ≡ ok a → P a → Ensures Q (f a))
    → Ensures Q (m >>= f)
Ensures-bind P Q (ok a) f h k = k a refl h
Ensures-bind P Q (throw runtime_error) f h k = tt
Ensures-bind P Q (throw out_of_range) f h k = absurd h
Ensures-bind P Q (throw bad_alloc) f h k = absurd h
Ensures-bind P Q undefined f h k = absurd h

pub Ensures-if {ℓ} :
    {A : Type ℓ} (P : A → Type 0) (b : Bool) (m n : Outcome A)
    → (b ≡ true → Ensures P m)
    → (b ≡ false → Ensures P n)
    → Ensures P (if b then m else n)
Ensures-if P true m n h k = h refl
Ensures-if P false m n h k = k refl

pub Ensures-map {ℓ} :
    {A : Type ℓ} {P Q : A → Type 0} (m : Outcome A)
    → Ensures P m
    → ((a : A) → P a → Q a)
    → Ensures Q m
Ensures-map (ok a) h k = k a h
Ensures-map (throw runtime_error) h k = tt
Ensures-map (throw out_of_range) h k = absurd h
Ensures-map (throw bad_alloc) h k = absurd h
Ensures-map undefined h k = absurd h

-- Where the code returns a value, `P` holds for it.
abbrev pub OnReturn {ℓ} : {A : Type ℓ} → (A → Type 0) → Outcome A → Type 0
OnReturn P (ok a) = P a
OnReturn P (throw e) = Unit
OnReturn P undefined = Unit

pub OnReturn-bind {ℓ κ} :
    {A : Type ℓ} {B : Type κ} (P : A → Type 0) (Q : B → Type 0) (m : Outcome A) (f : A → Outcome B)
    → OnReturn P m
    → ((a : A) → m ≡ ok a → P a → OnReturn Q (f a))
    → OnReturn Q (m >>= f)
OnReturn-bind P Q (ok a) f h k = k a refl h
OnReturn-bind P Q (throw e) f h k = tt
OnReturn-bind P Q undefined f h k = tt

-- Whatever the code gives, it holds of what it returns that it returned it.
pub OnReturn-self {ℓ} :
    {A : Type ℓ} (P : A → Type 0) (m : Outcome A) → ((a : A) → m ≡ ok a → P a) → OnReturn P m
OnReturn-self P (ok a) h = h a refl
OnReturn-self P (throw e) h = tt
OnReturn-self P undefined h = tt

pub OnReturn-if {ℓ} :
    {A : Type ℓ} (P : A → Type 0) (b : Bool) (m n : Outcome A)
    → OnReturn P m
    → OnReturn P n
    → OnReturn P (if b then m else n)
OnReturn-if P true m n h k = h
OnReturn-if P false m n h k = k

pub OnReturn-map {ℓ} :
    {A : Type ℓ} {P Q : A → Type 0} (m : Outcome A)
    → OnReturn P m
    → ((a : A) → P a → Q a)
    → OnReturn Q m
OnReturn-map (ok a) h k = k a h
OnReturn-map (throw e) h k = tt
OnReturn-map undefined h k = tt

-- The code returns.
abbrev pub Returns {ℓ} : {A : Type ℓ} → Outcome A → Type 0
Returns (ok a) = Unit
Returns (throw e) = ⊥
Returns undefined = ⊥
