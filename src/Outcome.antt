-- ===== src/Outcome.antt =====
-- What a piece of the program does: it returns, it takes the process down (an uncaught exception,
-- a null dereference, a signal), or it waits for input that never comes.
use google_cloud_final.Base.{◌≡◌, refl, Bool, true, false, if◌then◌else◌}
pub use google_cloud_final.Base.{Option, none, some}

pub data Outcome {ℓ} (A : Type ℓ) : Type ℓ where
  done : A → Outcome A
  abort : Outcome A
  blocked : Outcome A

infixl 5 ◌>>=◌
abbrev pub ◌>>=◌ {ℓ κ} : {A : Type ℓ} {B : Type κ} → Outcome A → (A → Outcome B) → Outcome B
done a >>= f = f a
abort >>= f = abort
blocked >>= f = blocked

-- A value, or the exception that stands for `none`.
abbrev pub or_throw {ℓ} : {A : Type ℓ} → Option A → Outcome A
or_throw none = abort
or_throw (some a) = done a

-- What holds of the result, if there is one.
abbrev pub Ensures {ℓ κ} : {A : Type ℓ} → (A → Type κ) → Outcome A → Type κ
Ensures P (done a) = P a
Ensures P _ = Unit

pub Ensures-bind {ℓ κ ι μ} :
    {A : Type ℓ} {B : Type κ} (Q : A → Type ι) (P : B → Type μ) (m : Outcome A) (f : A → Outcome B)
    → Ensures Q m
    → ((a : A) → Q a → Ensures P (f a))
    → Ensures P (m >>= f)
Ensures-bind Q P (done a) f h k = k a h
Ensures-bind Q P abort f h k = tt
Ensures-bind Q P blocked f h k = tt

-- Nothing is asked of the first part.
pub Ensures-then {ℓ κ μ} :
    {A : Type ℓ} {B : Type κ} (P : B → Type μ) (m : Outcome A) (f : A → Outcome B)
    → ((a : A) → Ensures P (f a))
    → Ensures P (m >>= f)
Ensures-then P (done a) f k = k a
Ensures-then P abort f k = tt
Ensures-then P blocked f k = tt

pub Ensures-if {ℓ μ} :
    {A : Type ℓ} (P : A → Type μ) (b : Bool) (m n : Outcome A)
    → Ensures P m
    → Ensures P n
    → Ensures P (if b then m else n)
Ensures-if P true m n h k = h
Ensures-if P false m n h k = k

-- Each branch knows the test.
pub Ensures-cases {ℓ μ} :
    {A : Type ℓ} (P : A → Type μ) (b : Bool) (m n : Outcome A)
    → (b ≡ true → Ensures P m)
    → (b ≡ false → Ensures P n)
    → Ensures P (if b then m else n)
Ensures-cases P true m n h k = h refl
Ensures-cases P false m n h k = k refl

-- The result is the result.
pub Ensures-self {ℓ} : {A : Type ℓ} (m : Outcome A) → Ensures (λ a. m ≡ done a) m
Ensures-self (done a) = refl
Ensures-self abort = tt
Ensures-self blocked = tt

pub Ensures-elim {ℓ μ} :
    {A : Type ℓ} (P : A → Type μ) {m : Outcome A} {a : A} → Ensures P m → m ≡ done a → P a
Ensures-elim P {m} {a} h e = rw e at h
