-- ===== src/Text.antt =====
-- `std::string` as the code uses it: a list of bytes, with the searches and slices of the C++
-- library that the program calls.  `size_t` is 64 bits wide and wraps.
pub mod Search
pub mod Order
pub mod Lines
use Prim.Native.Char.{code}
use Prim.Native.String.{String}
use google_cloud_final.Base.{
  ℕ, zero, suc, ◌+◌, ◌-◌, ◌%◌, ◌≡◌, ◌≢◌, ◌↔◌, refl, ap, Bool, true, false, ◌&&◌, ◌||◌, List, [],
  ◌∷◌, ◌++◌, Option, none, some, arith, length, take, drop, ltb, leb, ◌==◌, ==_iff, if◌then◌else◌,
}

abbrev pub Bytes : Type 0
Bytes = List ℕ

-- The bytes of an ASCII literal.
abbrev pub codes : String → Bytes
codes String.[] = []
codes (String.◌∷◌ c s) = code c ∷ codes s

-- `std::string::npos`, the largest `size_t`
abbrev pub npos : ℕ
npos = 18446744073709551615

-- `size_t` addition and subtraction
abbrev pub add64 : ℕ → ℕ → ℕ
add64 a b = (a + b) % 18446744073709551616

abbrev pub sub64 : ℕ → ℕ → ℕ
sub64 a b = (a + 18446744073709551616 - b) % 18446744073709551616

-- `operator==`
unfoldable pub equal : Bytes → Bytes → Bool
equal [] [] = true
equal (x ∷ xs) (y ∷ ys) = x == y && equal xs ys
equal _ _ = false

-- `operator<`, which orders the keys of a `std::map`
unfoldable pub less : Bytes → Bytes → Bool
less [] [] = false
less [] (y ∷ ys) = true
less (x ∷ xs) [] = false
less (x ∷ xs) (y ∷ ys) = ltb x y || (x == y && less xs ys)

unfoldable pub is_prefix : Bytes → Bytes → Bool
is_prefix [] s = true
is_prefix (p ∷ ps) [] = false
is_prefix (p ∷ ps) (c ∷ s) = p == c && is_prefix ps s

-- Where `needle` first occurs.
unfoldable pub position : Bytes → Bytes → Option ℕ
unfolding is_prefix
position needle [] = if is_prefix needle [] then some 0 else none
position needle (c ∷ s) =
    if is_prefix needle (c ∷ s)
    then some 0
    else elim (position needle s) [ none ↦ none | some i ↦ some (suc i) ]

abbrev pub or_npos : Option ℕ → ℕ
or_npos none = npos
or_npos (some i) = i

-- `s.find(needle)`
unfoldable pub find : Bytes → Bytes → ℕ
unfolding position
find s needle = or_npos (position needle s)

-- Where `needle` last occurs, as `s.rfind(needle)` finds it.
unfoldable pub last_position : Bytes → Bytes → Option ℕ
unfolding is_prefix
last_position needle [] = if is_prefix needle [] then some 0 else none
last_position needle (c ∷ s) = elim (last_position needle s) [
  | none ↦ if is_prefix needle (c ∷ s) then some 0 else none
  | some i ↦ some (suc i)
]

-- `s.find(needle, from)`
unfoldable pub find_after : Bytes → Bytes → ℕ → ℕ
unfolding position
find_after s needle from = elim (position needle (drop from s)) [ none ↦ npos | some i ↦ from + i ]

-- `s.substr(pos, n)`; `none` is the exception `std::out_of_range`
unfoldable pub substr : Bytes → ℕ → ℕ → Option Bytes
substr s pos n = if leb pos (length s) then some (take n (drop pos s)) else none

-- `s.substr(pos)`
abbrev pub substr_from : Bytes → ℕ → Option Bytes
substr_from s pos = substr s pos npos

pub equal_iff : (a b : Bytes) → (equal a b ≡ true) ↔ (a ≡ b)
unfolding equal
equal_iff [] [] = ground arith
equal_iff [] (y ∷ ys) = ground arith
equal_iff (x ∷ xs) [] = ground arith
equal_iff (x ∷ xs) (y ∷ ys) = ground (arith, equal_iff xs ys)

pub equal_refl : (a : Bytes) → equal a a ≡ true
equal_refl a = (equal_iff a a).1 refl

pub equal_sym : (a b : Bytes) → equal a b ≡ equal b a
unfolding equal
equal_sym [] [] = refl
equal_sym [] (y ∷ ys) = refl
equal_sym (x ∷ xs) [] = refl
equal_sym (x ∷ xs) (y ∷ ys) = ground (arith, equal_sym xs ys)
