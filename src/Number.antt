-- ===== src/Number.antt =====
-- Decimal numbers: `<<` of a `long` to a stream, and `std::stol`.
pub mod RoundTrip
use google_cloud_final.Base.{
  ℕ, zero, suc, ◌+◌, ◌-◌, ◌*◌, ◌/◌, ◌%◌, ◌≡◌, refl, Bool, true, false, ◌&&◌, ◌||◌, [], ◌∷◌, ◌++◌,
  Option, none, some, ltb, leb, ◌==◌, if◌then◌else◌,
}
use google_cloud_final.Text.{Bytes, codes}

-- `negsuc n` is -(n + 1).
pub data ℤ : Type 0 where
  pos : ℕ → ℤ
  negsuc : ℕ → ℤ

-- The digits of `n`, in front of `out`; each round takes the last digit off.
unfoldable pub digits : ℕ → ℕ → Bytes → Bytes
digits zero n out = out
digits (suc fuel) n out =
    let next = (b'0' + n % 10) ∷ out in
    let more = digits fuel (n / 10) next in if n / 10 == 0 then next else more

-- `out << n`
unfoldable pub print : ℕ → Bytes
unfolding digits
print n = digits (suc n) n []

unfoldable pub print_long : ℤ → Bytes
unfolding print
print_long (pos n) = print n
print_long (negsuc n) = b'-' ∷ print (suc n)

-- `a <= b`
unfoldable pub le_long : ℤ → ℤ → Bool
le_long (pos a) (pos b) = leb a b
le_long (pos a) (negsuc b) = false
le_long (negsuc a) (pos b) = true
le_long (negsuc a) (negsuc b) = leb b a

abbrev pub is_digit : ℕ → Bool
is_digit c = leb b'0' c && leb c b'9'

abbrev pub is_space : ℕ → Bool
is_space c = c == b' ' || (leb 9 c && leb c 13)

-- The value of the digits in front, after `acc`.
unfoldable pub scan : Bytes → ℕ → ℕ
scan [] acc = acc
scan (c ∷ s) acc = let rest = scan s (acc * 10 + (c - b'0')) in if is_digit c then rest else acc

-- The largest `long`, and one more.
abbrev pub long_max : ℕ
long_max = 9223372036854775807

-- Digits are wanted; `none` is `std::invalid_argument` or `std::out_of_range`.
unfoldable pub unsigned : Bool → Bytes → Option ℤ
unfolding scan
unsigned negative [] = none
unsigned negative (c ∷ s) =
    let n = scan (c ∷ s) 0 in
    if is_digit c
    then (if negative
        then (if n == 0
            then some (pos 0)
            else if leb n (suc long_max)
            then some (negsuc (n - 1))
            else none)
        else (if leb n long_max then some (pos n) else none))
    else none

unfoldable pub signed : Bytes → Option ℤ
unfolding unsigned
signed [] = none
signed (c ∷ s) =
    if c == b'-'
    then unsigned true s
    else if c == b'+'
    then unsigned false s
    else unsigned false (c ∷ s)

-- `std::stol(s)`: leading white space, a sign, then digits; what follows is not read.
unfoldable pub stol : Bytes → Option ℤ
unfolding signed
stol [] = none
stol (c ∷ s) = let rest = stol s in if is_space c then rest else signed (c ∷ s)

-- The largest `unsigned long`.
abbrev ulong_max : ℕ
ulong_max = 18446744073709551615

abbrev ranged : Bool → ℕ → Option ℕ
ranged negative n =
    if leb n ulong_max
    then some (if negative then (ulong_max + 1 - n) % (ulong_max + 1) else n)
    else none

unsigned_mod : Bool → Bytes → Option ℕ
unfolding scan
unsigned_mod negative [] = none
unsigned_mod negative (c ∷ s) = if is_digit c then ranged negative (scan (c ∷ s) 0) else none

-- `std::stoul(s)`, which negates modulo 2^64
unfoldable pub stoul : Bytes → Option ℕ
unfolding unsigned_mod
stoul [] = none
stoul (c ∷ s) =
    let rest = stoul s in
    if is_space c
    then rest
    else if c == b'-'
    then unsigned_mod true s
    else if c == b'+'
    then unsigned_mod false s
    else unsigned_mod false (c ∷ s)

stol_signs : stol (codes " -42 x") ≡ some (negsuc 41)
unfolding stol
stol_signs = refl

print_large : print 9223372036854775807 ≡ codes "9223372036854775807"
unfolding print
print_large = refl

-- The largest `int`.
abbrev pub int_max : ℕ
int_max = 2147483647

abbrev int_of : Bool → ℕ → Option ℤ
int_of negative n =
    if negative
    then (if n == 0
        then some (pos 0)
        else if leb n (suc int_max)
        then some (negsuc (n - 1))
        else none)
    else (if leb n int_max then some (pos n) else none)

-- `atoi(s)`: with no digits it is 0; `none` is an overflow, which is undefined.
unfoldable pub atoi : Bytes → Option ℤ
unfolding scan
atoi [] = some (pos 0)
atoi (c ∷ s) =
    let rest = atoi s in
    if is_space c
    then rest
    else if c == b'-'
    then int_of true (scan s 0)
    else if c == b'+'
    then int_of false (scan s 0)
    else int_of false (scan (c ∷ s) 0)
