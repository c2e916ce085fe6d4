-- ===== src/Number/RoundTrip.antt =====
-- A printed number is read back, whatever other text follows it.
use google_cloud_final.Base.{
  length, ℕ, zero, suc, ◌+◌, ◌-◌, ◌*◌, ◌/◌, ◌%◌, ◌≤◌, ◌<◌, ◌≡◌, refl, ap, ◌∙◌, ◌≢◌, true, false, [],
  ◌∷◌, ◌++◌, some, ◌==◌, arith, Bool-cases, inl, inr,
}
use google_cloud_final.Text.{Bytes}
use google_cloud_final.Text.Search.{Avoids}
use google_cloud_final.Number.{pos, digits, print, is_digit, scan, long_max, int_max, atoi, stol}

-- No digit stands in front.
abbrev pub StopsDigits : Bytes → Type 0
StopsDigits [] = Unit {0}
StopsDigits (c ∷ s) = is_digit c ≡ false

scan_stops : (s : Bytes) (acc : ℕ) → StopsDigits s → scan s acc ≡ acc
unfolding scan
scan_stops [] acc h = refl
scan_stops (c ∷ s) acc h = rw h

scan_digit :
    (d : ℕ) (s : Bytes) (acc : ℕ) → d < 10 → scan ((b'0' + d) ∷ s) acc ≡ scan s (acc * 10 + d)
unfolding scan
scan_digit d s acc h = ground (arith, ap (λ k. scan s (acc * 10 + k)) (digit_value d))
  where
    digit_value : (k : ℕ) → b'0' + k - b'0' ≡ k
    digit_value k = omega arith

-- A scan of the digits of `n` goes on from `n`.
scan-digits : (fuel n : ℕ) (out : Bytes) → n < fuel → scan (digits fuel n out) 0 ≡ scan out n
unfolding digits
scan-digits zero n out h = absurd (omega arith)
scan-digits (suc fuel) n out h = elim (Bool-cases (n / 10 == 0)) [
  | inl last ↦ rw last (scan_digit (n % 10) out 0 (omega arith) ∙ ap (scan out) (ground arith))
  | inr more ↦ rw more (
      scan-digits fuel (n / 10) ((b'0' + n % 10) ∷ out) (ground arith)
      ∙ (scan_digit (n % 10) out (n / 10) (omega arith) ∙ ap (scan out) (omega arith)))
]

digits-append : (fuel n : ℕ) (out s : Bytes) → digits fuel n out ++ s ≡ digits fuel n (out ++ s)
unfolding digits
digits-append zero n out s = refl
digits-append (suc fuel) n out s = elim (Bool-cases (n / 10 == 0)) [
  | inl last ↦ rw last
  | inr more ↦ rw more (digits-append fuel (n / 10) ((b'0' + n % 10) ∷ out) s)
]

-- A digit stands in front.
abbrev StartsDigit : Bytes → Type 0
StartsDigit [] = ⊥
StartsDigit (c ∷ s) = is_digit c ≡ true

digits-StartsDigit : (fuel n : ℕ) (out : Bytes) → StartsDigit (digits (suc fuel) n out)
unfolding digits
digits-StartsDigit zero n out = ground arith
digits-StartsDigit (suc fuel) n out = elim (Bool-cases (n / 10 == 0)) [
  | inl last ↦ rw last (ground arith)
  | inr more ↦ rw more (digits-StartsDigit fuel (n / 10) ((b'0' + n % 10) ∷ out))
]

stol-scan :
    (s : Bytes) (n : ℕ) → StartsDigit s → scan s 0 ≡ n → n ≤ long_max → stol s ≡ some (pos n)
unfolding stol
stol-scan [] n h e le = absurd h
stol-scan (c ∷ s) n h e le = ground arith

-- Reading a printed `long` gives it back.
pub stol-print :
    (n : ℕ) (s : Bytes) → n ≤ long_max → StopsDigits s → stol (print n ++ s) ≡ some (pos n)
unfolding print
stol-print n s le stops = rw (digits-append (suc n) n [] s) (
    stol-scan (digits (suc n) n s) n (digits-StartsDigit n n s)
      (scan-digits (suc n) n s (omega arith) ∙ scan_stops s n stops) le)

atoi-scan : (s : Bytes) (n : ℕ) → StartsDigit s → scan s 0 ≡ n → n ≤ int_max → atoi s ≡ some (pos n)
unfolding atoi
atoi-scan [] n h e le = absurd h
atoi-scan (c ∷ s) n h e le = ground arith

-- So does `atoi`, with a number that fits an `int`.
pub atoi-print :
    (n : ℕ) (s : Bytes) → n ≤ int_max → StopsDigits s → atoi (print n ++ s) ≡ some (pos n)
unfolding print
atoi-print n s le stops = rw (digits-append (suc n) n [] s) (
    atoi-scan (digits (suc n) n s) n (digits-StartsDigit n n s)
      (scan-digits (suc n) n s (omega arith) ∙ scan_stops s n stops) le)

-- A printed number holds digits alone.
digits-Avoids :
    (c fuel n : ℕ) (out : Bytes) → is_digit c ≡ false → Avoids c out → Avoids c (digits fuel n out)
unfolding digits
digits-Avoids c zero n out h a = a
digits-Avoids c (suc fuel) n out h a = elim (Bool-cases (n / 10 == 0)) [
  | inl last ↦ rw last (digit_ne, a)
  | inr more ↦ rw more (digits-Avoids c fuel (n / 10) ((b'0' + n % 10) ∷ out) h (digit_ne, a))
]
  where
    digit_ne : b'0' + n % 10 ≢ c
    digit_ne e = ground arith

pub print-Avoids : (c n : ℕ) → is_digit c ≡ false → Avoids c (print n)
unfolding print
print-Avoids c n h = digits-Avoids c (suc n) n [] h tt

length-digits-le : (fuel n : ℕ) (out : Bytes) → length (digits fuel n out) ≤ length out + fuel
unfolding digits
length-digits-le zero n out = omega arith
length-digits-le (suc fuel) n out =
    ground (arith, length-digits-le fuel (n / 10) ((b'0' + n % 10) ∷ out))

pub length-print-le : (n : ℕ) → length (print n) ≤ suc n
unfolding print
length-print-le n = omega (arith, length-digits-le (suc n) n [])
