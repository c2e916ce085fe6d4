-- ===== src/FileHandler.antt =====
-- storage/fileHandler.cc: the bytes of a file as hexadecimal text, and back.  `int i` counts the
-- bytes of the text; a text of 2^31 bytes is out of reach.
pub mod RoundTrip
use google_cloud_final.Base.{
  ℕ, ◌+◌, ◌-◌, ◌*◌, ◌/◌, ◌%◌, Bool, true, false, ◌&&◌, ◌||◌, List, [], ◌∷◌, Option, none, some, ltb,
  leb, ◌==◌, if◌then◌else◌,
}
use google_cloud_final.Text.{Bytes}
use google_cloud_final.Number.{is_space}
use google_cloud_final.Outcome.{Outcome, done, abort, ◌>>=◌, or_throw}

-- The digit of `%x`.
abbrev pub hex_digit : ℕ → ℕ
hex_digit n = if ltb n 10 then b'0' + n else b'a' + (n - 10)

-- `%02x` for each byte.
unfoldable pub convert_binary_to_str : Bytes → Bytes
convert_binary_to_str [] = []
convert_binary_to_str (c ∷ content) =
    hex_digit (c % 256 / 16) ∷ hex_digit (c % 16) ∷ convert_binary_to_str content

-- The value of a hexadecimal digit.
abbrev pub hex_value : ℕ → Option ℕ
hex_value c =
    if leb b'0' c && leb c b'9'
    then some (c - b'0')
    else if leb b'a' c && leb c b'f'
    then some (c - b'a' + 10)
    else if leb b'A' c && leb c b'F'
    then some (c - b'A' + 10)
    else none

abbrev or_zero : Option ℕ → ℕ
or_zero none = 0
or_zero (some n) = n

-- The value of two bytes, of which the second need not be a digit.
abbrev pub two_digits : Option ℕ → Option ℕ → ℕ
two_digits none low = 0
two_digits (some high) none = high
two_digits (some high) (some low) = high * 16 + low

-- `temp >> hex >> c` on a text of two bytes, as an `unsigned char`: white space and a sign may stand
-- in front, and where no number stands the result is 0.  `none` stands for white space alone,
-- after which `c` has no value.
unfoldable pub read_hex : ℕ → ℕ → Option ℕ
read_hex a b =
    if is_space a
    then (if is_space b then none else some (or_zero (hex_value b)))
    else if a == b'+'
    then some (or_zero (hex_value b))
    else if a == b'-'
    then some ((256 - or_zero (hex_value b)) % 256)
    else some (two_digits (hex_value a) (hex_value b))

-- The loop over the pairs of bytes; a last byte without a partner is left.
unfoldable pub read_pairs : Bytes → Outcome Bytes
unfolding read_hex
read_pairs [] = done []
read_pairs (a ∷ []) = done []
read_pairs (a ∷ b ∷ str) = do c ← or_throw (read_hex a b); rest ← read_pairs str; done (c ∷ rest)

-- For an empty text `str.length() - 1` wraps, and the second `substr` throws.
unfoldable pub convert_str_to_binary : Bytes → Outcome Bytes
unfolding read_pairs
convert_str_to_binary [] = abort
convert_str_to_binary (a ∷ str) = read_pairs (a ∷ str)
