-- ===== src/FileHandler/RoundTrip.antt =====
-- A file that is written as text is read back.
use google_cloud_final.Base.{ℕ, ◌+◌, ◌*◌, ◌/◌, ◌%◌, ◌<◌, ◌≡◌, refl, ap, [], ◌∷◌, some, arith}
use google_cloud_final.Text.{Bytes}
use google_cloud_final.Outcome.{done}
use google_cloud_final.FileHandler.{
  hex_digit, hex_value, convert_binary_to_str, read_hex, read_pairs, convert_str_to_binary,
}

-- Each is a byte.
abbrev pub AllBytes : Bytes → Type 0
AllBytes [] = Unit {0}
AllBytes (c ∷ content) = (c < 256) × AllBytes content

hex_value-hex_digit : (n : ℕ) → n < 16 → hex_value (hex_digit n) ≡ some n
hex_value-hex_digit n h = ground arith

read_hex-digits :
    (high low : ℕ)
    → high < 16
    → low < 16
    → read_hex (hex_digit high) (hex_digit low) ≡ some (high * 16 + low)
unfolding read_hex
read_hex-digits high low h k = ground (arith, hex_value-hex_digit high h, hex_value-hex_digit low k)

read_pairs-text :
    (content : Bytes) → AllBytes content → read_pairs (convert_binary_to_str content) ≡ done content
unfolding read_pairs convert_binary_to_str
read_pairs-text [] h = refl
read_pairs-text (c ∷ content) h =
    rw
      (
        read_hex-digits (c % 256 / 16) (c % 16) (omega arith) (omega arith),
        read_pairs-text content h.1,
      )
      (ap (λ b. done (b ∷ content)) (omega arith))

-- The hexadecimal text of a file of bytes that is not empty is read back as the file.
pub convert_lem :
    (c : ℕ) (content : Bytes)
    → AllBytes (c ∷ content)
    → convert_str_to_binary (convert_binary_to_str (c ∷ content)) ≡ done (c ∷ content)
unfolding convert_str_to_binary convert_binary_to_str
convert_lem c content h = read_pairs-text (c ∷ content) h
