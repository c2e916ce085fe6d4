-- ===== src/Web/Escape.antt =====
-- frontendServer/response.cc: text as the browser encodes it, in a path and in a form.  Reading past
-- the end is `abort`.
pub mod RoundTrip
use google_cloud_final.Base.{
  ℕ, ◌+◌, ◌-◌, ◌*◌, ◌%◌, ◌&&◌, [], ◌∷◌, Option, none, some, take, drop, leb, ◌==◌, if◌then◌else◌,
}
use google_cloud_final.Text.{Bytes}
use google_cloud_final.Number.{is_digit, is_space}
use google_cloud_final.Outcome.{Outcome, done, abort, ◌>>=◌}

-- The value of a hexadecimal digit.
unfoldable pub hex_of : ℕ → Option ℕ
hex_of c =
    if is_digit c
    then some (c - b'0')
    else if leb b'a' c && leb c b'f'
    then some (c - 87)
    else if leb b'A' c && leb c b'F'
    then some (c - 55)
    else none

-- The value of the digits in front, after `acc`.
unfoldable pub scan_hex : Bytes → ℕ → ℕ
unfolding hex_of
scan_hex [] acc = acc
scan_hex (c ∷ s) acc = elim (hex_of c) [ none ↦ acc | some d ↦ scan_hex s (acc * 16 + d) ]

-- `ss >> buf` of a hexadecimal `unsigned`: white space, a sign, digits; it is 0 with no digits.
unfoldable pub extract_hex : Bytes → ℕ
unfolding scan_hex
extract_hex [] = 0
extract_hex (c ∷ s) =
    let rest = extract_hex s in
    if is_space c
    then rest
    else if c == b'-'
    then (4294967296 - scan_hex s 0) % 4294967296
    else if c == b'+'
    then scan_hex s 0
    else scan_hex (c ∷ s) 0

unfoldable pub convert_hex_to_char : Bytes → ℕ
unfolding extract_hex
convert_hex_to_char hex_char = extract_hex (take 2 hex_char) % 256

abbrev pub percent : ℕ
percent = 37

abbrev pub ampersand : ℕ
ampersand = 38

abbrev pub equals : ℕ
equals = 61

-- `parse_path` of a text: a `%` stands before two hexadecimal digits.
unfoldable pub parse_path : Bytes → Outcome Bytes
unfolding convert_hex_to_char
parse_path [] = done []
parse_path (c ∷ []) = if c == percent then abort else done (c ∷ [])
parse_path (c ∷ a ∷ []) =
    let plain = (do res ← parse_path (a ∷ []); done (c ∷ res)) in
    if c == percent then abort else plain
parse_path (c ∷ a ∷ b ∷ s) =
    let plain = (do res ← parse_path (a ∷ b ∷ s); done (c ∷ res)) in
    let coded = (do res ← parse_path s; done (convert_hex_to_char (a ∷ b ∷ []) ∷ res)) in
    if c == percent then coded else plain

-- In a form a `+` is a space.
abbrev pub unplus : ℕ → ℕ
unplus c = if c == b'+' then 32 else c

-- A value of the form up to the `&`, and the text from there on.
unfoldable pub form_value : Bytes → Outcome (Bytes × Bytes)
unfolding convert_hex_to_char
form_value [] = abort
form_value (c ∷ []) = if c == ampersand then done ([], c ∷ []) else abort
form_value (c ∷ a ∷ []) =
    let plain = (do (value, rest) ← form_value (a ∷ []); done (unplus c ∷ value, rest)) in
    if c == ampersand then done ([], c ∷ a ∷ []) else if c == percent then abort else plain
form_value (c ∷ a ∷ b ∷ s) =
    let plain = (do (value, rest) ← form_value (a ∷ b ∷ s); done (unplus c ∷ value, rest)) in
    let coded = (do
      (value, rest) ← form_value s
      done (convert_hex_to_char (a ∷ b ∷ []) ∷ value, rest)) in
    if c == ampersand then done ([], c ∷ a ∷ b ∷ s) else if c == percent then coded else plain

-- The last value of the form.
unfoldable pub last_value : Bytes → Outcome Bytes
unfolding convert_hex_to_char
last_value [] = done []
last_value (c ∷ []) = if c == percent then abort else done (unplus c ∷ [])
last_value (c ∷ a ∷ []) =
    let plain = (do value ← last_value (a ∷ []); done (unplus c ∷ value)) in
    if c == percent then abort else plain
last_value (c ∷ a ∷ b ∷ s) =
    let plain = (do value ← last_value (a ∷ b ∷ s); done (unplus c ∷ value)) in
    let coded = (do value ← last_value s; done (convert_hex_to_char (a ∷ b ∷ []) ∷ value)) in
    if c == percent then coded else plain

-- What stands behind the first `c`; with none, `at` throws, and `[]` leaves the text.
unfoldable pub behind : ℕ → Bytes → Outcome Bytes
behind c [] = abort
behind c (x ∷ s) = let later = behind c s in if x == c then done s else later

-- `parse_email`: the recipient, the subject and the content in the form.
unfoldable pub parse_email : Bytes → Outcome (Bytes × Bytes × Bytes)
parse_email message = do
  s1 ← behind equals message
  (recipient, s2) ← form_value s1
  s3 ← behind equals (drop 1 s2)
  (subject, s4) ← form_value s3
  s5 ← behind equals (drop 1 s4)
  content ← last_value s5
  done (recipient, subject, content)
