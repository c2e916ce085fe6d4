-- ===== src/CText.antt =====
-- The comparisons of <strings.h> and the `strtok` of <string.h> that the C++ code calls.
pub mod Tokens
use google_cloud_final.Base.{
  ℕ, zero, suc, ◌+◌, Bool, true, false, ◌&&◌, ◌||◌, [], ◌∷◌, Option, none, some, leb, ◌==◌,
  if◌then◌else◌,
}
use google_cloud_final.Text.{Bytes}

abbrev pub lower : ℕ → ℕ
lower c = if leb b'A' c && leb c b'Z' then c + 32 else c

-- `strcasecmp(s, t) == 0`, on texts without a zero byte
unfoldable pub strcasecmp : Bytes → Bytes → Bool
strcasecmp [] [] = true
strcasecmp (a ∷ s) (b ∷ t) = lower a == lower b && strcasecmp s t
strcasecmp _ _ = false

-- `strncasecmp(s, t, n) == 0`
unfoldable pub strncasecmp : Bytes → Bytes → ℕ → Bool
strncasecmp s t zero = true
strncasecmp [] [] (suc n) = true
strncasecmp (a ∷ s) (b ∷ t) (suc n) = lower a == lower b && strncasecmp s t n
strncasecmp _ _ (suc n) = false

abbrev pub one_of : Bytes → ℕ → Bool
one_of [] c = false
one_of (d ∷ delimiters) c = d == c || one_of delimiters c

-- The text behind the delimiters in front.
unfoldable pub skip_delimiters : Bytes → Bytes → Bytes
skip_delimiters delimiters [] = []
skip_delimiters delimiters (c ∷ s) =
    let rest = skip_delimiters delimiters s in if one_of delimiters c then rest else c ∷ s

-- The bytes up to a delimiter, and what stands behind that.
unfoldable pub cut_token : Bytes → Bytes → Bytes × Bytes
cut_token delimiters [] = ([], [])
cut_token delimiters (c ∷ s) =
    let (token, rest) = cut_token delimiters s in
    if one_of delimiters c then ([], s) else (c ∷ token, rest)

-- `strtok(s, delimiters)`: a token, and the text in which the next call goes on; `none` is NULL.
unfoldable pub strtok : Bytes → Bytes → Option (Bytes × Bytes)
unfolding skip_delimiters cut_token
strtok s delimiters = elim (skip_delimiters delimiters s) [
  | [] ↦ none
  | c ∷ rest ↦ some (cut_token delimiters (c ∷ rest))
]
