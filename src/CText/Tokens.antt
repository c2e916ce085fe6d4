-- ===== src/CText/Tokens.antt =====
-- `strtok` on a text of words.
use google_cloud_final.Base.{ℕ, ◌<◌, length, ◌≡◌, refl, ap, true, false, [], ◌∷◌, ◌++◌, some, arith}
use google_cloud_final.Text.{Bytes}
use google_cloud_final.CText.{one_of, skip_delimiters, cut_token, strtok}

-- No byte of the text is one of the delimiters.
abbrev pub Free : Bytes → Bytes → Type 0
Free delimiters [] = Unit {0}
Free delimiters (c ∷ s) = (one_of delimiters c ≡ false) × Free delimiters s

pub Free-append : (ds s t : Bytes) → Free ds s → Free ds t → Free ds (s ++ t)
Free-append ds [] t h k = k
Free-append ds (c ∷ s) t h k = (h.0, Free-append ds s t h.1 k)

cut_token_lem :
    (ds word rest : Bytes) (d : ℕ)
    → Free ds word
    → one_of ds d ≡ true
    → cut_token ds (word ++ d ∷ rest) ≡ (word, rest)
unfolding cut_token
cut_token_lem ds [] rest d h k = ground arith
cut_token_lem ds (c ∷ word) rest d h k = ground (arith, h.0, cut_token_lem ds word rest d h.1 k)

cut_token_all : (ds word : Bytes) → Free ds word → cut_token ds word ≡ (word, [])
unfolding cut_token
cut_token_all ds [] h = refl
cut_token_all ds (c ∷ word) h = ground (arith, h.0, cut_token_all ds word h.1)

skip_none :
    (ds : Bytes) (c : ℕ) (s : Bytes) → one_of ds c ≡ false → skip_delimiters ds (c ∷ s) ≡ c ∷ s
unfolding skip_delimiters
skip_none ds c s h = ground (arith, h)

-- The first word of a text, and what stands behind the delimiter.
pub strtok_first :
    (ds word rest : Bytes) (d : ℕ)
    → 0 < length word
    → Free ds word
    → one_of ds d ≡ true
    → strtok (word ++ d ∷ rest) ds ≡ some (word, rest)
unfolding strtok
strtok_first ds [] rest d n h k = absurd (omega arith)
strtok_first ds (c ∷ word) rest d n h k =
    rw (skip_none ds c (word ++ d ∷ rest) h.0, strtok)
      (ap some (cut_token_lem ds (c ∷ word) rest d h k))

-- The last word.
pub strtok_last :
    (ds word : Bytes) → 0 < length word → Free ds word → strtok word ds ≡ some (word, [])
unfolding strtok
strtok_last ds [] n h = absurd (omega arith)
strtok_last ds (c ∷ word) n h =
    rw (skip_none ds c word h.0, strtok) (ap some (cut_token_all ds (c ∷ word) h))
