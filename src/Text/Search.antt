-- ===== src/Text/Search.antt =====
-- The searches and slices on texts of a known shape.
use google_cloud_final.Base.{
  ℕ, suc, ◌+◌, ◌≤◌, ◌≡◌, ◌≢◌, refl, sym, ap, ◌∙◌, true, false, on_true, append_assoc, [], ◌∷◌, ◌++◌,
  none, some, arith, length, leb, length-append, take-append, drop, take, drop-append, take_all,
}
use google_cloud_final.Text.{Bytes, is_prefix, or_npos, position, find, find_after, substr}

-- No byte of the text is `c`.
abbrev pub Avoids : ℕ → Bytes → Type 0
Avoids c [] = Unit {0}
Avoids c (x ∷ xs) = (x ≢ c) × Avoids c xs

pub Avoids-append : (c : ℕ) (xs ys : Bytes) → Avoids c xs → Avoids c ys → Avoids c (xs ++ ys)
Avoids-append c [] ys h k = k
Avoids-append c (x ∷ xs) ys h k = (h.0, Avoids-append c xs ys h.1 k)

-- The first byte `c` stands behind the bytes that are not `c`.
pub position-char :
    (c : ℕ) (pre rest : Bytes)
    → Avoids c pre
    → position (c ∷ []) (pre ++ c ∷ rest) ≡ some (length pre)
unfolding position
position-char c [] rest h = ground arith
position-char c (x ∷ pre) rest h = ground (arith, position-char c pre rest h.1)

pub position-char_none : (c : ℕ) (s : Bytes) → Avoids c s → position (c ∷ []) s ≡ none
unfolding position
position-char_none c [] h = refl
position-char_none c (x ∷ s) h = ground (arith, position-char_none c s h.1)

pub find-char :
    (c : ℕ) (pre rest : Bytes) → Avoids c pre → find (pre ++ c ∷ rest) (c ∷ []) ≡ length pre
unfolding find
find-char c pre rest h = ap or_npos (position-char c pre rest h)

leb-length : (xs ys : Bytes) → leb (length xs) (length (xs ++ ys)) ≡ true
leb-length xs ys = ground (arith, length-append xs ys)

pub substr_middle :
    (pre mid rest : Bytes) → substr (pre ++ (mid ++ rest)) (length pre) (length mid) ≡ some mid
unfolding substr
substr_middle pre mid rest =
    ground
      (arith, leb-length pre (mid ++ rest), drop-append pre (mid ++ rest), take-append mid rest)

pub substr_rest :
    (pre rest : Bytes) (n : ℕ) → length rest ≤ n → substr (pre ++ rest) (length pre) n ≡ some rest
unfolding substr
substr_rest pre rest n h =
    ground (arith, leb-length pre rest, drop-append pre rest, take_all n rest h)

pub position-crlf :
    (pre rest : Bytes)
    → Avoids 13 pre
    → position (13 ∷ 10 ∷ []) (pre ++ 13 ∷ 10 ∷ rest) ≡ some (length pre)
unfolding position
position-crlf [] rest h = refl
position-crlf (x ∷ pre) rest h = ground (arith, position-crlf pre rest h.1)

-- The first `\r\n` stands behind the bytes that are not `\r`.
pub find-crlf :
    (pre rest : Bytes) → Avoids 13 pre → find (pre ++ 13 ∷ 10 ∷ rest) (13 ∷ 10 ∷ []) ≡ length pre
unfolding find
find-crlf pre rest h = ap or_npos (position-crlf pre rest h)

-- The first `\r\n` from a place on.
pub find_after-crlf :
    (pre mid rest : Bytes) (from : ℕ)
    → from ≡ length pre
    → Avoids 13 mid
    → find_after (pre ++ (mid ++ 13 ∷ 10 ∷ rest)) (13 ∷ 10 ∷ []) from ≡ length pre + length mid
unfolding find_after
find_after-crlf pre mid rest from e h =
    ground (arith, e, drop-append pre (mid ++ 13 ∷ 10 ∷ rest), position-crlf mid rest h)

pub is_prefix-append :
    (needle xs ys : Bytes)
    → length needle ≤ length xs
    → is_prefix needle (xs ++ ys) ≡ is_prefix needle xs
unfolding is_prefix
is_prefix-append [] xs ys h = refl
is_prefix-append (p ∷ ps) [] ys h = absurd (omega arith)
is_prefix-append (p ∷ ps) (x ∷ xs) ys h = ground (arith, is_prefix-append ps xs ys)

is_prefix_self : (init rest : Bytes) (c : ℕ) → is_prefix (init ++ c ∷ []) (init ++ c ∷ rest) ≡ true
unfolding is_prefix
is_prefix_self [] rest c = ground arith
is_prefix_self (x ∷ init) rest c = ground (arith, is_prefix_self init rest c)

position_front : (needle s : Bytes) → is_prefix needle s ≡ true → position needle s ≡ some 0
unfolding position
position_front needle [] h = on_true none h
position_front needle (c ∷ s) h = on_true _ h

position-cons_none :
    (needle s : Bytes) (c : ℕ)
    → position needle (c ∷ s) ≡ none
    → (is_prefix needle (c ∷ s) ≡ false) × (position needle s ≡ none)
unfolding position
position-cons_none needle s c h = (ground arith, ground arith)

position-cons :
    (needle s : Bytes) (c i : ℕ)
    → is_prefix needle (c ∷ s) ≡ false
    → position needle s ≡ some i
    → position needle (c ∷ s) ≡ some (suc i)
unfolding position
position-cons needle s c i h k = ground arith

-- A text occurs first where it stands, if it does not begin earlier.
pub position_first :
    (init : Bytes) (c : ℕ) (pre rest : Bytes)
    → position (init ++ c ∷ []) (pre ++ init) ≡ none
    → position (init ++ c ∷ []) (pre ++ (init ++ c ∷ rest)) ≡ some (length pre)
position_first init c [] rest h =
    position_front (init ++ c ∷ []) (init ++ c ∷ rest) (is_prefix_self init rest c)
position_first init c (x ∷ pre) rest h =
    let (starts, later) = position-cons_none (init ++ c ∷ []) (pre ++ init) x h in
    let longer =
      is_prefix-append (init ++ c ∷ []) (x ∷ (pre ++ init)) (c ∷ rest)
        (omega (arith, length-append init (c ∷ []), length-append pre init)) in
    position-cons (init ++ c ∷ []) (pre ++ (init ++ c ∷ rest)) x (length pre)
      (ap (λ s. is_prefix (init ++ c ∷ []) (x ∷ s)) (sym (append_assoc pre init (c ∷ rest)))
        ∙ longer
        ∙ starts)
      (position_first init c pre rest later)

pub drop-append_add : (pre s : Bytes) (n : ℕ) → drop (length pre + n) (pre ++ s) ≡ drop n s
drop-append_add [] s n = let e : 0 + n ≡ n = omega arith in ap (λ k. drop k s) e
drop-append_add (x ∷ pre) s n =
    let e : suc (length pre) + n ≡ suc (length pre + n) = omega arith in
    ap (λ k. drop k (x ∷ (pre ++ s))) e ∙ drop-append_add pre s n

pub take-append_add : (pre s : Bytes) (n : ℕ) → take (length pre + n) (pre ++ s) ≡ pre ++ take n s
take-append_add [] s n = let e : 0 + n ≡ n = omega arith in ap (λ k. take k s) e
take-append_add (x ∷ pre) s n =
    let e : suc (length pre) + n ≡ suc (length pre + n) = omega arith in
    ap (λ k. take k (x ∷ (pre ++ s))) e ∙ ap (λ r. x ∷ r) (take-append_add pre s n)
