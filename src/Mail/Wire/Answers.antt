-- ===== src/Mail/Wire/Answers.antt =====
-- The data of an answer is read.
use mathlib.Core.Path.{ap₂}
use google_cloud_final.Base.{
  ℕ, zero, suc, ◌+◌, ◌≤◌, ◌<◌, ◌≡◌, sym, ap, ◌∙◌, true, false, List, [], ◌∷◌, ◌++◌, length,
  length-append, take, drop, take-append, drop-append, arith, append_assoc, append-nil, leb,
  if◌then◌else◌, on_false, Bool-cases, inl, inr,
}
use google_cloud_final.Text.{Bytes, codes, equal, equal_iff, position}
use google_cloud_final.Text.Search.{Avoids, position-crlf}
use google_cloud_final.Text.Lines.{AllAvoid}
use google_cloud_final.CText.{strcasecmp}
use google_cloud_final.Connection.{ReadEvent, got, crlf, with_crlf}
use google_cloud_final.Connection.Reads.{c_str-Avoids}
use google_cloud_final.Outcome.{Outcome, done, abort, some, ◌>>=◌}
use google_cloud_final.Mail.Wire.{
  filled, answer_line, Drained, answered, wants_more, drain, do_read,
}

-- The answer with the lines as its data.
abbrev pub answer_text : List Bytes → Bytes
answer_text ls = codes "DATA" ++ (crlf ++ (with_crlf ls ++ (codes "." ++ crlf)))

-- A buffer that is longer than the last line is not the last line.
longer-equal : (buff : Bytes) → 3 < length buff → equal buff (codes "." ++ crlf) ≡ false
longer-equal buff h = elim (Bool-cases (equal buff (codes "." ++ crlf))) [
  | inl e ↦ absurd (omega (arith, h, ap length ((equal_iff buff (codes "." ++ crlf)).0 e)))
  | inr e ↦ e
]

-- The part of the answer behind its first line.
abbrev rest_of : List Bytes → Bytes
rest_of ls = with_crlf ls ++ (codes "." ++ crlf)

-- A line of the data that is not the last.
drain-line :
    (n k : ℕ) (buff response : Bytes)
    → position crlf buff ≡ some k
    → equal buff (codes "." ++ crlf) ≡ false
    → drain (suc n) buff response true
      ≡ drain n (drop (k + 2) buff) (response ++ take (k + 2) buff) true
unfolding drain answer_line
drain-line n k buff response e d = ground (arith, e, d)

drain-data :
    (n : ℕ) (ls : List Bytes) (response : Bytes)
    → length ls < n
    → AllAvoid 13 ls
    → drain n (rest_of ls) response true ≡ answered (response ++ with_crlf ls)
unfolding drain
drain-data zero ls response f h = absurd (omega (arith, f))
drain-data (suc n) [] response f h =
    unfold position answer_line equal in ap answered (sym (append-nil response))
drain-data (suc n) (l ∷ ls) response f h =
    let buff = l ++ (crlf ++ rest_of ls) in
    let front = l ++ crlf in
    let regroup : rest_of (l ∷ ls) ≡ buff =
      append_assoc l (crlf ++ with_crlf ls) (codes "." ++ crlf) in
    let split : buff ≡ front ++ rest_of ls = sym (append_assoc l crlf (rest_of ls)) in
    let size : length l + 2 ≡ length front = omega (arith, length-append l crlf) in
    let dropped : drop (length l + 2) buff ≡ rest_of ls =
      ap₂ drop size split ∙ drop-append front (rest_of ls) in
    let taken : take (length l + 2) buff ≡ front =
      ap₂ take size split ∙ take-append front (rest_of ls) in
    let long : 3 < length buff = omega (
      arith,
      length-append l (crlf ++ rest_of ls),
      length-append (with_crlf ls) (codes "." ++ crlf),
    ) in
    ap (λ s. drain (suc n) s response true) regroup
    ∙ drain-line n (length l) buff response (position-crlf l (rest_of ls) h.0)
        (longer-equal buff long)
    ∙ ap₂ (λ s t. drain n s (response ++ t) true) dropped taken
    ∙ drain-data n ls (response ++ front) (omega (arith, f)) h.1
    ∙ ap answered (
        append_assoc response front (with_crlf ls)
        ∙ ap (λ s. response ++ s) (append_assoc l crlf (with_crlf ls)))

lines-le : (ls : List Bytes) → length ls ≤ length (with_crlf ls)
lines-le [] = omega arith
lines-le (l ∷ ls) = omega (arith, lines-le ls, length-append l (crlf ++ with_crlf ls))

abbrev after : List ReadEvent → Drained → Outcome Bytes
after events d = elim d [ answered r ↦ done r | wants_more b r d ↦ do_read b r d events ]

-- An answer with data that comes in one piece, shorter than the buffer and without zero bytes, is
-- read as the lines of the data, also if a dot alone is among them; the lines have no carriage
-- return in them.
pub do_read_lem :
    (ls : List Bytes) (events : List ReadEvent)
    → AllAvoid 13 ls
    → Avoids 0 (answer_text ls)
    → length (answer_text ls) < 5000
    → do_read [] [] false (got (answer_text ls) ∷ events) ≡ done (with_crlf ls)
unfolding do_read
do_read_lem ls events h z f =
    let text = answer_text ls in
    let whole : filled 5000 [] (got text) ≡ done text =
      ap (λ s. if leb 5000 (length s) then abort else done s) (c_str-Avoids text z)
      ∙ on_false {b = leb 5000 (length text)} abort (ground (arith, f)) in
    let drained : drain (length text) text [] false ≡ answered (with_crlf ls) =
      unfold drain position answer_line strcasecmp in
      drain-data (suc (suc (suc (length (crlf ++ rest_of ls))))) ls []
        (omega (arith, lines-le ls, length-append (with_crlf ls) (codes "." ++ crlf))) h in
    ap (λ o. o >>= λ full. after events (drain (length full) full [] false)) whole
    ∙ ap (after events) drained
