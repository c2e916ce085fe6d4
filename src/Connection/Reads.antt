-- ===== src/Connection/Reads.antt =====
-- A line, or data up to a line with a dot alone, that comes in one piece.
use google_cloud_final.Base.{
  ℕ, zero, suc, ◌-◌, ◌<◌, ◌≤◌, ◌≡◌, refl, true, false, List, [], ◌∷◌, ◌++◌, length, drop, leb,
  take_all, arith, on_true, Bool-cases, inl, inr,
}
use google_cloud_final.Text.{Bytes, position, is_prefix}
use google_cloud_final.Text.Search.{Avoids}
use google_cloud_final.Connection.{
  ReadEvent, got, c_str, has_str, crlf, read_until, do_read, do_read_data, dot_line,
}
use google_cloud_final.Outcome.{done, some}

pub c_str-Avoids : (s : Bytes) → Avoids 0 s → c_str s ≡ s
unfolding c_str
c_str-Avoids [] h = refl
c_str-Avoids (c ∷ s) h = ground (arith, h, c_str-Avoids s h.1)

is_prefix_refl : (s : Bytes) → is_prefix s s ≡ true
unfolding is_prefix
is_prefix_refl [] = refl
is_prefix_refl (c ∷ s) = ground (arith, is_prefix_refl s)

-- A text that ends in the needle has it in it.
pub position-end : (pre needle : Bytes) → (k : ℕ) × (position needle (pre ++ needle) ≡ some k)
unfolding position
position-end [] [] = (0, unfold is_prefix in refl)
position-end [] (c ∷ s) = (0, on_true _ (is_prefix_refl (c ∷ s)))
position-end (p ∷ pre) needle = elim (Bool-cases (is_prefix needle (p ∷ pre ++ needle))) [
  | inl e ↦ (0, on_true _ e)
  | inr e ↦ (suc (position-end pre needle).0, rw (e, (position-end pre needle).1) refl)
]

pub has_str-end :
    (pre needle : Bytes) → Avoids 0 (pre ++ needle) → has_str (pre ++ needle) needle ≡ true
unfolding has_str
has_str-end pre needle h =
    ground (arith, c_str-Avoids (pre ++ needle) h, (position-end pre needle).1)

drop_none : (n : ℕ) (s : Bytes) → length s ≤ n → drop n s ≡ []
drop_none zero [] h = refl
drop_none zero (x ∷ s) h = absurd (omega (arith, h))
drop_none (suc n) [] h = refl
drop_none (suc n) (x ∷ s) h = drop_none n s (omega (arith, h))

pub do_read-line :
    (n : ℕ) (line : Bytes) (events : List ReadEvent)
    → Avoids 0 (line ++ crlf)
    → length (line ++ crlf) < n
    → do_read n (got (line ++ crlf) ∷ events) ≡ done (true, line ++ crlf, events)
unfolding do_read read_until
do_read-line n line events z f =
    let text = line ++ crlf in
    let some_room : leb n 0 ≡ false = ground (arith, f) in
    let room : leb n (length text) ≡ false = ground (arith, f) in
    rw
      (
        some_room,
        take_all (n - 0) text (omega (arith, f)),
        has_str-end line crlf z,
        room,
        drop_none (n - 0) text (omega (arith, f)),
      )
      refl

pub do_read_data-piece :
    (n : ℕ) (body : Bytes) (events : List ReadEvent)
    → Avoids 0 (body ++ dot_line)
    → length (body ++ dot_line) ≤ n
    → 0 < n
    → do_read_data n (got (body ++ dot_line) ∷ events) ≡ done (true, body ++ dot_line, events)
unfolding do_read_data read_until
do_read_data-piece n body events z f g =
    let text = body ++ dot_line in
    let some_room : leb n 0 ≡ false = ground (arith, g) in
    rw
      (
        some_room,
        take_all (n - 0) text (omega (arith, f)),
        has_str-end body dot_line z,
        drop_none (n - 0) text (omega (arith, f)),
      )
      refl
