-- ===== src/Storage/Wire/Answers.antt =====
-- What a worker answers to a GET, and what the client makes of it.
use google_cloud_final.Base.{
  ◌-◌, ◌<◌, ◌≡◌, refl, ap, ◌∙◌, true, false, List, [], ◌∷◌, ◌++◌, length, length-append, leb, arith,
  append_assoc, if◌then◌else◌, on_false,
}
use google_cloud_final.Text.{Bytes, codes, substr, position, is_prefix}
use google_cloud_final.Text.Search.{Avoids, substr_middle}
use google_cloud_final.Map.{lookup}
use google_cloud_final.Connection.{ReadEvent, got, c_str, has_str, crlf, dot_line}
use google_cloud_final.Connection.Reads.{c_str-Avoids, has_str-end}
use google_cloud_final.DataServer.{SMap, Worker, reply}
use google_cloud_final.DataServer.Replies.{reply-free}
use google_cloud_final.Worker.Handlers.{parse_get}
use google_cloud_final.Storage.Wire.{
  shutting_down, get_reply, piece_of, read_get_data, complete_data,
}
use google_cloud_final.Outcome.{Outcome, done, abort, Option, none, some, ◌>>=◌}

-- The answer for a cell that holds the text and a line end.
abbrev pub get_answer : Bytes → Bytes
get_answer text = codes "DATA" ++ (crlf ++ (text ++ dot_line))

starts_with_data : (text : Bytes) → has_str (get_answer text) (codes "DATA" ++ crlf) ≡ true
unfolding has_str c_str position is_prefix
starts_with_data text = refl

get_reply-answer :
    (text : Bytes)
    → Avoids 0 (get_answer text)
    → has_str (get_answer text) shutting_down ≡ false
    → get_reply false (get_answer text) ≡ some text
unfolding get_reply complete_data
get_reply-answer text z fine =
    let ended : has_str (get_answer text) dot_line ≡ true =
      has_str-end (codes "DATA" ++ (crlf ++ text)) dot_line z in
    rw (fine, starts_with_data text, ended) (by_size text)
  where
    by_size :
        (t : Bytes)
        → (if leb (length (get_answer t)) 11
            then some []
            else substr (get_answer t) 6 (length (get_answer t) - 11))
          ≡ some t
    by_size [] = refl
    by_size (c ∷ t) =
        let total = length-append (c ∷ t) dot_line in
        on_false {b = leb (length (get_answer (c ∷ t))) 11} (some []) (ground (arith, total))
        ∙ ap (λ n. substr (get_answer (c ∷ t)) 6 n) (omega (arith, total))
        ∙ substr_middle (codes "DATA" ++ crlf) (c ∷ t) dot_line

-- What the loop does with a piece.
abbrev read_on : List ReadEvent → Bytes → Option Bytes → Outcome (Bytes × List ReadEvent)
read_on events piece o = elim o [
  | none ↦ read_get_data piece events
  | some answer ↦ done (answer, events)
]

read_get_data-answer :
    (text : Bytes) (events : List ReadEvent)
    → Avoids 0 (get_answer text)
    → length (get_answer text) < 7000000
    → has_str (get_answer text) shutting_down ≡ false
    → read_get_data [] (got (get_answer text) ∷ events) ≡ done (text, events)
unfolding read_get_data
read_get_data-answer text events z f fine =
    let answer = get_answer text in
    let piece : piece_of 7000000 (got answer) ≡ done answer =
      ap (λ s. if leb 7000000 (length s) then abort else done s) (c_str-Avoids answer z)
      ∙ on_false {b = leb 7000000 (length answer)} abort (ground (arith, f)) in
    ap (λ o. o >>= λ p. read_on events p (get_reply false p)) piece
    ∙ ap (read_on events answer) (get_reply-answer text z fine)

-- A worker whose kernel takes everything answers a GET of a cell that holds a text and a line end;
-- the storage client that gets that answer in one piece reads the text, if the answer is shorter
-- than the buffer, has no zero byte, and the notice of a shut down does not stand in it.
pub get_lem :
    (s : Worker) (row col text : Bytes) (cols : SMap) (events : List ReadEvent)
    → s.task.outgoing ≡ []
    → lookup row s.table ≡ some cols
    → lookup col cols ≡ some (some (text ++ crlf))
    → Avoids 0 (get_answer text)
    → length (get_answer text) < 7000000
    → has_str (get_answer text) shutting_down ≡ false
    → (s' : Worker) × (parse_get row col s ≡ done s')
      × (s'.task.sent ≡ s.task.sent ++ get_answer text)
      × (read_get_data [] (got (get_answer text) ∷ events) ≡ done (text, events))
unfolding parse_get
get_lem s row col text cols events free here cell z f fine =
    let s1 = reply s (codes "DATA" ++ crlf) in
    let s2 = reply s1 (text ++ crlf) in
    let (sent1, free1) = reply-free s (codes "DATA" ++ crlf) free in
    let (sent2, free2) = reply-free s1 (text ++ crlf) free1 in
    let (sent3, free3) = reply-free s2 (codes "." ++ crlf) free2 in
    (
      reply s2 (codes "." ++ crlf),
      ground (arith, here, cell),
      sent3
          ∙ ap (λ t. t ++ (codes "." ++ crlf)) (sent2 ∙ ap (λ t. t ++ (text ++ crlf)) sent1)
          ∙ simp (append_assoc),
      read_get_data-answer text events z f fine,
    )
