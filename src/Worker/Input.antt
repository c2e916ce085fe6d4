-- ===== src/Worker/Input.antt =====
-- How a worker gets its input: `extract_command`, `parse_command`, `strnicmp`, and the loops that
-- wait for the end of the data.
use google_cloud_final.Base.{
  ℕ, zero, suc, ◌+◌, ◌-◌, Bool, true, false, ◌&&◌, List, [], ◌∷◌, ◌++◌, length, take, drop, leb,
  ◌==◌, if◌then◌else◌,
}
use google_cloud_final.Text.{Bytes, codes, add64, find, position, substr_from}
use google_cloud_final.RowCol.{row_col}
use google_cloud_final.Connection.{
  Connection, ReadEvent, got, read_failed, c_str, do_read_data, crlf,
}
use google_cloud_final.Outcome.{Outcome, done, blocked, Option, none, some, ◌>>=◌, or_throw}
use google_cloud_final.DataServer.{StringStream, set_str}

-- The size of the read buffer.
abbrev pub rlen : ℕ
rlen = 4000000

abbrev upper : ℕ → ℕ
upper c = if leb b'a' c && leb c b'z' then c - 32 else c

-- The loop of `strnicmp`: the first `n` bytes, or fewer where a text is shorter.
unfoldable pub same_start : ℕ → Bytes → Bytes → Bool
same_start zero s1 s2 = true
same_start (suc n) [] s2 = true
same_start (suc n) (a ∷ s1) [] = true
same_start (suc n) (a ∷ s1) (b ∷ s2) = upper a == upper b && same_start n s1 s2

-- `strnicmp(s1, s2, n) == 0`; an empty text is never the same.
unfoldable pub strnicmp : Bytes → Bytes → ℕ → Bool
unfolding same_start
strnicmp [] s2 n = false
strnicmp (a ∷ s1) [] n = false
strnicmp (a ∷ s1) (b ∷ s2) n = same_start n (a ∷ s1) (b ∷ s2)

-- The command up to and with its `\r\n`, and the stream that is left; `none` is the result 0.
unfoldable pub extract_command : StringStream → Option (Bytes × StringStream)
extract_command w = elim (position crlf w.text) [
  | none ↦ none
  | some at ↦ some (take (at + 2) w.text, set_str (drop (at + 2) w.text))
]

unfoldable pub parse_command : Bytes → Outcome (Bytes × Bytes)
parse_command command = do
  s ← or_throw (substr_from command (add64 (find command (codes " ")) 1))
  or_throw (row_col s)

-- What a reader can still take: the bytes, and one for each event.
abbrev pub budget : List ReadEvent → ℕ
budget [] = 0
budget (read_failed ∷ events) = suc (budget events)
budget (got chunk ∷ events) = suc (length chunk + budget events)

-- `while (data_end == npos)`: the buffer, where the needle stands in it, and the connection.
-- Each round hands the buffer a C string, so the rest of a chunk behind a zero byte is lost.
unfoldable pub await : ℕ → Bytes → Bytes → Connection → Outcome (Bytes × ℕ × Connection)
await zero needle buffer task = blocked
await (suc fuel) needle buffer task =
    let again = (do
      (result, buf, events) ← do_read_data rlen task.incoming
      await fuel needle (buffer ++ c_str buf) (record task { incoming = events })) in
    elim (position needle buffer) [ none ↦ again | some at ↦ done (buffer, at, task) ]

-- The loop with the fuel that it needs.
unfoldable pub await_data : Bytes → Bytes → Connection → Outcome (Bytes × ℕ × Connection)
unfolding await
await_data needle buffer task = await (suc (budget task.incoming)) needle buffer task
