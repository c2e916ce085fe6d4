-- ===== src/Mail/Wire.antt =====
-- webmail/utils.cc: a request to the store or to the master, and its answer.  A `got` is never
-- longer than the room in the buffer, and its bytes are read as a C string.
pub mod Answers
use google_cloud_final.Base.{
  ℕ, zero, suc, ◌+◌, ◌-◌, ◌/◌, ◌%◌, Bool, true, false, List, [], ◌∷◌, ◌++◌, length, take, drop, leb,
  if◌then◌else◌,
}
use google_cloud_final.Text.{
  Bytes, codes, npos, add64, sub64, equal, find, position, substr, substr_from,
}
use google_cloud_final.CText.{strcasecmp, strncasecmp}
use google_cloud_final.FileHandler.{hex_digit}
use google_cloud_final.Connection.{Connection, ReadEvent, got, read_failed, c_str, crlf, do_write}
use google_cloud_final.Outcome.{Outcome, done, abort, blocked, Option, none, some, ◌>>=◌, or_throw}
use google_cloud_final.Mail.{Net}

-- The buffer behind one call of `read`; a full one has no end.  The buffer is the text up to its
-- first zero byte: what the code has in memory behind that is left out.
abbrev pub filled : ℕ → Bytes → ReadEvent → Outcome Bytes
filled size buff read_failed = done buff
filled size buff (got chunk) =
    if leb size (length (buff ++ c_str chunk)) then abort else done (buff ++ c_str chunk)

-- What a line of the answer does.
pub data Line : Type 0 where
  quit : Bytes → Line
  go_on : Bytes → Bool → Line

-- The end of the data is looked for in the whole buffer.
unfoldable pub answer_line : Bytes → Bytes → Bytes → Bool → Line
unfolding equal strcasecmp strncasecmp
answer_line buff line response true =
    if equal buff (codes "." ++ crlf) then quit response else go_on (response ++ line) true
answer_line buff line response false =
    let command = take 6 buff in
    if strcasecmp command (codes "DATA" ++ crlf)
    then go_on response true
    else if strncasecmp command (codes "-ERR") 4
    then quit line
    else if strncasecmp command (codes "+OK") 3
    then quit line
    else if strcasecmp command (codes "SERVER")
    then quit line
    else go_on response false

-- The lines that are in the buffer, of which there are fewer than bytes: what quits, or the buffer,
-- the response and the flag that are left.
pub data Drained : Type 0 where
  answered : Bytes → Drained
  wants_more : Bytes → Bytes → Bool → Drained

unfoldable pub drain : ℕ → Bytes → Bytes → Bool → Drained
unfolding answer_line position
drain zero buff response in_data = wants_more buff response in_data
drain (suc fuel) buff response in_data = elim (position crlf buff) [
  | none ↦ wants_more buff response in_data
  | some k ↦ elim (answer_line buff (take (k + 2) buff) response in_data) [
    | quit r ↦ answered r
    | go_on r d ↦ drain fuel (drop (k + 2) buff) r d
  ]
]

-- The read loop, with `response` and `DATA` as they are before the next `read`.
unfoldable pub do_read : Bytes → Bytes → Bool → List ReadEvent → Outcome Bytes
unfolding drain
do_read buff response in_data [] = blocked
do_read buff response in_data (event ∷ events) = do
  full ← filled 5000 buff event
  elim (drain (length full) full response in_data) [
    | answered r ↦ done r
    | wants_more b r d ↦ do_read b r d events
  ]

-- `do_write`, which ends the process if it fails.
unfoldable pub do_write_or_exit : Connection → Bytes → Outcome Connection
unfolding do_write
do_write_or_exit c buff = let (ok, c') = do_write c buff in if ok then done c' else abort

unfoldable pub sendto_backend : {S : Type 0} → Net S → Bytes → Bytes → S → Outcome (Bytes × S)
unfolding do_write_or_exit do_read find
sendto_backend net master_addr message world = do
  let found = find master_addr (codes ":")
  ip ← or_throw (substr master_addr 0 found)
  port ← or_throw (substr_from master_addr (add64 found 1))
  let (c, world') = net.connect ip port world
  c1 ← do_write_or_exit c (c_str message)
  response ← do_read [] [] false c1.incoming
  c2 ← do_write_or_exit c1 (codes "QUIT" ++ crlf)
  done (response, net.close c2 world')

-- Each byte of the digest is printed one place on, over the second digit of the one before it.
unfoldable pub hash_text : Bytes → Bytes
hash_text [] = []
hash_text (c ∷ []) = hex_digit (c % 256 / 16) ∷ hex_digit (c % 16) ∷ []
hash_text (c ∷ d ∷ digest) = hex_digit (c % 256 / 16) ∷ hash_text (d ∷ digest)

-- `hash_MD5`
abbrev pub hash_md5 : (Bytes → Bytes) → Bytes → Bytes
hash_md5 md5 text = hash_text (md5 (c_str text))

module _ {S : Type 0} (send : Bytes → Bytes → S → Outcome (Bytes × S)) where
  unfoldable pub ask_master : Bytes → Bytes → S → Outcome (Bytes × S)
  unfolding find
  ask_master master_address user world = do
    (response, w1) ← send master_address (codes "WHERE <" ++ (user ++ (codes ">" ++ crlf))) world
    let named = (do
      let f1 = find response (codes "<")
      let f2 = find response (codes ">")
      or_throw (substr response (add64 f1 1) (sub64 (sub64 f2 f1) 1)))
    ans ← (if equal response (codes "NULL") then done (codes "NULL") else named)
    (last, w2) ← send master_address (codes "QUIT" ++ crlf) w1
    done (ans, w2)
