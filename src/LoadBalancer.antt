-- ===== src/LoadBalancer.antt =====
-- frontendServer/load_balancer.cc and frontendServer/admin.h: which front-end server gets the next
-- request.  The lock is not modelled: a choice runs whole.  `reach` is what `connect` answers.
pub mod Rotation
use google_cloud_final.Base.{
  ℕ, zero, suc, ◌+◌, Bool, true, false, List, [], ◌∷◌, ◌++◌, length, ltb, ◌==◌, if◌then◌else◌,
  Option, none, some,
}
use google_cloud_final.Text.{Bytes, codes}
use google_cloud_final.Number.{print}
use google_cloud_final.Connection.{crlf}
use google_cloud_final.Outcome.{Outcome, done, abort, blocked, ◌>>=◌}

pub record Server : Type 0 where
  pub address : Bytes
  pub port : ℕ
  pub running : Bool

-- The loop that takes servers that are down from the front to the back of the queue: `count` and
-- the queue.  The front of an empty queue is out of bounds.
unfoldable pub skip_down : ℕ → ℕ → List Server → Outcome (ℕ × List Server)
skip_down zero count servers = blocked
skip_down (suc fuel) count [] = abort
skip_down (suc fuel) count (s ∷ rest) =
    let moved = rest ++ s ∷ [] in
    let more = skip_down fuel (suc count) moved in
    if s.running
    then done (count, s ∷ rest)
    else if suc count == length moved
    then done (suc count, moved)
    else more

-- The front, which goes to the back.
abbrev pub take_front : List Server → Outcome (Option Server × List Server)
take_front [] = abort
take_front (s ∷ rest) = done (some s, rest ++ s ∷ [])

-- The server that gets the next request, and the queue after it.  There is fuel for each server.
unfoldable pub next_server : List Server → Outcome (Option Server × List Server)
unfolding skip_down
next_server servers = do
  (count, queue) ← skip_down (suc (length servers)) 0 servers
  if count == length queue then done (none, queue) else take_front queue

-- The answer to a request, with its zero byte; `page` is the page that says that no server runs.
-- It is built in a buffer of 10000 bytes.
unfoldable pub response : Bytes → Option Server → Bytes
unfolding print
response page none =
    codes "HTTP/1.1 200 OK"
    ++ (crlf ++ (codes "Content-type: text/html" ++ (crlf ++ (crlf ++ (page ++ 0 ∷ [])))))
response page (some s) =
    codes "HTTP/1.1 307 Temporary Redirect"
    ++ (crlf
        ++ (codes "Location: http://"
            ++ (s.address ++ (codes ":" ++ (print s.port ++ (crlf ++ (crlf ++ 0 ∷ [])))))))

unfoldable pub answer_request : Bytes → List Server → Outcome (Bytes × List Server)
unfolding next_server response
answer_request page servers = do
  (chosen, queue) ← next_server servers
  if ltb 10000 (length (response page chosen)) then abort else done (response page chosen, queue)

-- One round of `check_server_state`.
unfoldable pub check_server_state : (Bytes → ℕ → Bool) → List Server → List Server
check_server_state reach [] = []
check_server_state reach (s ∷ rest) =
    record s { running = reach s.address s.port } ∷ check_server_state reach rest
