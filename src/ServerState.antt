-- ===== src/ServerState.antt =====
-- kvstore/serverState.h and kvstore/serverState.cc: what a data server knows of itself.  The
-- mutexes are not modelled: every operation runs whole.  `seq_id` is a `long` that starts at 0
-- and never falls, so it is a natural number; the 2^63rd command is out of reach.
use google_cloud_final.Base.{ℕ, ◌+◌, Bool, true, false, List, ◌++◌, Option, ltb, if◌then◌else◌}
use google_cloud_final.Text.{Bytes, codes}
use google_cloud_final.Number.{ℤ, pos, negsuc}
use google_cloud_final.FileTool.{Sockaddr, string_to_ip}
use google_cloud_final.Outcome.{Outcome, done, ◌>>=◌, or_throw}

pub record ServerState : Type 0 where
  pub primary : Bool
  pub node_id : ℕ
  pub rep_id : ℕ
  pub server_list : List Sockaddr
  pub status : ℕ
  pub seq_id : ℕ
  pub can_checkpoint : Bool
  pub file_path : Bytes
  pub log_path : Bytes
  pub checkpointing_path : Bytes
  pub my_addr : Sockaddr
  pub master_addr : Sockaddr
  pub primary_addr : Sockaddr

-- `max(seqID, seq)`
unfoldable pub max_seq : ℕ → ℤ → ℕ
max_seq seq_id (pos seq) = if ltb seq_id seq then seq else seq_id
max_seq seq_id (negsuc n) = seq_id

unfoldable pub update_seq : ServerState → ℤ → ServerState
unfolding max_seq
update_seq s seq = record s { seq_id = max_seq s.seq_id seq }

-- The new sequence number, and the state that holds it.
unfoldable pub increase_seq : ServerState → ℕ × ServerState
increase_seq s = (s.seq_id + 1, record s { seq_id = s.seq_id + 1 })

unfoldable pub pause_checkpoint : ServerState → ServerState
pause_checkpoint s = record s { can_checkpoint = false }

unfoldable pub resume_checkpoint : ServerState → ServerState
resume_checkpoint s = record s { can_checkpoint = true }

unfoldable pub set_primary : ServerState → ServerState
set_primary s = record s { primary = true }

unfoldable pub set_file_path : ServerState → Bytes → ServerState
set_file_path s path = record s {
  file_path = path;
  log_path = path ++ codes "/log.txt";
  checkpointing_path = path ++ codes "/checkpoint.txt";
}

unfoldable pub set_primary_addr : (Bytes → Option ℕ) → ServerState → Bytes → Outcome ServerState
set_primary_addr inet_pton s text = do
  addr ← or_throw (string_to_ip inet_pton s.primary_addr text)
  done (record s { primary_addr = addr })
