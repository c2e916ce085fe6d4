-- ===== src/DataServer.antt =====
-- kvstore/server.h, kvstore/cell.h, and the globals that a worker of kvstore/Worker.cc shares:
-- the table, the server's state, its files and the replicas.  A `Cell*` in the table is an
-- `Option`, whose `none` is a null pointer; a cell stands in one place, so it is its contents.
-- Each worker has its connection and the stream `w` of what it has read.
pub mod Table
pub mod Replies
use google_cloud_final.Base.{
  ℕ, ◌+◌, Bool, true, false, [], ◌++◌, length, take, drop, Option, none, some,
}
use google_cloud_final.Text.{Bytes}
use google_cloud_final.Map.{Map, lookup, insert}
use google_cloud_final.ServerState.{ServerState}
use google_cloud_final.FileTool.{Disk}
use google_cloud_final.BackStore.{BackStore, Dial}
use google_cloud_final.Connection.{Connection, do_write}

-- `smap` and `bmap`
abbrev pub SMap : Type 0
SMap = Map (Option Bytes)

abbrev pub BMap : Type 0
BMap = Map SMap

-- A `stringstream`: its text, and where the next `<<` writes.  `str(s)` puts that place back to
-- the front, so a `<<` behind it writes over the text.
pub record StringStream : Type 0 where
  pub text : Bytes
  pub put_at : ℕ

abbrev pub set_str : Bytes → StringStream
set_str s = record { text = s; put_at = 0 }

unfoldable pub stream_write : StringStream → Bytes → StringStream
stream_write w s = record {
  text = take w.put_at w.text ++ (s ++ drop (w.put_at + length s) w.text);
  put_at = w.put_at + length s;
}

-- What is not under `src/`: the printed and the read form of an address, and who can be reached.
pub record Net : Type 0 where
  pub inet_ntop : ℕ → Bytes
  pub inet_pton : Bytes → Option ℕ
  pub dial : Dial

pub record Worker : Type 0 where
  pub table : BMap
  pub server : ServerState
  pub disk : Disk
  pub back_store : Option BackStore
  pub task : Connection
  pub w : StringStream
  pub run_flag : Bool

-- `reply`: what `do_write` answers is not looked at.
unfoldable pub reply : Worker → Bytes → Worker
reply s text = record s { task = (do_write s.task text).1 }
