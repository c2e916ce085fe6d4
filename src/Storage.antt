-- ===== src/Storage.antt =====
-- storage/Storage.h and storage/Storage.cc: the files and folders of a user, kept in the key-value
-- store.  The store is reached through the five operations of `Backend`; the clock, which gives a
-- new file its identifier and its time, is a parameter.  `files_in_path` is an `unordered_map`
-- whose order no result shows but that of `get_accessible_moving_path`.
pub mod Wire
pub mod MasterConnect
pub mod Records
pub mod Changes
pub mod KeyValue
pub mod Additions
pub mod Uploads
pub mod Downloads
pub mod Files
pub mod Edits
use google_cloud_final.Base.{Bool, List}
use google_cloud_final.Text.{Bytes}
use google_cloud_final.Map.{Map}
use google_cloud_final.Outcome.{Outcome}

-- `file_info`
pub record FileInfo : Type 0 where
  pub is_file : Bool
  pub name : Bytes
  pub id : Bytes
  pub size : Bytes
  pub time : Bytes

-- What the requests to the store answer: `send_get_command` and the others, by the index.
pub record Backend (S : Type 0) : Type 0 where
  pub send_get : Bytes → S → Outcome (Bytes × S)
  pub send_put : Bytes → Bytes → S → Outcome (Bytes × S)
  pub send_cput : Bytes → Bytes → Bytes → S → Outcome (Bytes × S)
  pub send_delete : Bytes → S → Outcome (Bytes × S)

-- The members of `Storage`.
pub record Storage (S : Type 0) : Type 0 where
  pub path : List FileInfo
  pub files_in_path : Map FileInfo
  pub user_name : Bytes
  pub store : S
