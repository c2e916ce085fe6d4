-- ===== src/FileTool.antt =====
-- kvstore/filetool.cc: files, and addresses as text.  The disk is the contents by path, with the
-- paths at which a file can be opened for writing.  Ports are in host order.
pub mod Laws
use google_cloud_final.Base.{
  ℕ, ◌%◌, Bool, true, false, [], ◌++◌, Option, none, some, suc, take, drop, if◌then◌else◌,
}
use google_cloud_final.Text.{Bytes, codes, position}
use google_cloud_final.Map.{Map, lookup, has, insert, erase}
use google_cloud_final.Number.{ℤ, pos, print, stoul}

pub record Disk : Type 0 where
  pub files : Map Bytes
  pub writable : Bytes → Bool

unfoldable pub file_exist : Disk → Bytes → Bool
unfolding has
file_exist d name = has name d.files

-- The result, and `contents` after the call.
unfoldable pub read_file : Disk → Bytes → Bytes → Bool × Bytes
read_file d name contents = elim (lookup name d.files) [
  | none ↦ (false, contents)
  | some text ↦ (true, text)
]

unfoldable pub write_file : Disk → Bytes → Bytes → Bool × Disk
write_file d name contents =
    if d.writable name
    then (true, record d { files = insert name contents d.files })
    else (false, d)

abbrev pub contents_or_empty : Option Bytes → Bytes
contents_or_empty none = []
contents_or_empty (some text) = text

unfoldable pub append_to_file : Disk → Bytes → Bytes → Bool × Disk
append_to_file d name contents =
    if d.writable name
    then (
      true,
      record d {
        files = insert name (contents_or_empty (lookup name d.files) ++ contents) d.files;
      },
    )
    else (false, d)

unfoldable pub delete_file : Disk → Bytes → Bool × Disk
unfolding has
delete_file d name =
    if has name d.files then (true, record d { files = erase name d.files }) else (false, d)

-- `rename(from, to)`
unfoldable pub rename : Disk → Bytes → Bytes → Disk
rename d from to = elim (lookup from d.files) [
  | none ↦ d
  | some text ↦ record d { files = insert to text (erase from d.files) }
]

pub record Sockaddr : Type 0 where
  pub ip : ℕ
  pub port : ℕ

unfoldable pub ip_to_string : (ℕ → Bytes) → Sockaddr → Bytes
ip_to_string inet_ntop addr = inet_ntop addr.ip ++ codes ":" ++ print addr.port

abbrev parsed_ip : Option ℕ → Sockaddr → Sockaddr
parsed_ip none addr = addr
parsed_ip (some ip) addr = record addr { ip = ip }

-- `none` is an exception of `stoul`.
unfoldable pub string_to_ip : (Bytes → Option ℕ) → Sockaddr → Bytes → Option Sockaddr
string_to_ip inet_pton addr s = elim (position (codes ":") s) [
  | none ↦ some (parsed_ip (inet_pton s) addr)
  | some at ↦ elim (stoul (drop (suc at) s)) [
    | none ↦ none
    | some port ↦ some (record (parsed_ip (inet_pton (take at s)) addr) { port = port % 65536 })
  ]
]
