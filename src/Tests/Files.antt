-- ===== src/Tests/Files.antt =====
-- A table as the key-value store, and a user with a folder, on which the theorems on files are
-- applied.
use google_cloud_final.Base.{Bool, ◌≡◌, refl, true, false, ◌&&◌, ◌++◌, arith, if◌then◌else◌}
use google_cloud_final.Text.{Bytes, codes, equal}
use google_cloud_final.Map.{Map, lookup, insert, erase}
use google_cloud_final.Map.Laws.{lookup-insert, lookup-erase}
use google_cloud_final.Connection.{crlf}
use google_cloud_final.Outcome.{Outcome, done, Option, some}
use google_cloud_final.Storage.{FileInfo, Backend}
use google_cloud_final.Storage.Records.{parse_string_to_class, file_line}
use google_cloud_final.Storage.Records.RoundTrip.{Fits, parse_lem}
use google_cloud_final.Storage.KeyValue.{KeyValue, shown, shown_old}

abbrev pub Table : Type 0
Table = Map Bytes

abbrev pub cell : Table → Bytes → Option Bytes
cell t i = lookup i t

abbrev pub swap : Bytes → Bytes → Bytes → Table → Bytes × Table
swap index old new t =
    if equal (shown_old (lookup index t)) old
    then (codes "+OK" ++ crlf, insert index new t)
    else (codes "-ERR" ++ crlf, t)

abbrev pub table_store : Backend Table
table_store = record {
  send_get = λ i t. done (shown (lookup i t), t);
  send_put = λ i contents t. done (codes "+OK" ++ crlf, insert i contents t);
  send_cput = λ i old new t. done (swap i old new t);
  send_delete = λ i t. done (codes "+OK" ++ crlf, erase i t);
}

abbrev pub Any : Bytes → Type 0
Any s = Unit {0}

abbrev answer : Bytes × Table → Outcome (Bytes × Table)
answer p = done p

swap_lem :
    (index old new : Bytes) (t : Table)
    → (s' : Table) × (table_store.send_cput index old new t
        ≡ done (
          if equal (shown_old (cell t index)) old
              then codes "+OK" ++ crlf
              else codes "-ERR" ++ crlf,
          s',
        ))
      × ((i : Bytes)
          → cell s' i ≡ (
              if equal (shown_old (cell t index)) old && equal index i then some new else cell t i))
swap_lem index old new t = by_test (equal (shown_old (lookup index t)) old)
  where
    by_test :
        (same : Bool)
        → (s' : Table) × (answer (
              if same then (codes "+OK" ++ crlf, insert index new t) else (codes "-ERR" ++ crlf, t))
            ≡ answer (if same then codes "+OK" ++ crlf else codes "-ERR" ++ crlf, s'))
          × ((i : Bytes) → cell s' i ≡ (if same && equal index i then some new else cell t i))
    by_test true = (insert index new t, refl, λ i. lookup-insert index i new t)
    by_test false = (t, refl, λ i. refl)

pub table_store-KeyValue : KeyValue table_store cell Any Any
table_store-KeyValue = record {
  get = λ i t h. (t, refl, λ j. refl);
  put = λ i contents t h k. (_, insert i contents t, refl, λ j. lookup-insert i j contents t);
  cput = λ i old new t h k l. swap_lem i old new t;
  delete = λ i t h. (_, erase i t, refl, λ j. lookup-erase i j t);
}

abbrev pub notes : FileInfo
notes = record {
  is_file = true;
  name = codes "notes";
  id = codes "7";
  size = codes "2";
  time = codes "noon";
}

pub notes-Fits : Fits notes
notes-Fits = record {
  id = record { some_byte = tt; no_bar = ground arith; no_newline = ground arith };
  name = record { some_byte = tt; no_bar = ground arith; no_newline = ground arith };
  time = record { some_byte = tt; no_bar = ground arith; no_newline = ground arith };
  size = record { some_byte = tt; no_bar = ground arith; no_newline = ground arith };
  short = omega arith;
}

file_line_example : parse_string_to_class (file_line notes) ≡ done notes
file_line_example = parse_lem notes notes-Fits
