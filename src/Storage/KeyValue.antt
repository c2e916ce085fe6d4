-- ===== src/Storage/KeyValue.antt =====
-- What the operations on files rely on in the key-value store: each request answers, and the
-- requests read and write one cell for each index.
use google_cloud_final.Base.{◌≡◌, ◌&&◌, ◌++◌, if◌then◌else◌}
use google_cloud_final.Text.{Bytes, codes, equal}
use google_cloud_final.Connection.{crlf}
use google_cloud_final.Outcome.{done, Option, none, some}
use google_cloud_final.Storage.{Backend}
use google_cloud_final.Storage.Wire.{err_null}

-- What a GET shows of a cell, and what a CPUT compares with.
abbrev pub shown : Option Bytes → Bytes
shown none = err_null
shown (some contents) = contents

abbrev pub shown_old : Option Bytes → Bytes
shown_old none = codes "NULL"
shown_old (some contents) = contents

-- `view` is the cell of each index; `IsIndex` and `Holds` say which indices and data a store takes.
pub record KeyValue {S : Type 0} (b : Backend S) (view : S → Bytes → Option Bytes)
    (IsIndex : Bytes → Type 0) (Holds : Bytes → Type 0) : Type 0 where
  pub get :
      (index : Bytes) (s : S)
      → IsIndex index
      → (s' : S) × (b.send_get index s ≡ done (shown (view s index), s'))
        × ((i : Bytes) → view s' i ≡ view s i)
  pub put :
      (index contents : Bytes) (s : S)
      → IsIndex index
      → Holds contents
      → (reply : Bytes) × (s' : S) × (b.send_put index contents s ≡ done (reply, s'))
        × ((i : Bytes) → view s' i ≡ (if equal index i then some contents else view s i))
  pub cput :
      (index old new : Bytes) (s : S)
      → IsIndex index
      → Holds old
      → Holds new
      → (s' : S) × (b.send_cput index old new s
          ≡ done (
            if equal (shown_old (view s index)) old
                then codes "+OK" ++ crlf
                else codes "-ERR" ++ crlf,
            s',
          ))
        × ((i : Bytes)
            → view s' i ≡ (
                if equal (shown_old (view s index)) old && equal index i
                then some new
                else view s i))
  pub delete :
      (index : Bytes) (s : S)
      → IsIndex index
      → (reply : Bytes) × (s' : S) × (b.send_delete index s ≡ done (reply, s'))
        × ((i : Bytes) → view s' i ≡ (if equal index i then none else view s i))
