-- ===== src/Storage/Records/RoundTrip.antt =====
-- The line of a file is read back.
use mathlib.Core.Path.{ap₂}
use google_cloud_final.Base.{
  ℕ, suc, ◌+◌, ◌≤◌, ◌≡◌, ◌≢◌, refl, sym, ap, ◌∙◌, Bool, true, false, List, [], ◌∷◌, ◌++◌, length,
  append_assoc, length-append, arith, if◌then◌else◌,
}
use google_cloud_final.Text.{Bytes, codes, npos, sub64, equal, substr, substr_from}
use google_cloud_final.Text.Search.{Avoids, substr_middle, substr_rest}
use google_cloud_final.Outcome.{Outcome, done, some, ◌>>=◌, or_throw}
use google_cloud_final.Storage.{FileInfo}
use google_cloud_final.Storage.Records.{
  split_bars, parse_string_to_class, file_line, file_of, parts_of,
}

abbrev bar : ℕ
bar = 124

abbrev pub IsSome : Bytes → Type 0
IsSome [] = ⊥
IsSome (c ∷ s) = Unit {0}

-- A part that can stand between `||` on a line.
pub record IsPart (part : Bytes) : Type 0 where
  pub some_byte : IsSome part
  pub no_bar : Avoids 124 part
  pub no_newline : Avoids 10 part

-- What follows a `||` at `k`.
abbrev cut : Bytes → ℕ → ℕ → Bytes → Outcome (List Bytes)
cut name_id p k rest = do
  temp ← or_throw (substr name_id p (sub64 k p))
  others ← split_bars name_id (suc k) (k + 2) (bar ∷ rest)
  done (temp ∷ others)

split_bars-skip :
    (name_id : Bytes) (i p c d : ℕ) (s : Bytes)
    → c ≢ bar
    → split_bars name_id i p (c ∷ d ∷ s) ≡ split_bars name_id (suc i) p (d ∷ s)
unfolding split_bars
split_bars-skip name_id i p c d s h = ground (arith, h)

split_bars-field :
    (name_id : Bytes) (i p : ℕ) (field rest : Bytes)
    → Avoids 124 field
    → split_bars name_id i p (field ++ bar ∷ bar ∷ rest) ≡ cut name_id p (i + length field) rest
unfolding split_bars
split_bars-field name_id i p [] rest h = ap (λ k. cut name_id p k rest) (omega arith)
split_bars-field name_id i p (c ∷ []) rest h =
    split_bars-skip name_id i p c bar (bar ∷ rest) h.0
    ∙ split_bars-field name_id (suc i) p [] rest tt
    ∙ ap (λ k. cut name_id p k rest) (omega arith)
split_bars-field name_id i p (c ∷ d ∷ field) rest h =
    split_bars-skip name_id i p c d (field ++ bar ∷ bar ∷ rest) h.0
    ∙ split_bars-field name_id (suc i) p (d ∷ field) rest h.1
    ∙ ap (λ k. cut name_id p k rest) (omega arith)

split_bars-last :
    (name_id : Bytes) (i p : ℕ) (field : Bytes)
    → Avoids 124 field
    → split_bars name_id i p field ≡ (or_throw (substr_from name_id p) >>= λ last. done (last ∷ []))
unfolding split_bars
split_bars-last name_id i p [] h = refl
split_bars-last name_id i p (c ∷ []) h = refl
split_bars-last name_id i p (c ∷ d ∷ field) h =
    split_bars-skip name_id i p c d field h.0 ∙ split_bars-last name_id (suc i) p (d ∷ field) h.1

-- The parts with `||` between them.
abbrev pub joined : Bytes → List Bytes → Bytes
joined part [] = part
joined part (next ∷ more) = part ++ bar ∷ bar ∷ joined next more

abbrev pub AllParts : List Bytes → Type 0
AllParts [] = Unit {0}
AllParts (part ∷ parts) = IsPart part × AllParts parts

split_bars-bar :
    (name_id : Bytes) (i p : ℕ) (part : Bytes) (more : List Bytes)
    → IsPart part
    → split_bars name_id i p (bar ∷ joined part more)
      ≡ split_bars name_id (suc i) p (joined part more)
unfolding split_bars
split_bars-bar name_id i p [] more h = absurd h.some_byte
split_bars-bar name_id i p (c ∷ part) [] h = ground (arith, h.no_bar)
split_bars-bar name_id i p (c ∷ part) (next ∷ more) h = ground (arith, h.no_bar)

-- The parts are read back from `previous` on.
split_bars-joined :
    (pre part : Bytes) (more : List Bytes)
    → IsPart part
    → AllParts more
    → length (pre ++ joined part more) ≤ npos
    → split_bars (pre ++ joined part more) (length pre) (length pre) (joined part more)
      ≡ done (part ∷ more)
split_bars-joined pre part [] h hs fits =
    split_bars-last (pre ++ part) (length pre) (length pre) part h.no_bar
    ∙ ap (λ o. or_throw o >>= λ last. done (last ∷ []))
        (substr_rest pre part npos (omega (arith, length-append pre part)))
split_bars-joined pre part (next ∷ more) h hs fits =
    let whole = pre ++ joined part (next ∷ more) in
    let rest = joined next more in
    let k = length pre + length part in
    let pre' = pre ++ (part ++ bar ∷ bar ∷ []) in
    let total = length-append pre (joined part (next ∷ more)) in
    let total' = length-append part (bar ∷ bar ∷ rest) in
    let longer : length pre' ≡ k + 2 =
      omega
        (arith, length-append pre (part ++ bar ∷ bar ∷ []), length-append part (bar ∷ bar ∷ [])) in
    let regroup : whole ≡ pre' ++ rest =
      ap (λ s. pre ++ s) (sym (append_assoc part (bar ∷ bar ∷ []) rest))
      ∙ sym (append_assoc pre (part ++ bar ∷ bar ∷ []) rest) in
    let temp : substr whole (length pre) (sub64 k (length pre)) ≡ some part =
      ap (λ n. substr whole (length pre) n) (omega (arith, total, total', fits))
      ∙ substr_middle pre part (bar ∷ bar ∷ rest) in
    let others : split_bars whole (suc k) (k + 2) (bar ∷ rest) ≡ done (next ∷ more) =
      split_bars-bar whole (suc k) (k + 2) next more hs.0
      ∙ ap₂ (λ n w. split_bars w (suc (suc k)) n rest) (sym longer) regroup
      ∙ ap (λ n. split_bars (pre' ++ rest) n (length pre') rest) (omega (arith, longer))
      ∙ split_bars-joined pre' next more hs.0 hs.1 (rw regroup at fits) in
    split_bars-field whole (length pre) (length pre) part rest h.no_bar
    ∙ ap
        (λ o.
          or_throw o >>= λ t. split_bars whole (suc k) (k + 2) (bar ∷ rest) >>= λ ts. done (t ∷ ts))
        temp
    ∙ ap (λ o. o >>= λ ts. done (part ∷ ts)) others

-- A file whose parts can stand on a line.
pub record Fits (f : FileInfo) : Type 0 where
  pub id : IsPart f.id
  pub name : IsPart f.name
  pub time : IsPart f.time
  pub size : IsPart f.size
  pub short : length f.id + length f.name + length f.time + length f.size + 16 ≤ npos

abbrev pub name_id_of : FileInfo → Bytes
name_id_of f = joined f.id (f.name ∷ f.time ∷ f.size ∷ [])

abbrev pub kind_of : Bool → Bytes
kind_of is_file = if is_file then codes "f" else codes "o"

pub file_line-kind : (f : FileInfo) → file_line f ≡ kind_of f.is_file ++ (b':' ∷ name_id_of f)
file_line-kind f = by_kind f.is_file
  where
    by_kind :
        (k : Bool)
        → (if k then codes "f:" else codes "o:")
            ++ (f.id
                ++ (codes "||" ++ (f.name ++ (codes "||" ++ (f.time ++ (codes "||" ++ f.size))))))
          ≡ kind_of k ++ (b':' ∷ name_id_of f)
    by_kind true = refl
    by_kind false = refl

length-name_id :
    (f : FileInfo)
    → length (name_id_of f) ≡ length f.id + length f.name + length f.time + length f.size + 6
length-name_id f = omega (
  arith,
  length-append f.id (bar ∷ bar ∷ joined f.name (f.time ∷ f.size ∷ [])),
  length-append f.name (bar ∷ bar ∷ joined f.time (f.size ∷ [])),
  length-append f.time (bar ∷ bar ∷ f.size),
)

parts_of-joined :
    (part : Bytes) (more : List Bytes)
    → IsPart part
    → AllParts more
    → length (joined part more) ≤ npos
    → parts_of (joined part more) ≡ done (part ∷ more)
unfolding split_bars
parts_of-joined [] more h hs fits = absurd h.some_byte
parts_of-joined (c ∷ part) [] h hs fits = split_bars-joined [] (c ∷ part) [] h hs fits
parts_of-joined (c ∷ part) (next ∷ more) h hs fits =
    split_bars-joined [] (c ∷ part) (next ∷ more) h hs fits

-- A line is read by its first byte and what stands behind the colon.
parse-kind :
    (kind : ℕ) (name_id : Bytes) (parts : List Bytes)
    → length name_id ≤ npos
    → parts_of name_id ≡ done parts
    → parse_string_to_class (kind ∷ b':' ∷ name_id) ≡ file_of (kind ∷ []) parts
unfolding parse_string_to_class
parse-kind kind name_id parts fits e =
    let str = kind ∷ b':' ∷ name_id in
    ap
      (λ o. or_throw o >>= λ type.
        or_throw (substr_from str 2) >>= λ n. parts_of n >>= λ result. file_of type result)
      (substr_middle [] (kind ∷ []) (b':' ∷ name_id))
    ∙ ap (λ o. or_throw o >>= λ n. parts_of n >>= λ result. file_of (kind ∷ []) result)
        (substr_rest (kind ∷ b':' ∷ []) name_id npos fits)
    ∙ ap (λ o. o >>= λ result. file_of (kind ∷ []) result) e

-- The line of a file whose id, name, time and size can stand on it (none is empty or has a bar or
-- a newline, and they are short enough) is read back as the file.
pub parse_lem : (f : FileInfo) → Fits f → parse_string_to_class (file_line f) ≡ done f
unfolding equal
parse_lem f h = ap parse_string_to_class (file_line-kind f) ∙ with_kind f.is_file
  where
    fits : length (name_id_of f) ≤ npos
    fits = omega (arith, length-name_id f, h.short)

    parts : parts_of (name_id_of f) ≡ done (f.id ∷ f.name ∷ f.time ∷ f.size ∷ [])
    parts =
        parts_of-joined f.id (f.name ∷ f.time ∷ f.size ∷ []) h.id (h.name, (h.time, (h.size, tt)))
          fits

    with_kind :
        (k : Bool)
        → parse_string_to_class (kind_of k ++ (b':' ∷ name_id_of f))
          ≡ done (record f { is_file = k })
    with_kind true = parse-kind b'f' (name_id_of f) _ fits parts
    with_kind false = parse-kind b'o' (name_id_of f) _ fits parts
