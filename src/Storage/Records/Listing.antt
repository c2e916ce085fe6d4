-- ===== src/Storage/Records/Listing.antt =====
-- The lines of a folder are read back.
use google_cloud_final.Base.{
  ◌≡◌, refl, sym, ap, ◌∙◌, Bool, true, false, List, [], ◌∷◌, ◌++◌, map, append_assoc, append-nil,
  arith, if◌then◌else◌,
}
use google_cloud_final.Text.{Bytes, codes, equal}
use google_cloud_final.Text.Search.{Avoids, Avoids-append}
use google_cloud_final.Outcome.{done, ◌>>=◌}
use google_cloud_final.Storage.{FileInfo}
use google_cloud_final.Storage.Records.{
  file_line, split_lines, parse_content_file_names, exist_same_file_name,
}
use google_cloud_final.Storage.Wire.{err_null}
use google_cloud_final.Storage.Records.RoundTrip.{Fits, parse_lem, file_line-kind, kind_of}

-- The contents of a folder.
abbrev pub listing : List FileInfo → Bytes
listing [] = []
listing (f ∷ fs) = file_line f ++ (codes "\n" ++ listing fs)

abbrev pub AllFit : List FileInfo → Type 0
AllFit [] = Unit {0}
AllFit (f ∷ fs) = Fits f × AllFit fs

pub split_lines-line :
    (line l s : Bytes)
    → Avoids 10 l
    → split_lines line (l ++ 10 ∷ s) ≡ (line ++ l) ∷ split_lines [] s
unfolding split_lines
split_lines-line line [] s h = ap (λ x. x ∷ split_lines [] s) (sym (append-nil line))
split_lines-line line (c ∷ l) s h =
    ground (arith, h)
    ∙ split_lines-line (line ++ c ∷ []) l s h.1
    ∙ ap (λ x. x ∷ split_lines [] s) (append_assoc line (c ∷ []) l)

file_line-Avoids : (f : FileInfo) → Fits f → Avoids 10 (file_line f)
file_line-Avoids f h = rw (file_line-kind f) (
    Avoids-append 10 (kind_of f.is_file) _ (kind_avoids f.is_file) (
      omega arith,
      Avoids-append 10 f.id _ h.id.no_newline (
        omega arith,
        (
          omega arith,
          Avoids-append 10 f.name _ h.name.no_newline (
            omega arith,
            (
              omega arith,
              Avoids-append 10 f.time _ h.time.no_newline
                  (omega arith, (omega arith, h.size.no_newline)),
            ),
          ),
        ),
      ),
    ))
  where
    kind_avoids : (k : Bool) → Avoids 10 (kind_of k)
    kind_avoids true = omega arith
    kind_avoids false = omega arith

-- The lines of a folder's contents are those of its files.
pub names_lem :
    (fs : List FileInfo) → AllFit fs → parse_content_file_names (listing fs) ≡ map file_line fs
unfolding parse_content_file_names
names_lem [] h = unfold split_lines in refl
names_lem (f ∷ fs) h =
    split_lines-line [] (file_line f) (listing fs) (file_line-Avoids f h.0)
    ∙ ap (λ ls. file_line f ∷ ls) (names_lem fs h.1)

-- Whether a file of the folder has the name.
abbrev pub named : Bytes → List FileInfo → Bool
named name [] = false
named name (f ∷ fs) = if equal f.name name then true else named name fs

pub exist_lem :
    (name : Bytes) (fs : List FileInfo)
    → AllFit fs
    → exist_same_file_name name (map file_line fs) ≡ done (named name fs)
unfolding exist_same_file_name
exist_lem name [] h = refl
exist_lem name (f ∷ fs) h =
    ap
      (λ o. o >>= λ g.
        if equal g.name name then done true else exist_same_file_name name (map file_line fs))
      (parse_lem f h.0)
    ∙ ground (arith, exist_lem name fs h.1)

pub listing-append :
    (fs : List FileInfo) (f : FileInfo)
    → listing (fs ++ f ∷ []) ≡ listing fs ++ (file_line f ++ codes "\n")
listing-append [] f = refl
listing-append (g ∷ fs) f =
    ap (λ s. file_line g ++ (codes "\n" ++ s)) (listing-append fs f)
    ∙ sym (append_assoc (file_line g) (codes "\n" ++ listing fs) (file_line f ++ codes "\n"))

-- A folder's contents are not the answer for no cell.
pub listing-ne_null : (fs : List FileInfo) → equal (listing fs) err_null ≡ false
unfolding equal
listing-ne_null [] = refl
listing-ne_null (f ∷ fs) = by_kind f.is_file
  where
    by_kind :
        (k : Bool)
        → equal
            (((if k then codes "f:" else codes "o:")
                ++ (f.id
                    ++ (codes "||"
                        ++ (f.name ++ (codes "||" ++ (f.time ++ (codes "||" ++ f.size)))))))
              ++ (codes "\n" ++ listing fs))
            err_null
          ≡ false
    by_kind true = refl
    by_kind false = refl
