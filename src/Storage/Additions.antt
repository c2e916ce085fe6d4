-- ===== src/Storage/Additions.antt =====
-- A line is added to the contents of a folder.
use google_cloud_final.Base.{
  ℕ, suc, ◌≡◌, refl, sym, ap, ◌∙◌, true, false, List, [], ◌∷◌, ◌++◌, if◌then◌else◌,
}
use google_cloud_final.Text.{Bytes, codes, equal, equal_refl}
use google_cloud_final.Connection.{crlf}
use google_cloud_final.Outcome.{done, Option, some}
use google_cloud_final.Storage.{FileInfo, Backend}
use google_cloud_final.Storage.Records.{parse_content_file_names, exist_same_file_name, file_line}
use google_cloud_final.Storage.Records.Listing.{
  listing, listing-append, AllFit, names_lem, named, exist_lem,
}
use google_cloud_final.Storage.Changes.{lists_name, add_again, send_cput_command_add}
use google_cloud_final.Storage.KeyValue.{KeyValue, shown_old}

lists_name_lem :
    (fs : List FileInfo) (name : Bytes)
    → AllFit fs
    → lists_name (listing fs) name ≡ done (named name fs)
lists_name_lem fs name h =
    any (listing fs) ∙ (ap (exist_same_file_name name) (names_lem fs h) ∙ exist_lem name fs h)
  where
    any : (s : Bytes) → lists_name s name ≡ exist_same_file_name name (parse_content_file_names s)
    any [] = unfold lists_name exist_same_file_name parse_content_file_names in refl
    any (c ∷ s) = unfold lists_name in refl

module _ {S : Type 0} {b : Backend S} {view : S → Bytes → Option Bytes}
    {IsIndex Holds : Bytes → Type 0} (kv : KeyValue b view IsIndex Holds) where
  -- A line is added to the contents of a folder that has no file of the name.
  pub add_lem :
      (n : ℕ) (index : Bytes) (fs : List FileInfo) (f : FileInfo) (s : S)
      → view s index ≡ some (listing fs)
      → AllFit fs
      → named f.name fs ≡ false
      → IsIndex index
      → Holds (listing fs)
      → Holds (listing (fs ++ f ∷ []))
      → (s' : S) × (send_cput_command_add b
            (suc n)
            index
            (listing fs)
            (file_line f ++ codes "\n")
            f.name
            s
          ≡ done (codes "+OK" ++ crlf, s'))
        × ((i : Bytes)
            → view s' i ≡ (if equal index i then some (listing (fs ++ f ∷ [])) else view s i))
  unfolding send_cput_command_add add_again
  add_lem n index fs f s v fit fresh ix old_fits new_fits =
      let (s', e, w) = kv.cput index (listing fs) (listing (fs ++ f ∷ [])) s ix old_fits new_fits in
      let same : equal (shown_old (view s index)) (listing fs) ≡ true =
        rw v (equal_refl (listing fs)) in
      (
        s',
        rw (lists_name_lem fs f.name fit, fresh, sym (listing-append fs f), e, same) refl,
        λ i. w i ∙ rw same refl,
      )
