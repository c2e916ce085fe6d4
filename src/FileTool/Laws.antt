-- ===== src/FileTool/Laws.antt =====
-- What the files hold after an operation.
use google_cloud_final.Base.{
  ◌≡◌, refl, ap, ◌∙◌, ◌&&◌, ◌++◌, append_assoc, some, arith, if◌then◌else◌, Bool-cases, inl, inr,
}
use google_cloud_final.Text.{Bytes, equal, equal_refl}
use google_cloud_final.Map.{lookup, erase}
use google_cloud_final.Map.Laws.{lookup-insert}
use google_cloud_final.FileTool.{Disk, write_file, append_to_file, rename, contents_or_empty}

pub lookup-write_file :
    (d : Disk) (name contents n : Bytes)
    → lookup n (write_file d name contents).1.files
      ≡ (if d.writable name && equal name n then some contents else lookup n d.files)
unfolding write_file
lookup-write_file d name contents n = ground (arith, lookup-insert name n contents d.files)

pub lookup-append_to_file :
    (d : Disk) (name contents n : Bytes)
    → lookup n (append_to_file d name contents).1.files ≡ (
        if d.writable name && equal name n
        then some (contents_or_empty (lookup name d.files) ++ contents)
        else lookup n d.files)
unfolding append_to_file
lookup-append_to_file d name contents n =
    ground
      (arith, lookup-insert name n (contents_or_empty (lookup name d.files) ++ contents) d.files)

-- A disk after `text` has been put behind what the file at `path` holds: no other file changes,
-- and none at all if that one cannot be written.
pub record Appended (path text : Bytes) (d d' : Disk) : Type 0 where
  pub files :
      (n : Bytes)
      → lookup n d'.files ≡ (
          if d.writable path && equal path n
          then some (contents_or_empty (lookup path d.files) ++ text)
          else lookup n d.files)
  pub writable : d'.writable ≡ d.writable

pub append_to_file-Appended :
    (d : Disk) (path text : Bytes) → Appended path text d (append_to_file d path text).1
unfolding append_to_file
append_to_file-Appended d path text = record {
  files = λ n. lookup-append_to_file d path text n;
  writable = elim (Bool-cases (d.writable path)) [ inl e ↦ rw e refl | inr e ↦ rw e refl ];
}

-- Two texts one after the other are one text.
pub Appended-trans :
    (path text more : Bytes) (d d1 d2 : Disk)
    → Appended path text d d1
    → Appended path more d1 d2
    → Appended path (text ++ more) d d2
Appended-trans path text more d d1 d2 h k = record {
  files = λ n. elim (Bool-cases (d.writable path)) [
    | inl on ↦
        k.files n
        ∙ rw (ap (λ w. w path) h.writable ∙ on, h.files path, h.files n, on, equal_refl path)
            (elim (Bool-cases (equal path n)) [
              | inl e ↦
                  rw e (ap some (append_assoc (contents_or_empty (lookup path d.files)) text more))
              | inr e ↦ rw e refl
            ])
    | inr off ↦ k.files n ∙ rw (ap (λ w. w path) h.writable ∙ off, h.files n, off) refl
  ];
  writable = k.writable ∙ h.writable;
}

-- The file stands under its new name.
pub lookup-rename :
    (d : Disk) (from to text : Bytes)
    → lookup from d.files ≡ some text
    → lookup to (rename d from to).files ≡ some text
unfolding rename
lookup-rename d from to text h =
    ground (arith, h, lookup-insert to to text (erase from d.files), equal_refl to)
