-- ===== src/Mail/HashList/Laws.antt =====
-- The list of hashes after a deletion.
use google_cloud_final.Base.{
  ℕ, suc, ◌≡◌, refl, sym, ap, ◌∙◌, Bool, true, false, List, [], ◌∷◌, ◌++◌, length, take, arith,
  append_assoc, if◌then◌else◌,
}
use google_cloud_final.Text.{Bytes}
use google_cloud_final.Text.Search.{Avoids, Avoids-append}
use google_cloud_final.Text.Lines.{lines, AllAvoid, lines-line}
use google_cloud_final.Connection.{crlf, with_crlf}
use google_cloud_final.Outcome.{done, ◌>>=◌}
use google_cloud_final.Mail.HashList.{is_member, pop_back, keep_lines, update_hash}

-- The hashes that are not deleted.
abbrev pub kept : List Bytes → List Bytes → List Bytes
kept delete_hash [] = []
kept delete_hash (h ∷ hs) =
    if is_member h delete_hash then kept delete_hash hs else h ∷ kept delete_hash hs

take-length_snoc : (h : Bytes) (c : ℕ) → take (length h) (h ++ c ∷ []) ≡ h
take-length_snoc [] c = refl
take-length_snoc (x ∷ h) c = ap (λ t. x ∷ t) (take-length_snoc h c)

pop_back-snoc : (h : Bytes) (c : ℕ) → pop_back (h ++ c ∷ []) ≡ done h
pop_back-snoc [] c = refl
pop_back-snoc (x ∷ h) c =
    ap done (ap (λ n. take n (x ∷ h ++ c ∷ [])) (longer h) ∙ take-length_snoc (x ∷ h) c)
  where
    longer : (h : Bytes) → length (h ++ c ∷ []) ≡ length (x ∷ h)
    longer [] = refl
    longer (y ∷ h) = ap (λ n. suc n) (longer h)

lines-with_crlf :
    (h rest : Bytes) → Avoids 10 h → lines (h ++ (crlf ++ rest)) ≡ (h ++ 13 ∷ []) ∷ lines rest
lines-with_crlf h rest a =
    ap lines (sym (append_assoc h (13 ∷ []) (10 ∷ rest)))
    ∙ lines-line (h ++ 13 ∷ []) rest (Avoids-append 10 h (13 ∷ []) a (omega arith, tt))

-- For hashes without a newline, the list after a deletion is the text of the hashes that are not
-- to be deleted, in their order.
pub update_hash_lem :
    (hashes delete_hash : List Bytes)
    → AllAvoid 10 hashes
    → update_hash (with_crlf hashes) delete_hash ≡ done (with_crlf (kept delete_hash hashes))
unfolding update_hash keep_lines
update_hash_lem [] delete_hash h = unfold lines keep_lines in refl
update_hash_lem (hash ∷ hashes) delete_hash h =
    ap (keep_lines delete_hash) (lines-with_crlf hash (with_crlf hashes) h.0)
    ∙ ap
        (λ o. o >>= λ k. keep_lines delete_hash (lines (with_crlf hashes)) >>= λ new_hash.
          done (if is_member k delete_hash then new_hash else k ++ (crlf ++ new_hash)))
        (pop_back-snoc hash 13)
    ∙ ap
        (λ o. o >>= λ new_hash.
          done (if is_member hash delete_hash then new_hash else hash ++ (crlf ++ new_hash)))
        (update_hash_lem hashes delete_hash h.1)
    ∙ by_member (is_member hash delete_hash)
  where
    by_member :
        (m : Bool)
        → done (
            if m
            then with_crlf (kept delete_hash hashes)
            else hash ++ (crlf ++ with_crlf (kept delete_hash hashes)))
          ≡ done (with_crlf (if m then kept delete_hash hashes else hash ∷ kept delete_hash hashes))
    by_member true = refl
    by_member false = refl
