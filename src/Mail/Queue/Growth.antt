-- ===== src/Mail/Queue/Growth.antt =====
-- A file of mails that are not sent is written back with each line longer by a byte.
use google_cloud_final.Base.{
  suc, ◌≡◌, refl, sym, ap, ◌∙◌, Bool, true, false, List, [], ◌∷◌, ◌++◌, length, length-append,
  arith, append_assoc, append-nil, if◌then◌else◌, on_true,
}
use google_cloud_final.Text.{Bytes}
use google_cloud_final.Text.Lines.{lines, unlines, AllAvoid, lines-unlines-append}
use google_cloud_final.Connection.{crlf, with_crlf}
use google_cloud_final.Mail.Queue.{
  Message, new_message, Reading, is_header, read_lines, finished, read_mqueue, update_mqueue,
}

abbrev none_before : Reading
none_before = record { messages = []; headers = []; text = [] }

-- What is written for what was read.
abbrev written : Reading → Bytes
written r = update_mqueue (finished r) r.headers

unless_deleted-append :
    (deleted : Bool) (header text a b x : Bytes)
    → a ≡ b ++ x
    → (if deleted then a else header ++ (text ++ a))
      ≡ (if deleted then b else header ++ (text ++ b)) ++ x
unless_deleted-append true header text a b x e = e
unless_deleted-append false header text a b x e =
    ap (λ s. header ++ (text ++ s)) e ∙ simp (append_assoc)

update_mqueue-text :
    (ms : List Message) (hs : List Bytes) (t x : Bytes)
    → length hs ≡ suc (length ms)
    → update_mqueue (ms ++ new_message (t ++ x) ∷ []) hs
      ≡ update_mqueue (ms ++ new_message t ∷ []) hs ++ x
unfolding update_mqueue
update_mqueue-text ms [] t x h = absurd (omega (arith, h))
update_mqueue-text [] (y ∷ []) t x h = simp (append_assoc, append-nil)
update_mqueue-text [] (y ∷ z ∷ hs) t x h = absurd (omega (arith, h))
update_mqueue-text (m ∷ ms) (y ∷ hs) t x h =
    unless_deleted-append m.deleted y m.text _ _ x (update_mqueue-text ms hs t x (omega (arith, h)))

update_mqueue-header :
    (ms : List Message) (hs : List Bytes) (x : Bytes)
    → length hs ≡ length ms
    → update_mqueue (ms ++ new_message [] ∷ []) (hs ++ x ∷ []) ≡ update_mqueue ms hs ++ x
unfolding update_mqueue
update_mqueue-header [] [] x h = simp (append-nil)
update_mqueue-header [] (y ∷ hs) x h = absurd (omega (arith, h))
update_mqueue-header (m ∷ ms) [] x h = absurd (omega (arith, h))
update_mqueue-header (m ∷ ms) (y ∷ hs) x h =
    unless_deleted-append m.deleted y m.text _ _ x (update_mqueue-header ms hs x (omega (arith, h)))

-- Behind the first header, each line adds itself.
written-read_lines :
    (ls : List Bytes) (first : Message) (ms : List Message) (hs : List Bytes) (t : Bytes)
    → length hs ≡ suc (length ms)
    → written (read_lines ls (record { messages = first ∷ ms; headers = hs; text = t }))
      ≡ update_mqueue (ms ++ new_message t ∷ []) hs ++ with_crlf ls
unfolding read_lines
written-read_lines [] first ms hs t h = sym (append-nil _)
written-read_lines (l ∷ ls) first ms hs t h =
    by_kind (is_header l) _ _
      (written-read_lines ls first (ms ++ new_message t ∷ []) (hs ++ (l ++ crlf) ∷ []) [] (
          omega
            (arith, h, length-append hs ((l ++ crlf) ∷ []), length-append ms (new_message t ∷ [])))
        ∙ ap (λ s. s ++ with_crlf ls)
            (update_mqueue-header (ms ++ new_message t ∷ []) hs (l ++ crlf)
              (omega (arith, h, length-append ms (new_message t ∷ [])))))
      (written-read_lines ls first ms hs (t ++ (l ++ crlf)) h
        ∙ ap (λ s. s ++ with_crlf ls) (update_mqueue-text ms hs t (l ++ crlf) h))
  where
    before : Bytes
    before = update_mqueue (ms ++ new_message t ∷ []) hs

    by_kind :
        (k : Bool) (r q : Reading)
        → written r ≡ (before ++ (l ++ crlf)) ++ with_crlf ls
        → written q ≡ (before ++ (l ++ crlf)) ++ with_crlf ls
        → written (if k then r else q) ≡ before ++ (l ++ (crlf ++ with_crlf ls))
    by_kind true r q e d = e ∙ simp (append_assoc)
    by_kind false r q e d = d ∙ simp (append_assoc)

-- A file of mails that starts with a header, read and written back with no mail sent, is the same
-- lines, each with a carriage return and a newline behind it in place of the newline.
pub unsent_lem :
    (header : Bytes) (ls : List Bytes)
    → is_header header ≡ true
    → AllAvoid 10 (header ∷ ls)
    → let (messages, headers) = read_mqueue (unlines (header ∷ ls)) in
      update_mqueue messages headers ≡ with_crlf (header ∷ ls)
unfolding read_mqueue
unsent_lem header ls k a =
    ap (λ t. written (read_lines t none_before))
      (ap lines (sym (append-nil (unlines (header ∷ ls))))
        ∙ lines-unlines-append (header ∷ ls) [] a)
    ∙ ap written (on_true _ k)
    ∙ ap
        (λ t. written (
          read_lines t (record {
            messages = new_message [] ∷ [];
            headers = (header ++ crlf) ∷ [];
            text = [];
          })))
        (append-nil ls)
    ∙ written-read_lines ls (new_message []) [] ((header ++ crlf) ∷ []) [] refl
    ∙ unfold update_mqueue in simp (append_assoc, append-nil)
