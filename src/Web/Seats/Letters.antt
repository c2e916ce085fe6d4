-- ===== src/Web/Seats/Letters.antt =====
-- The requests about mail keep the storages of the users.
use google_cloud_final.Base.{ℕ, Bool, List, [], ◌∷◌, true}
use google_cloud_final.Text.{Bytes, codes, add64, find, substr_from}
use google_cloud_final.Map.{Map}
use google_cloud_final.Mail.{Email}
use google_cloud_final.Mail.HashList.{pop_back}
use google_cloud_final.Outcome.{Outcome, Ensures-then, Ensures-if, ◌>>=◌, or_throw}
use google_cloud_final.Web.Site.{Drive, Host, Web}
use google_cloud_final.Web.Escape.{parse_email}
use google_cloud_final.Web.Template.{for_display}
use google_cloud_final.Web.Paths.{parse_mailid, parse_header}
use google_cloud_final.Web.Listing.{read_all_emails}
use google_cloud_final.Web.Account.{is_logged_in}
use google_cloud_final.Web.Letters.{
  master, smtp, mail_at, blank_email, see_email, show_email, show_mail, get_new_email, get_email,
  get_reply, get_forward, get_remove, handle_send_email,
}
use google_cloud_final.Web.Seats.{
  IsSeated, KeepsSeats, is_logged_in-IsSeated, replace_reply-IsSeated, reply-IsSeated, see-IsSeated,
  guarded-IsSeated,
}

module _ {D W : Type 0} (drive : Drive D W) (host : Host W) where
  show_email-IsSeated : (w : Web D W) → IsSeated w → KeepsSeats (show_email drive host w)
  unfolding show_email
  show_email-IsSeated w h =
      Ensures-then IsSeated (host.recvfrom_backend master w.username true w.world) _ (λ i.
        Ensures-then IsSeated (host.recvfrom_backend master w.username _ i.1) _ (λ o.
          Ensures-then IsSeated (read_all_emails i.0 0) _ (λ inbox.
            Ensures-then IsSeated (read_all_emails o.0 1) _
              (λ sent. replace_reply-IsSeated host (codes "./html/email.html") _ _ h))))

  pub get_email-IsSeated :
      (cookies : Map Bytes) (w : Web D W) → IsSeated w → KeepsSeats (get_email drive host cookies w)
  unfolding get_email
  get_email-IsSeated cookies w h =
      let seated = is_logged_in-IsSeated cookies w h in
      Ensures-if IsSeated (is_logged_in cookies w).0 _ _ (show_email-IsSeated _ seated)
        (reply-IsSeated host (codes "./html/signin.html") _ seated)

  pub get_new_email-IsSeated :
      (cookies : Map Bytes) (w : Web D W)
      → IsSeated w
      → KeepsSeats (get_new_email drive host cookies w)
  unfolding get_new_email
  get_new_email-IsSeated cookies w h =
      guarded-IsSeated drive host cookies (blank_email drive host) w h
        (λ w1 h1. replace_reply-IsSeated host (codes "./html/new_email.html") _ _ h1)

  -- A page about the mail with the index of the path.
  mail_page :
      (emails : Map (List Email)) (path : Bytes) (w : Web D W)
      (page : ℕ × Email → Outcome (Web D W))
      → ((p : ℕ × Email) → KeepsSeats (page p))
      → KeepsSeats (parse_mailid path >>= λ id. (mail_at emails w.username id >>= page))
  mail_page emails path w page k =
      Ensures-then IsSeated (parse_mailid path) _
        (λ id. Ensures-then IsSeated (mail_at emails w.username id) page k)

  pub show_mail-IsSeated :
      (kind : ℕ) (action : Bytes) (emails : Map (List Email)) (path : Bytes) (w : Web D W)
      → IsSeated w
      → KeepsSeats (show_mail drive host kind action emails path w)
  unfolding show_mail
  show_mail-IsSeated kind action emails path w h = mail_page emails path w _ (λ p.
      Ensures-then IsSeated (parse_header p.1.header) _ (λ parts.
        Ensures-then IsSeated (for_display p.1.content) _
          (λ content. replace_reply-IsSeated host (codes "./html/showemail.html") _ _ h)))

  pub get_reply-IsSeated :
      (path : Bytes) (w : Web D W) → IsSeated w → KeepsSeats (get_reply drive host path w)
  unfolding get_reply
  get_reply-IsSeated path w h = mail_page w.inbox path w _ (λ p.
      Ensures-then IsSeated (parse_header p.1.header) _
        (λ parts. replace_reply-IsSeated host (codes "./html/new_email.html") _ _ h))

  pub get_forward-IsSeated :
      (path : Bytes) (w : Web D W) → IsSeated w → KeepsSeats (get_forward drive host path w)
  unfolding get_forward
  get_forward-IsSeated path w h = mail_page w.inbox path w _ (λ p.
      Ensures-then IsSeated (parse_header p.1.header) _
        (λ parts. replace_reply-IsSeated host (codes "./html/new_email.html") _ _ h))

  see_email-IsSeated : (w : Web D W) → IsSeated w → KeepsSeats (see_email drive host w)
  see_email-IsSeated w h = see-IsSeated host (codes "./html/email.html") (codes "/email") w h

  pub get_remove-IsSeated :
      (is_inbox : Bool) (path : Bytes) (w : Web D W)
      → IsSeated w
      → KeepsSeats (get_remove drive host is_inbox path w)
  unfolding get_remove
  get_remove-IsSeated is_inbox path w h =
      Ensures-then IsSeated (or_throw (substr_from path (add64 (find path (codes "=")) 1))) _
        (λ rest. Ensures-then IsSeated (pop_back rest) _ (λ hash.
          Ensures-then IsSeated (host.update_backend master w.username (hash ∷ []) is_inbox w.world)
            _ (λ world. see_email-IsSeated (record w { world = world }) h)))

  pub handle_send_email-IsSeated :
      (message : Bytes) (w : Web D W)
      → IsSeated w
      → KeepsSeats (handle_send_email drive host message w)
  unfolding handle_send_email
  handle_send_email-IsSeated message w h = Ensures-then IsSeated (parse_email message) _ (λ m.
      Ensures-then IsSeated (host.sendto_smpt_server smtp _ (m.0 ∷ []) _ w.world) _
        (λ world. see_email-IsSeated (record w { world = world }) h))
