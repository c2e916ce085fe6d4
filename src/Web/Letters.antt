-- ===== src/Web/Letters.antt =====
-- frontendServer/response.cc: the pages and the requests that are about mail.
use google_cloud_final.Base.{
  ℕ, ◌==◌, Bool, true, false, List, [], ◌∷◌, ◌++◌, get_elem?, if◌then◌else◌,
}
use google_cloud_final.Text.{Bytes, codes, add64, find, substr_from}
use google_cloud_final.Number.{ℤ, pos, negsuc}
use google_cloud_final.Map.{Map, lookup, insert}
use google_cloud_final.Connection.{crlf}
use google_cloud_final.Outcome.{Outcome, done, abort, ◌>>=◌, or_throw}
use google_cloud_final.Mail.{Email}
use google_cloud_final.Mail.HashList.{pop_back}
use google_cloud_final.Web.Site.{Drive, Host, Web}
use google_cloud_final.Web.Escape.{parse_email}
use google_cloud_final.Web.Template.{for_display}
use google_cloud_final.Web.Reply.{ok, as_html, with_cookie, set_status, replace_reply, reply, see}
use google_cloud_final.Web.Paths.{parse_mailid, parse_header}
use google_cloud_final.Web.Listing.{read_all_emails, parse_command}
use google_cloud_final.Web.Account.{is_logged_in}
use google_cloud_final.Web.Folders.{guarded}

-- The address of the master, and that of the mail server.
abbrev pub master : Bytes
master = codes "127.0.0.1:10000"

abbrev pub smtp : Bytes
smtp = codes "127.0.0.1:7000"

-- `emails[username].at(id)`, with its index
unfoldable pub mail_at : Map (List Email) → Bytes → ℤ → Outcome (ℕ × Email)
mail_at emails name (negsuc n) = abort
mail_at emails name (pos n) = do
  mails ← or_throw (lookup name emails)
  mail ← or_throw (get_elem? mails n)
  done (n, mail)

-- The fields of html/new_email.html.
abbrev pub new_mail : Bytes → Bytes → Bytes → Bytes → List (Bytes × Bytes)
new_mail user address subject content =
    (codes "$user", user)
    ∷ (codes "$email", address)
    ∷ (codes "$subject", subject)
    ∷ (codes "$content", content)
    ∷ []

-- A mail as it is quoted.
abbrev pub quoted : Bytes → Bytes → Bytes → Bytes → Bytes
quoted sender recipient time content =
    codes "From: "
    ++ (sender
        ++ (crlf
            ++ (codes "To: "
                ++ (recipient ++ (crlf ++ (codes "Date: " ++ (time ++ (crlf ++ content))))))))

module _ {D W : Type 0} (drive : Drive D W) (host : Host W) where
  abbrev pub new_email_page : List (Bytes × Bytes) → Web D W → Outcome (Web D W)
  new_email_page replacement w =
      replace_reply host (codes "./html/new_email.html") replacement
        (set_status ok (with_cookie (as_html w)))

  abbrev pub blank_email : Web D W → Outcome (Web D W)
  blank_email w = new_email_page (new_mail w.username [] [] []) w

  unfoldable pub get_new_email : Map Bytes → Web D W → Outcome (Web D W)
  unfolding is_logged_in
  get_new_email cookies w = guarded drive host cookies blank_email w

  -- The inbox and the outbox are read again.
  unfoldable pub show_email : Web D W → Outcome (Web D W)
  unfolding read_all_emails
  show_email w = do
    (in_emails, world1) ← host.recvfrom_backend master w.username true w.world
    (out_emails, world2) ← host.recvfrom_backend master w.username false world1
    let w1 = record w {
      inbox = insert w.username in_emails w.inbox;
      outbox = insert w.username out_emails w.outbox;
      world = world2;
    }
    inbox_emails ← read_all_emails in_emails 0
    sent_emails ← read_all_emails out_emails 1
    replace_reply host (codes "./html/email.html")
        ((codes "$user", w1.username)
          ∷ (codes "$inbox", inbox_emails)
          ∷ (codes "$sent", sent_emails)
          ∷ (codes "$trash", [])
          ∷ [])
        (with_cookie (as_html w1))

  unfoldable pub get_email : Map Bytes → Web D W → Outcome (Web D W)
  unfolding is_logged_in show_email
  get_email cookies w =
      let (logged, w1) = is_logged_in cookies w in
      if logged then show_email w1 else reply host (codes "./html/signin.html") (as_html w1)

  -- A mail of the inbox (`kind` 0) or of the outbox (`kind` 1).
  unfoldable pub show_mail : ℕ → Bytes → Map (List Email) → Bytes → Web D W → Outcome (Web D W)
  unfolding parse_mailid mail_at parse_header parse_command for_display
  show_mail kind action emails path w = do
    id ← parse_mailid path
    (n, mail) ← mail_at emails w.username id
    (sender, recipient, title, time) ← parse_header mail.header
    content ← for_display mail.content
    let whom = if kind == 0 then sender else recipient
    replace_reply host (codes "./html/showemail.html")
        ((codes "$user", w.username)
          ∷ (codes "$Action", action)
          ∷ (codes "$sender", whom)
          ∷ (codes "$time", time)
          ∷ (codes "$Subject", title)
          ∷ (codes "$content", content)
          ∷ (codes "$command-list", parse_command kind mail.hash n)
          ∷ [])
        (with_cookie (as_html w))

  unfoldable pub get_show_inbox : Bytes → Web D W → Outcome (Web D W)
  unfolding show_mail
  get_show_inbox path w = show_mail 0 (codes "From") w.inbox path w

  unfoldable pub get_show_sent : Bytes → Web D W → Outcome (Web D W)
  unfolding show_mail
  get_show_sent path w = show_mail 1 (codes "To") w.outbox path w

  unfoldable pub get_reply : Bytes → Web D W → Outcome (Web D W)
  unfolding parse_mailid mail_at parse_header
  get_reply path w = do
    id ← parse_mailid path
    (n, mail) ← mail_at w.inbox w.username id
    (sender, recipient, title, time) ← parse_header mail.header
    new_email_page
        (new_mail w.username sender (codes "Re: " ++ title)
          (quoted sender recipient time mail.content))
        w

  unfoldable pub get_forward : Bytes → Web D W → Outcome (Web D W)
  unfolding parse_mailid mail_at parse_header
  get_forward path w = do
    id ← parse_mailid path
    (n, mail) ← mail_at w.inbox w.username id
    (sender, recipient, title, time) ← parse_header mail.header
    new_email_page
        (new_mail w.username [] (codes "Fwd: " ++ title)
          (quoted sender recipient time mail.content))
        w

  abbrev pub see_email : Web D W → Outcome (Web D W)
  see_email w = see host (codes "./html/email.html") (codes "/email") w

  -- The mail with the hash behind the `=`, less its last byte, is deleted.
  unfoldable pub get_remove : Bool → Bytes → Web D W → Outcome (Web D W)
  unfolding find see
  get_remove is_inbox path w = do
    rest ← or_throw (substr_from path (add64 (find path (codes "=")) 1))
    hash ← pop_back rest
    world ← host.update_backend master w.username (hash ∷ []) is_inbox w.world
    see_email (record w { world = world })

  unfoldable pub handle_send_email : Bytes → Web D W → Outcome (Web D W)
  unfolding parse_email see
  handle_send_email message w = do
    (recipient, subject, content) ← parse_email message
    let sender = w.username ++ codes "@localhost"
    let text = codes "Subject: " ++ (subject ++ (crlf ++ (content ++ crlf)))
    world ← host.sendto_smpt_server smtp sender (recipient ∷ []) text w.world
    see_email (record w { world = world })
