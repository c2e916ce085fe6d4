-- ===== src/Web/Seats.antt =====
-- Every session belongs to a user whose storage is there: what the answers and an operation on a
-- storage keep of it.
pub mod Files
pub mod Letters
pub mod Run
use google_cloud_final.Base.{
  ◌≡◌, refl, sym, ap, ◌∙◌, Bool, true, false, List, [], ◌∷◌, Option, none, some, arith,
  if◌then◌else◌, Bool-cases, inl, inr,
}
use google_cloud_final.Text.{Bytes, codes, equal, equal_iff}
use google_cloud_final.Map.{Map, lookup, has, insert, erase}
use google_cloud_final.Map.Laws.{lookup-insert, lookup-erase}
use google_cloud_final.Outcome.{
  Outcome, done, Ensures, Ensures-bind, Ensures-then, Ensures-if, ◌>>=◌, or_throw,
}
use google_cloud_final.Connection.{Connection, do_write}
use google_cloud_final.Web.Site.{Drive, Host, Web}
use google_cloud_final.Web.Template.{Replacements, get_html, replace_get_html}
use google_cloud_final.Web.Request.{fits}
use google_cloud_final.Web.Reply.{
  ok, send, set_status, reply_text, user_of, replace_reply, reply, see,
}
use google_cloud_final.Web.Account.{
  insert_storage, is_logged_in, storage_of, on_storage, get_home, get_css, get_logout, get_signup,
  handle_signin, handle_signup, to_sign_in, welcome,
}
use google_cloud_final.Web.Folders.{guarded}
use google_cloud_final.Web.Paths.{credentials}

-- Each key of the first map is a key of the second.
abbrev pub Within {ℓ κ} : {V : Type ℓ} {D : Type κ} → Map V → Map D → Type 0
Within sessions storages = (name : Bytes) → has name sessions ≡ true → has name storages ≡ true

module _ {ℓ} {V : Type ℓ} where
  has-insert :
      (k j : Bytes) (v : V) (m : Map V)
      → has j (insert k v m) ≡ (if equal k j then true else has j m)
  unfolding has
  has-insert k j v m = ground (arith, lookup-insert k j v m)

  has-erase : (k j : Bytes) (m : Map V) → has j (erase k m) ≡ (if equal k j then false else has j m)
  unfolding has
  has-erase k j m = ground (arith, lookup-erase k j m)

module _ {ℓ κ} {V : Type ℓ} {D : Type κ} (sessions : Map V) (storages : Map D) where
  Within-insert :
      (k : Bytes) (d : D) → Within sessions storages → Within sessions (insert k d storages)
  Within-insert k d h = λ name s. ground (arith, h name s, has-insert k name d storages)

  -- A user gets a session, and a storage if there is none yet.
  Within-enter :
      (k : Bytes) (v : V) (d : D)
      → Within sessions storages
      → Within (insert k v sessions) (insert_storage k d storages)
  Within-enter k v d h = λ name s. elim (Bool-cases (has k storages)) [
    | inl old ↦
        rw old (ground (arith, h name, equal_iff k name, old, s, has-insert k name v sessions))
    | inr new ↦
        rw new
          (ground (arith, h name, s, has-insert k name v sessions, has-insert k name d storages))
  ]

  Within-erase :
      (k : Bytes) → Within sessions storages → Within (erase k sessions) (erase k storages)
  Within-erase k h =
      λ name s. ground (arith, h name, s, has-erase k name sessions, has-erase k name storages)

module _ {D W : Type 0} where
  -- Whoever has a session has a storage.
  abbrev pub IsSeated : Web D W → Type 0
  IsSeated w = Within w.sessions w.all_storages

  abbrev pub KeepsSeats : Outcome (Web D W) → Type 0
  KeepsSeats o = Ensures IsSeated o

  is_logged_in_keeps :
      (cookies : Map Bytes) (w : Web D W)
      → ((is_logged_in cookies w).1.sessions ≡ w.sessions)
        × ((is_logged_in cookies w).1.all_storages ≡ w.all_storages)
  unfolding is_logged_in
  is_logged_in_keeps cookies w = (ground arith, ground arith)

  pub is_logged_in-IsSeated :
      (cookies : Map Bytes) (w : Web D W) → IsSeated w → IsSeated (is_logged_in cookies w).1
  is_logged_in-IsSeated cookies w h =
      let (same_sessions, same_storages) = is_logged_in_keeps cookies w in
      λ name s. ap (has name) same_storages ∙ h name (ap (has name) (sym same_sessions) ∙ s)

  pub on_storage-IsSeated :
      {A : Type 0} (operation : D → W → Outcome (A × D × W)) (w : Web D W)
      → IsSeated w
      → Ensures (λ p. IsSeated p.1) (on_storage operation w)
  unfolding on_storage
  on_storage-IsSeated operation w h =
      Ensures-then (λ p. IsSeated p.1) (storage_of w) _
        (λ d.
          Ensures-then (λ p. IsSeated p.1) (operation d w.world) _
            (λ p. Within-insert w.sessions w.all_storages w.username p.1 h))

  -- A page changes nothing but the connection.
  pub replace_reply_keeps :
      (P : Web D W → Type 0) (host : Host W) (address : Bytes) (replacement : Replacements)
      (w : Web D W)
      → ((client : Connection) → P (record w { client = client }))
      → Ensures P (replace_reply host address replacement w)
  unfolding replace_reply
  replace_reply_keeps P host address replacement w h =
      Ensures-then P (replace_get_html host.html address (host.walk replacement)) _ (λ page. h _)

  pub replace_reply-IsSeated :
      (host : Host W) (address : Bytes) (replacement : Replacements) (w : Web D W)
      → IsSeated w
      → KeepsSeats (replace_reply host address replacement w)
  replace_reply-IsSeated host address replacement w h =
      replace_reply_keeps IsSeated host address replacement w (λ client. h)

  pub reply_keeps :
      (P : Web D W → Type 0) (host : Host W) (address : Bytes) (w : Web D W)
      → ((client : Connection) → P (record w { client = client }))
      → Ensures P (reply host address w)
  unfolding reply
  reply_keeps P host address w h = Ensures-then P (get_html host.html address) _ (λ page.
      Ensures-then P (fits 10000 (reply_text host w page)) (λ res. done (send res w))
        (λ res. h (do_write w.client res).1))

  pub reply-IsSeated :
      (host : Host W) (address : Bytes) (w : Web D W)
      → IsSeated w
      → KeepsSeats (reply host address w)
  reply-IsSeated host address w h = reply_keeps IsSeated host address w (λ client. h)

  pub see-IsSeated :
      (host : Host W) (address location : Bytes) (w : Web D W)
      → IsSeated w
      → KeepsSeats (see host address location w)
  unfolding see
  see-IsSeated host address location w h = replace_reply-IsSeated host address (user_of w) _ h

  -- What only users get who are signed in.
  pub guarded-IsSeated :
      (drive : Drive D W) (host : Host W) (cookies : Map Bytes) (page : Web D W → Outcome (Web D W))
      (w : Web D W)
      → IsSeated w
      → ((w1 : Web D W) → IsSeated w1 → KeepsSeats (page w1))
      → KeepsSeats (guarded drive host cookies page w)
  guarded-IsSeated drive host cookies page w h k =
      let w1 = (is_logged_in cookies w).1 in
      let seated = is_logged_in-IsSeated cookies w h in
      Ensures-if IsSeated (is_logged_in cookies w).0 (page w1) (to_sign_in drive host w1)
        (k w1 seated) (reply-IsSeated host (codes "./html/signin.html") _ seated)

module _ {D W : Type 0} (drive : Drive D W) (host : Host W) where
  pub get_home-IsSeated :
      (cookies : Map Bytes) (w : Web D W) → IsSeated w → KeepsSeats (get_home drive host cookies w)
  unfolding get_home
  get_home-IsSeated cookies w h =
      let seated = is_logged_in-IsSeated cookies (set_status ok w) h in
      Ensures-if IsSeated _ _ _
        (replace_reply-IsSeated host (codes "./html/signin_successful.html") _ _ seated)
        (reply-IsSeated host (codes "./html/signin.html") _ seated)

  pub get_signup-IsSeated :
      (cookies : Map Bytes) (w : Web D W)
      → IsSeated w
      → KeepsSeats (get_signup drive host cookies w)
  unfolding get_signup
  get_signup-IsSeated cookies w h =
      let seated = is_logged_in-IsSeated cookies w h in
      Ensures-if IsSeated _ _ _
        (replace_reply-IsSeated host (codes "./html/signin_successful.html") _ _ seated)
        (reply-IsSeated host (codes "./html/signup.html") _ seated)

  pub get_css-IsSeated : (w : Web D W) → IsSeated w → KeepsSeats (get_css drive host w)
  unfolding get_css
  get_css-IsSeated w h = reply-IsSeated host (codes "./html/css/signin.css") _ h

  -- The session and the storage go together; between them the user is not changed.
  pub get_logout-IsSeated : (w : Web D W) → IsSeated w → KeepsSeats (get_logout drive host w)
  unfolding get_logout
  get_logout-IsSeated w h =
      let Both = λ (w' : Web D W). Within w'.sessions (erase w'.username w'.all_storages) in
      Ensures-bind Both IsSeated _ _
        (reply_keeps Both host (codes "./html/signin.html") _
          (λ client. Within-erase w.sessions w.all_storages w.username h))
        (λ w' both. both)

  welcome-IsSeated : (w : Web D W) → IsSeated w → KeepsSeats (welcome drive host w)
  welcome-IsSeated w h =
      replace_reply-IsSeated host (codes "./html/signin_successful.html") (user_of w) _ h

  pub handle_signup-IsSeated :
      (message : Bytes) (w : Web D W) → IsSeated w → KeepsSeats (handle_signup drive host message w)
  unfolding handle_signup
  handle_signup-IsSeated message w h = Ensures-then IsSeated (credentials message) _ (λ c.
      Ensures-then IsSeated (drive.new_storage c.0 w.world) _ (λ s.
        Ensures-then IsSeated (drive.register c.0 c.1 s.0 s.1) _ (λ r.
          Ensures-if IsSeated r.0 _ _
            (welcome-IsSeated _
              (Within-enter w.sessions w.all_storages c.0 (host.get_time r.2) r.1 h))
            (reply-IsSeated host (codes "./html/signup_failed.html") _ h))))

  pub handle_signin-IsSeated :
      (cookies : Map Bytes) (message : Bytes) (w : Web D W)
      → IsSeated w
      → KeepsSeats (handle_signin drive host cookies message w)
  unfolding handle_signin
  handle_signin-IsSeated cookies message w h =
      let w1 = (is_logged_in cookies w).1 in
      let seated = is_logged_in-IsSeated cookies w h in
      Ensures-if IsSeated (is_logged_in cookies w).0 _ _ (welcome-IsSeated w1 seated) (
        Ensures-then IsSeated (credentials message) _ (λ c.
          Ensures-then IsSeated (drive.new_storage c.0 w1.world) _ (λ s.
            Ensures-then IsSeated (drive.sign_in c.0 c.1 s.0 s.1) _ (λ r.
              Ensures-if IsSeated r.0 _ _
                (welcome-IsSeated _
                  (Within-enter w1.sessions w1.all_storages c.0 (host.get_time r.2) r.1 seated))
                (reply-IsSeated host (codes "./html/signin_failed.html") _ seated)))))
