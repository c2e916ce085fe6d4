-- ===== src/Web/Account.antt =====
-- frontendServer/response.cc: who is signed in, signing in, up and out.
use google_cloud_final.Base.{Bool, true, false, none, some, if◌then◌else◌}
use google_cloud_final.Text.{Bytes, codes}
use google_cloud_final.Map.{Map, lookup, has, insert, erase}
use google_cloud_final.Outcome.{Outcome, done, ◌>>=◌, or_throw}
use google_cloud_final.Web.Site.{Drive, Host, Web}
use google_cloud_final.Web.Reply.{
  ok, redirect, as_html, with_cookie, set_header, set_status, replace_reply, reply, user_of,
}
use google_cloud_final.Web.Paths.{credentials}

-- `insert(make_pair(name, storage))` leaves an entry that is there.
abbrev pub insert_storage {ℓ} : {D : Type ℓ} → Bytes → D → Map D → Map D
insert_storage name d m = if has name m then m else insert name d m

module _ {D W : Type 0} where
  -- The cookie names a user with a session, who then is the user of all that follows.
  unfoldable pub is_logged_in : Map Bytes → Web D W → Bool × Web D W
  unfolding has
  is_logged_in cookies w = elim (lookup (codes "username") cookies) [
    | none ↦ (false, w)
    | some name ↦ if has name w.sessions then (true, record w { username = name }) else (false, w)
  ]

  -- `all_storages[username]`, whose null pointer would be followed.
  unfoldable pub storage_of : Web D W → Outcome D
  storage_of w = or_throw (lookup w.username w.all_storages)

  -- An operation on the storage of the user.
  unfoldable pub on_storage :
      {A : Type 0} → (D → W → Outcome (A × D × W)) → Web D W → Outcome (A × Web D W)
  unfolding storage_of
  on_storage operation w = do
    d ← storage_of w
    (a, d', world) ← operation d w.world
    done (a, record w { all_storages = insert w.username d' w.all_storages; world = world })

  module _ (drive : Drive D W) (host : Host W) where
    -- The page of a user who is signed in.
    abbrev pub welcome : Web D W → Outcome (Web D W)
    welcome w =
        replace_reply host (codes "./html/signin_successful.html") (user_of w)
          (with_cookie (as_html w))

    -- The sign-in page, for a page that wants a user.
    abbrev pub to_sign_in : Web D W → Outcome (Web D W)
    to_sign_in w =
        reply host (codes "./html/signin.html")
          (set_header (codes "Location") (codes "/") (as_html (set_status redirect w)))

    unfoldable pub get_home : Map Bytes → Web D W → Outcome (Web D W)
    unfolding is_logged_in
    get_home cookies w =
        let (logged, w1) = is_logged_in cookies (set_status ok w) in
        if logged then welcome w1 else reply host (codes "./html/signin.html") (as_html w1)

    unfoldable pub get_css : Web D W → Outcome (Web D W)
    get_css w =
        reply host (codes "./html/css/signin.css")
          (set_status ok (set_header (codes "Content-type") (codes "text/css") w))

    -- The storage of whoever signed in last is deleted with the session.
    unfoldable pub get_logout : Web D W → Outcome (Web D W)
    get_logout w = do
      w' ← to_sign_in (record w { sessions = erase w.username w.sessions })
      done (record w' { all_storages = erase w'.username w'.all_storages })

    unfoldable pub get_signup : Map Bytes → Web D W → Outcome (Web D W)
    unfolding is_logged_in
    get_signup cookies w =
        let (logged, w1) = is_logged_in cookies w in
        let home = set_header (codes "Location") (codes "/") (set_status redirect w1) in
        if logged then welcome home else reply host (codes "./html/signup.html") (as_html w1)

    -- A user with the storage `d` gets a session.
    abbrev pub enter : Bytes → D → Web D W → Web D W
    enter name d w = record w {
      sessions = insert name (host.get_time w.world) w.sessions;
      all_storages = insert_storage name d w.all_storages;
    }

    unfoldable pub handle_signin : Map Bytes → Bytes → Web D W → Outcome (Web D W)
    unfolding is_logged_in credentials
    handle_signin cookies message w =
        let (logged, w1) = is_logged_in cookies w in
        let check = (do
          (name, password) ← credentials message
          (s, world1) ← drive.new_storage name w1.world
          (check_sign, s', world2) ← drive.sign_in name password s world1
          let w2 = record w1 { username = name; world = world2 }
          if check_sign
              then welcome (enter name s' w2)
              else reply host (codes "./html/signin_failed.html") (as_html w2)) in
        if logged then welcome w1 else check

    unfoldable pub handle_signup : Bytes → Web D W → Outcome (Web D W)
    unfolding credentials
    handle_signup message w = do
      (name, password) ← credentials message
      (s, world1) ← drive.new_storage name w.world
      (can_signup, s', world2) ← drive.register name password s world1
      let w2 = record w { username = name; world = world2 }
      if can_signup
          then welcome (enter name s' w2)
          else reply host (codes "./html/signup_failed.html") (as_html w2)
