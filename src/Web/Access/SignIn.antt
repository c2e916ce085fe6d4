-- ===== src/Web/Access/SignIn.antt =====
-- Signing in with the form of html/signin.html.
use google_cloud_final.Base.{
  ℕ, ◌≡◌, ◌<◌, refl, Bool, true, false, [], ◌∷◌, ◌++◌, some, arith, length, length-append,
  if◌then◌else◌,
}
use google_cloud_final.Text.{Bytes, codes}
use google_cloud_final.Text.Search.{Avoids, Avoids-append}
use google_cloud_final.Map.{Map, insert}
use google_cloud_final.CText.{one_of, strtok}
use google_cloud_final.CText.Tokens.{Free, Free-append, strtok_first, strtok_last}
use google_cloud_final.Connection.{c_str}
use google_cloud_final.Connection.Reads.{c_str-Avoids}
use google_cloud_final.Outcome.{done, Ensures}
use google_cloud_final.Web.Site.{Drive, Host, Web}
use google_cloud_final.Web.Request.{fits}
use google_cloud_final.Web.Escape.{equals, ampersand}
use google_cloud_final.Web.Paths.{credentials}
use google_cloud_final.Web.Reply.{reply, as_html, with_cookie}
use google_cloud_final.Web.Account.{is_logged_in, insert_storage, enter, welcome, handle_signin}
use google_cloud_final.Web.Seats.{reply_keeps, replace_reply_keeps}
use google_cloud_final.Web.Access.{signed_out, fits_lem}

-- The bytes that end a word.
abbrev pub separators : Bytes
separators = codes " &="

-- A name or a value of a form: it is not empty, and none of its bytes is zero, a space, `&` or `=`.
pub record IsWord (s : Bytes) : Type 0 where
  pub some_byte : 0 < length s
  pub no_zero : Avoids 0 s
  pub free : Free separators s

-- One part of the form.
abbrev part_of : Bytes → Bytes → Bytes
part_of key value = key ++ equals ∷ value

-- The form of a sign-in.
abbrev pub sign_in_form : Bytes → Bytes → Bytes → Bytes → Bytes
sign_in_form key name key2 password = part_of key name ++ ampersand ∷ part_of key2 password

-- A word has none of fewer delimiters.
Free-subset :
    (ds s : Bytes)
    → ((c : ℕ) → one_of separators c ≡ false → one_of ds c ≡ false)
    → Free separators s
    → Free ds s
Free-subset ds [] k h = tt
Free-subset ds (c ∷ s) k h = (k c h.0, Free-subset ds s k h.1)

no_equals : (s : Bytes) → IsWord s → Free (equals ∷ []) s
no_equals s w = Free-subset (equals ∷ []) s (λ c h. ground arith) w.free

-- A part of the form is a token for `strtok(form, " &")` and `strtok(form, "&")`.
part-Free :
    (ds key value : Bytes)
    → ((c : ℕ) → one_of separators c ≡ false → one_of ds c ≡ false)
    → one_of ds equals ≡ false
    → IsWord key
    → IsWord value
    → Free ds (part_of key value)
part-Free ds key value k e wk wv =
    Free-append ds key (equals ∷ value) (Free-subset ds key k wk.free)
      (e, Free-subset ds value k wv.free)

part-Avoids : (key value : Bytes) → IsWord key → IsWord value → Avoids 0 (part_of key value)
part-Avoids key value wk wv =
    Avoids-append 0 key (equals ∷ value) wk.no_zero (omega arith, wv.no_zero)

-- The name and the value of a part.
part_tokens :
    (key value : Bytes)
    → IsWord key
    → IsWord value
    → (strtok (part_of key value) (codes "=") ≡ some (key, value))
      × (strtok value (codes "=") ≡ some (value, []))
part_tokens key value wk wv = (
  strtok_first (codes "=") key value equals wk.some_byte (no_equals key wk) refl,
  strtok_last (codes "=") value wv.some_byte (no_equals value wv),
)

part-length : (key value : Bytes) → 0 < length (part_of key value)
part-length key value = omega (arith, length-append key (equals ∷ value))

credentials_lem :
    (key name key2 password : Bytes)
    → IsWord key
    → IsWord name
    → IsWord key2
    → IsWord password
    → length (sign_in_form key name key2 password) < 256
    → credentials (sign_in_form key name key2 password) ≡ done (name, password)
unfolding credentials
credentials_lem key name key2 password wk wn wk2 wp fit =
    let form = sign_in_form key name key2 password in
    let second = part_of key2 password in
    let plain : c_str form ≡ form = c_str-Avoids form (
      Avoids-append 0 (part_of key name) (ampersand ∷ second) (part-Avoids key name wk wn)
        (omega arith, part-Avoids key2 password wk2 wp)) in
    let short : fits 256 form ≡ done form = fits_lem 256 form fit in
    let first_part =
      strtok_first (codes "&") (part_of key name) second ampersand (part-length key name)
        (part-Free (codes "&") key name (λ c h. ground arith) refl wk wn) refl in
    let second_part =
      strtok_last (codes " &") second (part-length key2 password)
        (part-Free (codes " &") key2 password (λ c h. ground arith) refl wk2 wp) in
    let (a, b) = part_tokens key name wk wn in
    let (c, d) = part_tokens key2 password wk2 wp in
    rw (plain, short, first_part, a, b, second_part, c, d) refl

-- What a sign-in leaves: the user that was named, and, if the password was right, a session and a
-- storage for that user.
abbrev pub SignedIn : {D W : Type 0} → Host W → Bool → Bytes → D → W → Web D W → Web D W → Type 0
SignedIn host right name d world w w' =
    (w'.username ≡ name)
    × (w'.sessions ≡ (if right then insert name (host.get_time world) w.sessions else w.sessions))
    × (w'.all_storages ≡ (if right then insert_storage name d w.all_storages else w.all_storages))
    × (w'.world ≡ world)

module _ {D W : Type 0} (drive : Drive D W) (host : Host W) where
  -- A browser without a session sends the form of the sign-in page, shorter than 256 bytes, in
  -- which the names and values are words, and the storage answers whether the password is right.
  -- Wherever the handler returns, the user of the server is the one that was named, whether the
  -- password was right or not.  If it was right, the user has a session, and the new storage
  -- unless there was one; if it was wrong, sessions and storages are as before.
  pub handle_signin_lem :
      (cookies : Map Bytes) (w : Web D W) (key name key2 password : Bytes) (s s' : D)
      (world1 world2 : W) (right : Bool)
      → IsWord key
      → IsWord name
      → IsWord key2
      → IsWord password
      → length (sign_in_form key name key2 password) < 256
      → (is_logged_in cookies w).0 ≡ false
      → drive.new_storage name w.world ≡ done (s, world1)
      → drive.sign_in name password s world1 ≡ done (right, s', world2)
      → Ensures
          (SignedIn host right name s' world2 w)
          (handle_signin drive host cookies (sign_in_form key name key2 password) w)
  unfolding handle_signin
  handle_signin_lem cookies w key name key2 password s s' world1 world2 right wk wn wk2 wp fit out
        made answered =
      rw
        (
          signed_out cookies w out,
          credentials_lem key name key2 password wk wn wk2 wp fit,
          made,
          answered,
        )
        (by_password right)
    where
      -- The page is shown to the user that was named.
      named : Web D W
      named = record w { username = name; world = world2 }

      by_password :
          (right : Bool)
          → Ensures (SignedIn host right name s' world2 w) (
              if right
              then welcome drive host (enter drive host name s' named)
              else reply host (codes "./html/signin_failed.html") (as_html named))
      by_password true =
          replace_reply_keeps (SignedIn host true name s' world2 w) host
            (codes "./html/signin_successful.html") _
            (with_cookie (as_html (enter drive host name s' named)))
            (λ client. (refl, refl, refl, refl))
      by_password false =
          reply_keeps (SignedIn host false name s' world2 w) host
            (codes "./html/signin_failed.html") (as_html named) (λ client. (refl, refl, refl, refl))
