-- ===== src/Mail/Delivery/Moves.antt =====
-- The data of a mail, as a step of the diagram of the states.
use google_cloud_final.Base.{ℕ, ◌≡◌, refl, Bool, ◌||◌, List, [], ◌∷◌, ◌++◌, take, ltb, arith, ◌==◌}
use google_cloud_final.Text.{Bytes, codes, npos, equal, find, substr, substr_from, add64}
use google_cloud_final.Connection.{crlf}
use google_cloud_final.Outcome.{or_throw, Ensures, Ensures-bind, Ensures-then, Ensures-cases}
use google_cloud_final.Mail.{Post}
use google_cloud_final.Mail.Wire.{hash_md5, ask_master}
use google_cloud_final.Mail.HashList.{append_hash, put_of}
use google_cloud_final.Mail.Queue.{mail_relay}
use google_cloud_final.Mail.Session.{Session, warn}
use google_cloud_final.Mail.Session.Diagram.{◌⟶◌, stay, start, finish, Valid, Moves, stays}
use google_cloud_final.Mail.Delivery.{
  title_of, outbox_header, inbox_header, deliver_here, place_mail, deliver_to, deliver_all,
  end_data, handle_data,
}

module _ {S : Type 0} (post : Post S) (master_addr : Bytes) (fuel : ℕ) where
  abbrev Same : ℕ → Session S → Type 0
  Same n s = s.state ≡ n

  abbrev SameOf : ℕ → Session S × Bool → Type 0
  SameOf n p = p.0.state ≡ n

  deliver_here-Same :
      (n : ℕ) (user_name hash mail : Bytes) (s : Session S)
      → s.state ≡ n
      → Ensures (SameOf n) (deliver_here post master_addr fuel user_name hash mail s)
  unfolding deliver_here
  deliver_here-Same n user_name hash mail s h =
      Ensures-then (SameOf n) (ask_master post.sendto_backend master_addr user_name s.world) _ (λ a.
        Ensures-cases (SameOf n) (equal a.0 (codes "NULL")) _ _ (λ e. h)
          (λ e.
            Ensures-then (SameOf n)
              (append_hash post.sendto_backend fuel a.0 user_name (codes "mail/inbox/list") hash
                a.1)
              _
              (λ w2.
                Ensures-then (SameOf n)
                  (post.sendto_backend a.0 (put_of user_name (codes "mail/inbox/" ++ hash) mail) w2)
                  _ (λ r. h))))

  deliver_to-Same :
      (n : ℕ) (sender_name title time hash rcpt : Bytes) (s : Session S)
      → s.state ≡ n
      → Ensures (Same n) (deliver_to post master_addr fuel sender_name title time hash rcpt s)
  unfolding deliver_to place_mail
  deliver_to-Same n sender_name title time hash rcpt s h =
      let at = find rcpt (codes "@") in
      Ensures-then (Same n) (or_throw (substr rcpt 0 at)) _ (λ user_name.
        Ensures-then (Same n) (or_throw (substr_from rcpt (add64 at 1))) _ (λ server_name.
          Ensures-bind (SameOf n) (Same n)
            (place_mail post master_addr fuel sender_name title time hash rcpt user_name server_name
              s)
            _
            (Ensures-cases (SameOf n) (equal (take 9 server_name) (codes "localhost")) _ _
              (λ e.
                deliver_here-Same n user_name hash
                  (inbox_header server_name s.sender rcpt title time ++ s.text) s h)
              (λ e. h))
            (λ p k.
              Ensures-cases (Same n) p.1 _ _
                (λ e. Ensures-then (Same n) (mail_relay post p.0.mqueue p.0.world) _ (λ r. k))
                (λ e. k))))

  deliver_all-Same :
      (n : ℕ) (sender_name title time hash : Bytes) (rcpts : List Bytes) (s : Session S)
      → s.state ≡ n
      → Ensures (Same n) (deliver_all post master_addr fuel sender_name title time hash rcpts s)
  unfolding deliver_all
  deliver_all-Same n sender_name title time hash [] s h = h
  deliver_all-Same n sender_name title time hash (rcpt ∷ rcpts) s h =
      Ensures-bind (Same n) (Same n)
        (deliver_to post master_addr fuel sender_name title time hash rcpt s) _
        (deliver_to-Same n sender_name title time hash rcpt s h)
        (λ s1 k. deliver_all-Same n sender_name title time hash rcpts s1 k)

  abbrev warned : Session S → Session S
  warned s =
      warn (find s.text (codes "Subject: ") == npos)
        (codes "email content must include Subject: " ++ crlf) (record s { state = 5 })

  end_data_lem :
      (s : Session S) → s.state ≡ 4 → Ensures (Moves s) (end_data post master_addr fuel s)
  unfolding end_data
  end_data_lem s h =
      let hash = hash_md5 post.md5 s.text in
      let time = post.ctime s.world ++ crlf in
      Ensures-then (Moves s) (title_of s.text) _ (λ title.
        Ensures-then (Moves s) (or_throw (substr s.sender 0 (find s.sender (codes "@")))) _
          (λ sender_name.
            Ensures-then (Moves s) (ask_master post.sendto_backend master_addr sender_name s.world)
              _
              (λ a.
                Ensures-then (Moves s)
                  (append_hash post.sendto_backend fuel a.0 sender_name (codes "mail/outbox/list")
                    hash a.1)
                  _
                  (λ w2.
                    Ensures-then (Moves s)
                      (post.sendto_backend a.0
                        (put_of sender_name (codes "mail/outbox/" ++ hash)
                          (outbox_header s.sender s.rcpts title time ++ s.text))
                        w2)
                      _
                      (λ r.
                        Ensures-bind (Same 5) (Moves s)
                          (deliver_all post master_addr fuel sender_name title time hash s.rcpts
                            (record (warned s) { world = r.1 }))
                          _ (deliver_all-Same 5 sender_name title time hash s.rcpts _ refl)
                          (λ s1 k. (
                            ap_edge s1 k,
                            record {
                              local = λ p q. ground (arith, q, k);
                              has_rcpts = λ p q. ground (arith, q, k);
                              no_text = λ p. refl;
                            },
                          )))))))
    where
      ap_edge : (s1 : Session S) → s1.state ≡ 5 → s.state ⟶ s1.state
      ap_edge s1 k = rw k (finish h)

  pub data_lem :
      (buff line : Bytes) (s : Session S)
      → Valid s
      → Ensures (Moves s) (handle_data post master_addr fuel buff line s)
  unfolding handle_data
  data_lem buff line s v =
      Ensures-cases (Moves s) (ltb s.state 3 || ltb 4 s.state) _ _ (λ e. stays s _ v)
        (λ e.
          Ensures-cases (Moves s) (s.state == 3) _ _
            (λ t. (
              start (ground (arith, t)),
              record {
                local = λ p q. v.local (ground (arith, t)) (ground (arith, t));
                has_rcpts = λ p q. v.has_rcpts (ground (arith, t)) (ground (arith, t));
                no_text = λ p. absurd (p refl);
              },
            ))
            (λ t.
              Ensures-cases (Moves s) (equal buff (codes "." ++ crlf)) _ _
                (λ d. end_data_lem s (ground (arith, e, t)))
                (λ d. (
                  stay,
                  record {
                    local = v.local;
                    has_rcpts = v.has_rcpts;
                    no_text = λ p. absurd (p (ground (arith, e, t)));
                  },
                ))))
