-- ===== src/Mail/Session/Diagram.antt =====
-- The states of a connection to the mail server, and what holds in them.
use google_cloud_final.Base.{
  ℕ, ◌≤◌, ◌≡◌, ◌≢◌, refl, ap, ◌∙◌, true, ◌||◌, List, [], ◌∷◌, ltb, arith, ◌==◌,
}
use google_cloud_final.Text.{Bytes}
use google_cloud_final.Outcome.{
  done, Ensures, Ensures-bind, Ensures-then, Ensures-cases, Ensures-self,
}
use google_cloud_final.Mail.Session.{
  Session, insert_rcpt, from_localhost, parse_mailbox, handle_helo, handle_from, handle_to,
  handle_rset,
}

-- A command but a QUIT takes the state along an edge.
infix 40 ◌⟶◌ ◌⟶*◌
pub data ◌⟶◌ : ℕ → ℕ → Type 0 where
  stay : {n : ℕ} → n ⟶ n
  greet : {n : ℕ} → n ≤ 1 → n ⟶ 1
  mail_from : {n : ℕ} → n ≡ 1 → n ⟶ 2
  rcpt_to : {n : ℕ} → 2 ≤ n → n ≤ 3 → n ⟶ 3
  start : {n : ℕ} → n ≡ 3 → n ⟶ 4
  finish : {n : ℕ} → n ≡ 4 → n ⟶ 5
  reset : {n : ℕ} → n ≢ 0 → n ≢ 4 → n ⟶ 1

-- A way along the edges.
pub data ◌⟶*◌ : ℕ → ℕ → Type 0 where
  here : {n : ℕ} → n ⟶* n
  step : {n m k : ℕ} → n ⟶ m → m ⟶* k → n ⟶* k

abbrev pub IsSomeRcpt : List Bytes → Type 0
IsSomeRcpt [] = ⊥
IsSomeRcpt (r ∷ rs) = Unit {0}

-- The sender is known from the MAIL on, the recipients from the RCPT on, and the text is empty but
-- in the data.
pub record Valid {S : Type 0} (s : Session S) : Type 0 where
  pub local : 2 ≤ s.state → s.state ≤ 4 → from_localhost s.sender ≡ done true
  pub has_rcpts : 3 ≤ s.state → s.state ≤ 4 → IsSomeRcpt s.rcpts
  pub no_text : s.state ≢ 4 → s.text ≡ []

insert_rcpt-IsSome : (r : Bytes) (rs : List Bytes) → IsSomeRcpt (insert_rcpt r rs)
unfolding insert_rcpt
insert_rcpt-IsSome r [] = tt
insert_rcpt-IsSome r (q ∷ qs) = ground arith

module _ {S : Type 0} where
  -- What a command does: it follows an edge to a state in which all is in order.
  abbrev pub Moves : Session S → Session S → Type 0
  Moves s s' = (s.state ⟶ s'.state) × Valid s'

  -- The state goes along the diagram.
  abbrev pub Follows : Session S → Session S → Type 0
  Follows s s' = (s.state ⟶* s'.state) × Valid s'

  -- Replies are of no importance.
  pub stays : (s : Session S) (r : List Bytes) → Valid s → Moves s (record s { replies = r })
  stays s r v = (stay, record { local = v.local; has_rcpts = v.has_rcpts; no_text = v.no_text })

  pub helo_lem : (buff : Bytes) (s : Session S) → Valid s → Ensures (Moves s) (handle_helo buff s)
  unfolding handle_helo
  helo_lem buff s v =
      Ensures-cases (Moves s) (ltb 1 s.state) _ _ (λ e. stays s _ v)
        (λ e. (
          greet (ground (arith, e)),
          record {
            local = λ p q. ground (arith, p);
            has_rcpts = λ p q. ground (arith, p);
            no_text = λ p. v.no_text (ground (arith, e));
          },
        ))

  pub rset_lem : (s : Session S) → s.state ≢ 4 → Valid s → Ensures (Moves s) (handle_rset s)
  unfolding handle_rset
  rset_lem s ne v =
      Ensures-cases (Moves s) (s.state == 0) _ _ (λ e. stays s _ v)
        (λ e. (
          reset (ground (arith, e)) ne,
          record {
            local = λ p q. ground (arith, p);
            has_rcpts = λ p q. ground (arith, p);
            no_text = λ p. refl;
          },
        ))

  pub to_lem : (buff : Bytes) (s : Session S) → Valid s → Ensures (Moves s) (handle_to buff s)
  unfolding handle_to
  to_lem buff s v =
      Ensures-cases (Moves s) (ltb s.state 2 || ltb 3 s.state) _ _ (λ e. stays s _ v)
        (λ e. Ensures-then (Moves s) (parse_mailbox buff) _ (λ mailbox. (
          rcpt_to (ground (arith, e)) (ground (arith, e)),
          record {
            local = λ p q. v.local (ground (arith, e)) (ground (arith, e));
            has_rcpts = λ p q. insert_rcpt-IsSome mailbox s.rcpts;
            no_text = λ p. v.no_text (ground (arith, e));
          },
        )))

  pub from_lem : (buff : Bytes) (s : Session S) → Valid s → Ensures (Moves s) (handle_from buff s)
  unfolding handle_from
  from_lem buff s v =
      Ensures-cases (Moves s) (s.state == 1) _ _
        (λ e. Ensures-then (Moves s) (parse_mailbox buff) _ (λ domain.
          Ensures-bind (λ b. from_localhost domain ≡ done b) (Moves s) (from_localhost domain) _
            (Ensures-self (from_localhost domain))
            (λ b h.
              Ensures-cases (Moves s) b _ _
                (λ t. (
                  mail_from (ground (arith, e)),
                  record {
                    local = λ p q. h ∙ ap done t;
                    has_rcpts = λ p q. ground (arith, p);
                    no_text = λ p. v.no_text (ground (arith, e));
                  },
                ))
                (λ f. stays s _ v))))
        (λ e. stays s _ v)

-- No edge leads to the state 6.
pub ⟶-open : {n m : ℕ} → n ⟶ m → n ≢ 6 → m ≢ 6
⟶-open stay h = h
⟶-open (greet p) h = λ e. omega (arith, e)
⟶-open (mail_from p) h = λ e. omega (arith, e)
⟶-open (rcpt_to p q) h = λ e. omega (arith, e)
⟶-open (start p) h = λ e. omega (arith, e)
⟶-open (finish p) h = λ e. omega (arith, e)
⟶-open (reset p q) h = λ e. omega (arith, e)

pub ⟶*-trans : {n m k : ℕ} → n ⟶* m → m ⟶* k → n ⟶* k
⟶*-trans here q = q
⟶*-trans (step e p) q = step e (⟶*-trans p q)
