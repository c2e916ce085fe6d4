-- ===== src/Mail/Commands/Safety.antt =====
-- A connection to the mail server follows the diagram of its states.
use google_cloud_final.Base.{ℕ, ◌≡◌, ◌≢◌, refl, true, take, arith}
use google_cloud_final.Text.{Bytes, codes}
use google_cloud_final.CText.{strcasecmp}
use google_cloud_final.Outcome.{Outcome, done, abort, blocked, Ensures}
use google_cloud_final.Mail.{Post}
use google_cloud_final.Mail.Session.{Session, respond, service_close}
use google_cloud_final.Mail.Session.Diagram.{
  Valid, Moves, Follows, stays, helo_lem, rset_lem, to_lem, from_lem,
}
use google_cloud_final.Mail.Commands.{
  Verb, data_line, helo_line, mail_line, rcpt_line, rset_line, noop_line, quit_line, other, verb_of,
  handle, command,
}
use google_cloud_final.Mail.Delivery.Moves.{data_lem}

-- What a QUIT does, which is one only outside of the data: the answer 221, and the end.
pub record Quits {S : Type 0} (buff : Bytes) (s s' : Session S) : Type 0 where
  pub is_quit : strcasecmp (take 5 buff) (codes "quit\r") ≡ true
  pub not_data : s.state ≢ 4
  pub ended : s' ≡ respond service_close (record s { state = 6 })

-- What a command does: it follows an edge to a state in which all is in order, or it is a QUIT.
pub data Commanded {S : Type 0} (buff : Bytes) (s s' : Session S) : Type 0 where
  moved : Moves s s' → Commanded buff s s'
  quitted : Quits buff s s' → Valid s' → Commanded buff s s'

-- How a connection ends: it goes along the edges, and the last command is a QUIT.
pub record Ends {S : Type 0} (s s' : Session S) : Type 0 where
  pub buff : Bytes
  pub last : Session S
  pub way : Follows s last
  pub quits : Quits buff last s'

-- Where the lines of the buffer lead: along the edges, or to the end.
data Led {S : Type 0} (s s' : Session S) : Type 0 where
  stays_open : Follows s s' → s'.state ≢ 6 → Led s s'
  ends : Ends s s' → Led s s'

module _ {S : Type 0} where
  abbrev LedOf : Session S → Bytes × Session S → Type 0
  LedOf s p = Led s p.1

module _ {S : Type 0} (post : Post S) (master_addr : Bytes) (fuel : ℕ) where
  verb-in_data : (n : ℕ) (buff : Bytes) → n ≡ 4 → verb_of n buff ≡ data_line
  unfolding verb_of
  verb-in_data n buff h = ground (arith, h)

  quit_line-word :
      (n : ℕ) (buff : Bytes)
      → verb_of n buff ≡ quit_line
      → strcasecmp (take 5 buff) (codes "quit\r") ≡ true
  unfolding verb_of
  quit_line-word n buff h = ground (arith, h)

  -- Each command of a mail connection in which all is in order is a QUIT outside of the data,
  -- which is answered with 221 and ends the connection, or follows one edge of the diagram of
  -- states or leaves the state as it is; all is in order after it.
  pub command_lem :
      (buff line : Bytes) (s : Session S)
      → Valid s
      → Ensures (Commanded buff s) (command post master_addr fuel buff line s)
  unfolding command handle
  command_lem buff line s v = by_verb (verb_of s.state buff) refl
    where
      not_data : verb_of s.state buff ≢ data_line → s.state ≢ 4
      not_data h p = h (verb-in_data s.state buff p)

      along : (o : Outcome (Session S)) → Ensures (Moves s) o → Ensures (Commanded buff s) o
      along (done t) m = moved m
      along abort m = tt
      along blocked m = tt

      by_verb :
          (verb : Verb)
          → verb_of s.state buff ≡ verb
          → Ensures (Commanded buff s) (handle post master_addr fuel verb buff line s)
      by_verb data_line e = along _ (data_lem post master_addr fuel buff line s v)
      by_verb helo_line e = along _ (helo_lem buff s v)
      by_verb mail_line e = along _ (from_lem buff s v)
      by_verb rcpt_line e = along _ (to_lem buff s v)
      by_verb rset_line e = along _ (rset_lem s (not_data (λ p. cc)) v)
      by_verb noop_line e = moved (stays s _ v)
      by_verb quit_line e =
          quitted
            (record {
              is_quit = quit_line-word s.state buff e;
              not_data = not_data (λ p. cc);
              ended = refl;
            })
            (record {
              local = λ p q. ground (arith, q);
              has_rcpts = λ p q. ground (arith, q);
              no_text = λ p. v.no_text (not_data (λ q. cc));
            })
      by_verb other e = moved (stays s _ v)
