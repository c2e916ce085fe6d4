-- ===== src/Mail.antt =====
-- webmail/: the mail server and the mail client, which keep the mail of a user in the key-value
-- store: a list of hashes, and a cell for each mail.  The sockets, the digest MD5, the clock and
-- the resolver are parameters.
pub mod Wire
pub mod HashList
pub mod Client
pub mod Queue
pub mod Session
pub mod Delivery
pub mod Commands
use google_cloud_final.Base.{Bool, List}
use google_cloud_final.Text.{Bytes}
use google_cloud_final.Connection.{Connection}
use google_cloud_final.Outcome.{Outcome}

-- What a connection to an address (the texts of its ip and port) is, and where it goes when it is
-- closed.
pub record Net (S : Type 0) : Type 0 where
  pub connect : Bytes → Bytes → S → Connection × S
  pub close : Connection → S → S

-- What the mail server uses: `sendto_backend`, the digest, `ctime`, and the forwarding of a mail to
-- another host, whose result is whether it was sent.
pub record Post (S : Type 0) : Type 0 where
  pub sendto_backend : Bytes → Bytes → S → Outcome (Bytes × S)
  pub md5 : Bytes → Bytes
  pub ctime : S → Bytes
  pub handle_forward : Bytes → Bytes → Bytes → Bytes → S → Outcome (Bool × S)

-- `email`
pub record Email : Type 0 where
  pub header : Bytes
  pub content : Bytes
  pub hash : Bytes
  pub deleted : Bool
  pub opened : Bool
