-- ===== src/Connection/Writes.antt =====
-- What reaches the peer.
use google_cloud_final.Base.{
  ◌≡◌, refl, true, List, [], ◌∷◌, ◌++◌, append_assoc, ap, take-append-drop, take, drop, append-nil,
  ◌∙◌,
}
use google_cloud_final.Text.{Bytes}
use google_cloud_final.Connection.{Connection, WriteEvent, took, write_failed, write_all, do_write}

-- What was taken is the front of the buffer, and the whole of it if the loop succeeds.
write_all-prefix :
    (events : List WriteEvent) (buf : Bytes)
    → (left : Bytes) × ((write_all events buf).1 ++ left ≡ buf)
      × ((write_all events buf).2 ≡ true → left ≡ [])
unfolding write_all
write_all-prefix events [] = ([], refl, λ e. refl)
write_all-prefix [] (b ∷ buf) = ([], append-nil (b ∷ buf), λ e. refl)
write_all-prefix (write_failed ∷ events) (b ∷ buf) = (b ∷ buf, refl, λ e. cc)
write_all-prefix (took n ∷ events) (b ∷ buf) =
    let ih = write_all-prefix events (drop n (b ∷ buf)) in
    (
      ih.0,
      append_assoc (take n (b ∷ buf)) (write_all events (drop n (b ∷ buf))).1 ih.0
          ∙ (ap (λ s. take n (b ∷ buf) ++ s) ih.1 ∙ take-append-drop n (b ∷ buf)),
      ih.2,
    )

-- If do_write succeeds, the peer gets the whole buffer, behind what was sent before; if it fails,
-- the peer gets a front part of it.
pub do_write_lem :
    (c : Connection) (buf : Bytes)
    → (left : Bytes) × ((do_write c buf).1.sent ++ left ≡ c.sent ++ buf)
      × ((do_write c buf).0 ≡ true → left ≡ [])
unfolding do_write
do_write_lem c buf =
    let p = write_all-prefix c.outgoing buf in
    (p.0, append_assoc c.sent (write_all c.outgoing buf).1 p.0 ∙ ap (λ s. c.sent ++ s) p.1, p.2)
