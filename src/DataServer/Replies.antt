-- ===== src/DataServer/Replies.antt =====
-- A reply over a connection whose kernel takes everything.
use google_cloud_final.Base.{◌≡◌, refl, [], ◌∷◌, ◌++◌}
use google_cloud_final.Text.{Bytes}
use google_cloud_final.Connection.{do_write, write_all}
use google_cloud_final.DataServer.{Worker, reply}

pub reply-free :
    (s : Worker) (text : Bytes)
    → s.task.outgoing ≡ []
    → ((reply s text).task.sent ≡ s.task.sent ++ text) × ((reply s text).task.outgoing ≡ [])
unfolding reply do_write
reply-free s [] h = unfold write_all in (refl, h)
reply-free s (x ∷ text) h = unfold write_all in (rw h refl, rw h refl)
