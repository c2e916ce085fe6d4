-- ===== src/Tests/Threads.antt =====
-- Two threads and three connections, on which the theorems on the pool are applied.
use google_cloud_final.Base.{List, [], ◌∷◌}
use google_cloud_final.ThreadPool.{Event, arrive, advance, cancel, shut_down}

abbrev trace : List Event
trace =
    arrive 7
    ∷ arrive 8
    ∷ advance 0
    ∷ advance 1
    ∷ advance 0
    ∷ advance 0
    ∷ arrive 9
    ∷ shut_down
    ∷ advance 0
    ∷ cancel 1
    ∷ []
