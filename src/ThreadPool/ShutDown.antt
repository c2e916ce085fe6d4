-- ===== src/ThreadPool/ShutDown.antt =====
-- What a shut down does to the connections, and that nothing else does it.
use google_cloud_final.Base.{ℕ, ◌+◌, ◌≡◌, List, [], ◌∷◌, ◌==◌, if◌then◌else◌, Option, none, some}
use google_cloud_final.ThreadPool.{Phase, stopped, Pool}

-- How often a connection is in the hand of a thread that has ended.
abbrev pub in_ended : ℕ → Phase → ℕ
in_ended task (stopped t) = if t == task then 1 else 0
in_ended task ph = 0

abbrev pub stranded : ℕ → List Phase → ℕ
stranded task [] = 0
stranded task (ph ∷ phs) = in_ended task ph + stranded task phs

-- Nothing is cut off: no thread ends with a connection in hand, and none is deleted.
abbrev pub CutsNothing : ℕ → Pool → Pool → Type 0
CutsNothing task p q = (stranded task q.threads ≡ stranded task p.threads) × (q.deleted ≡ p.deleted)

abbrev in_ended_of : ℕ → Option Phase → ℕ
in_ended_of task none = 0
in_ended_of task (some ph) = in_ended task ph
