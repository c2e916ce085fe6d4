-- ===== src/ThreadPool/Traces.antt =====
-- What becomes of the connections, whatever the order of the events is.
use google_cloud_final.Base.{
  ℕ, zero, suc, ◌+◌, ◌≡◌, refl, ap, List, [], ◌∷◌, ◌++◌, arith, ◌==◌, if◌then◌else◌, Option, none,
  some, get_elem?,
}
use google_cloud_final.ThreadPool.{
  Phase, waiting, took, serving, ended, stopped, Pool, add_task, close_all, set_phase, take_front,
  thread_cancel, thread_step, Event, arrive, advance, cancel, shut_down, happen, run,
}

-- What arrives with an event, what is taken off the queue, and what is served to the end.
abbrev pub arrives : Event → List ℕ
arrives (arrive task) = task ∷ []
arrives e = []

abbrev first_of : List ℕ → List ℕ
first_of [] = []
first_of (task ∷ queue) = task ∷ []

abbrev taken_in : Option Phase → Pool → List ℕ
taken_in (some waiting) p = if p.closed then [] else first_of p.work_queue
taken_in ph p = []

abbrev pub served_in : Option Phase → Pool → List ℕ
served_in (some (serving task)) p = if p.closed then [] else task ∷ []
served_in ph p = []

abbrev pub takes : Event → Pool → List ℕ
takes (advance i) p = taken_in (get_elem? p.threads i) p
takes e p = []

abbrev pub serves : Event → Pool → List ℕ
serves (advance i) p = served_in (get_elem? p.threads i) p
serves e p = []

-- The same of a trace.
abbrev pub arrived : List Event → List ℕ
arrived [] = []
arrived (e ∷ es) = arrives e ++ arrived es

abbrev pub taken : List Event → Pool → List ℕ
taken [] p = []
taken (e ∷ es) p = takes e p ++ taken es (happen e p)

abbrev pub served : List Event → Pool → List ℕ
served [] p = []
served (e ∷ es) p = serves e p ++ served es (happen e p)

-- How often a connection stands in a list, and how often the threads hold it.
abbrev pub count : ℕ → List ℕ → ℕ
count task [] = 0
count task (t ∷ ts) = (if t == task then 1 else 0) + count task ts

abbrev pub in_hand : ℕ → Phase → ℕ
in_hand task (took t) = if t == task then 1 else 0
in_hand task (serving t) = if t == task then 1 else 0
in_hand task (stopped t) = if t == task then 1 else 0
in_hand task ph = 0

abbrev pub held : ℕ → List Phase → ℕ
held task [] = 0
held task (ph ∷ phs) = in_hand task ph + held task phs

count-append : (task : ℕ) (xs ys : List ℕ) → count task (xs ++ ys) ≡ count task xs + count task ys
count-append task [] ys = omega arith
count-append task (x ∷ xs) ys = omega (arith, count-append task xs ys)

abbrev in_hand_of : ℕ → Option Phase → ℕ
in_hand_of task none = 0
in_hand_of task (some ph) = in_hand task ph

held-set_phase :
    (task i : ℕ) (ph ph' : Phase) (phs : List Phase)
    → get_elem? phs i ≡ some ph
    → held task (set_phase i ph' phs) + in_hand task ph ≡ held task phs + in_hand task ph'
unfolding set_phase
held-set_phase task zero ph ph' [] h = cc
held-set_phase task (suc i) ph ph' [] h = cc
held-set_phase task zero ph ph' (q ∷ qs) h = omega (arith, ap (in_hand_of task) h)
held-set_phase task (suc i) ph ph' (q ∷ qs) h = omega (arith, held-set_phase task i ph ph' qs h)

-- Where a connection is: in the queue or in the hand of a thread.
abbrev pub present : ℕ → Pool → ℕ
present task p = count task p.work_queue + held task p.threads

take_front-present :
    (task i : ℕ) (q : List ℕ) (p : Pool)
    → p.work_queue ≡ q
    → get_elem? p.threads i ≡ some waiting
    → present task p ≡ present task (take_front i q p)
take_front-present task i [] p e h = refl
take_front-present task i (t ∷ q) p e h =
    omega (arith, ap (count task) e, held-set_phase task i waiting (took t) p.threads h)

thread_step-present :
    (task i : ℕ) (ph : Option Phase) (p : Pool)
    → get_elem? p.threads i ≡ ph
    → present task p ≡ count task (served_in ph p) + present task (thread_step i ph p)
unfolding thread_step
thread_step-present task i none p h = omega arith
thread_step-present task i (some waiting) p h = ground (
  arith,
  take_front-present task i p.work_queue p refl h,
  held-set_phase task i waiting ended p.threads h,
)
thread_step-present task i (some (took t)) p h =
    omega (arith, held-set_phase task i (took t) (serving t) p.threads h)
thread_step-present task i (some (serving t)) p h = ground (
  arith,
  held-set_phase task i (serving t) (stopped t) p.threads h,
  held-set_phase task i (serving t) waiting p.threads h,
)
thread_step-present task i (some ended) p h = omega arith
thread_step-present task i (some (stopped t)) p h = omega arith

thread_cancel-present :
    (task i : ℕ) (ph : Option Phase) (p : Pool)
    → get_elem? p.threads i ≡ ph
    → present task (thread_cancel i ph p) ≡ present task p
unfolding thread_cancel
thread_cancel-present task i none p h = refl
thread_cancel-present task i (some waiting) p h =
    ground (arith, held-set_phase task i waiting ended p.threads h)
thread_cancel-present task i (some (took t)) p h =
    ground (arith, held-set_phase task i (took t) (stopped t) p.threads h)
thread_cancel-present task i (some (serving t)) p h =
    ground (arith, held-set_phase task i (serving t) (stopped t) p.threads h)
thread_cancel-present task i (some ended) p h = refl
thread_cancel-present task i (some (stopped t)) p h = refl

close_all-present : (task : ℕ) (p : Pool) → present task (close_all p).2 ≡ present task p
unfolding close_all
close_all-present task p = ground arith

happen-present :
    (task : ℕ) (e : Event) (p : Pool)
    → present task p + count task (arrives e) ≡ count task (serves e p) + present task (happen e p)
unfolding happen add_task
happen-present task (arrive t) p = omega (arith, count-append task p.work_queue (t ∷ []))
happen-present task shut_down p = omega (arith, close_all-present task p)
happen-present task (cancel i) p =
    omega (arith, thread_cancel-present task i (get_elem? p.threads i) p refl)
happen-present task (advance i) p =
    omega (arith, thread_step-present task i (get_elem? p.threads i) p refl)

-- Every connection is counted, in whatever order the events come.
pub ledger_lem :
    (task : ℕ) (es : List Event) (p : Pool)
    → present task p + count task (arrived es) ≡ count task (served es p) + present task (run es p)
unfolding run
ledger_lem task [] p = omega arith
ledger_lem task (e ∷ es) p = omega (
  arith,
  count-append task (arrives e) (arrived es),
  count-append task (serves e p) (served es (happen e p)),
  happen-present task e p,
  ledger_lem task es (happen e p),
)
