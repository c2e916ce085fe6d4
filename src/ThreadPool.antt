-- ===== src/ThreadPool.antt =====
-- kvstore/ThreadPool.cc, and kvstore/master/masterThreadPool.cc, which repeats it: the queue of
-- connections, and the threads that serve them.  A connection is its number.  An event is what
-- one thread does up to the next place where another can come between: the test and the take
-- are under the mutex, `ongoing` is not.
pub mod Traces
pub mod ShutDown
use google_cloud_final.Base.{
  ℕ, zero, suc, Bool, true, false, List, [], ◌∷◌, ◌++◌, length, ◌==◌, if◌then◌else◌, Option, none,
  some, get_elem?,
}

-- Where a thread is: it waits, it has taken a connection off the queue, it serves it, or it has
-- ended, maybe with a connection in hand.
pub data Phase : Type 0 where
  waiting : Phase
  took : ℕ → Phase
  serving : ℕ → Phase
  ended : Phase
  stopped : ℕ → Phase

pub record Pool : Type 0 where
  pub work_queue : List ℕ
  pub ongoing : List ℕ
  pub closed : Bool
  pub deleted : List ℕ
  pub threads : List Phase

-- `CreatePool` for `n` threads
unfoldable pub waiting_threads : ℕ → List Phase
waiting_threads zero = []
waiting_threads (suc n) = waiting ∷ waiting_threads n

unfoldable pub create_pool : ℕ → Pool
unfolding waiting_threads
create_pool n = record {
  work_queue = [];
  ongoing = [];
  closed = false;
  deleted = [];
  threads = waiting_threads n;
}

unfoldable pub add_task : ℕ → Pool → Pool
add_task task p = record p { work_queue = p.work_queue ++ task ∷ [] }

-- `size`
unfoldable pub size : Pool → ℕ
size p = length p.work_queue

-- `ongoing.insert` and `ongoing.erase`
unfoldable pub insert_task : ℕ → List ℕ → List ℕ
insert_task task [] = task ∷ []
insert_task task (t ∷ ts) = if t == task then t ∷ ts else t ∷ insert_task task ts

unfoldable pub erase_task : ℕ → List ℕ → List ℕ
erase_task task [] = []
erase_task task (t ∷ ts) = let rest = erase_task task ts in if t == task then rest else t ∷ rest

-- The result, the connections that get the notice of the shut down and are deleted, and the pool.
-- All threads are cancelled: from then on the event `cancel` may end each of them.
unfoldable pub close_all : Pool → Bool × List ℕ × Pool
close_all p =
    if p.closed
    then (false, [], p)
    else (true, p.ongoing, record p { closed = true; deleted = p.deleted ++ p.ongoing })

unfoldable pub set_phase : ℕ → Phase → List Phase → List Phase
set_phase i ph [] = []
set_phase zero ph (q ∷ qs) = ph ∷ qs
set_phase (suc i) ph (q ∷ qs) = q ∷ set_phase i ph qs

abbrev pub in_phase : ℕ → Phase → Pool → Pool
in_phase i ph p = record p { threads = set_phase i ph p.threads }

-- The thread takes the front of the queue; with none it waits on.
abbrev pub take_front : ℕ → List ℕ → Pool → Pool
take_front i [] p = p
take_front i (task ∷ queue) p = in_phase i (took task) (record p { work_queue = queue })

-- What thread `i` does next in `ThreadFun`.
unfoldable pub thread_step : ℕ → Option Phase → Pool → Pool
unfolding set_phase insert_task erase_task
thread_step i (some waiting) p =
    if p.closed then in_phase i ended p else take_front i p.work_queue p
thread_step i (some (took task)) p =
    in_phase i (serving task) (record p { ongoing = insert_task task p.ongoing })
thread_step i (some (serving task)) p =
    if p.closed
    then in_phase i (stopped task) p
    else in_phase i waiting (record p { ongoing = erase_task task p.ongoing })
thread_step i _ p = p

-- What becomes of thread `i` where its `pthread_cancel` takes effect; it is left as it is before
-- the call.
unfoldable pub thread_cancel : ℕ → Option Phase → Pool → Pool
unfolding set_phase
thread_cancel i (some waiting) p = if p.closed then in_phase i ended p else p
thread_cancel i (some (took task)) p = if p.closed then in_phase i (stopped task) p else p
thread_cancel i (some (serving task)) p = if p.closed then in_phase i (stopped task) p else p
thread_cancel i _ p = p

-- What may happen, in any order.
pub data Event : Type 0 where
  arrive : ℕ → Event
  advance : ℕ → Event
  cancel : ℕ → Event
  shut_down : Event

unfoldable pub happen : Event → Pool → Pool
unfolding add_task thread_step thread_cancel close_all
happen (arrive task) p = add_task task p
happen (advance i) p = thread_step i (get_elem? p.threads i) p
happen (cancel i) p = thread_cancel i (get_elem? p.threads i) p
happen shut_down p = (close_all p).2

unfoldable pub run : List Event → Pool → Pool
unfolding happen
run [] p = p
run (e ∷ es) p = run es (happen e p)
